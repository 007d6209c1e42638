-- ===== src/DataProcessor/Events.antt =====
-- indexer/data_processor/event.go: the events of a transaction, native or compressed. The protobuf
-- encoding of the whole, the zstd compression and the parsing of a float are parameters.
use spectra_gnoland_indexer.Common.{
  String, Bool, true, false, ◌&&◌, Option, none, some, List, map, length, leb, if◌then◌else◌,
}
use spectra_gnoland_indexer.EventAttributes.{ProtoAttribute, new_attribute_from_string}
use spectra_gnoland_indexer.Rpc.{RpcEvent, TxResponse}

-- a row of the type `event`
pub record Attribute : Type 0 where
  pub key : String
  pub value : String

pub record NativeEvent : Type 0 where
  pub at_type : String
  pub type : String
  pub attributes : List Attribute
  pub pkg_path : String

-- a protobuf message, whose path is a pointer
pub record ProtoEvent (Float : Type 0) : Type 0 where
  pub at_type : String
  pub type : String
  pub attributes : List (ProtoAttribute Float)
  pub pkg_path : Option String

pub record Encoding (Bytes Float : Type 0) : Type 0 where
  pub parse_float : String → Option Float
  pub marshal : List (ProtoEvent Float) → Option Bytes
  pub encode_all : Bytes → Bytes

-- the two formats
pub data EventResult (Bytes : Type 0) : Type 0 where
  native_format : List NativeEvent → EventResult Bytes
  compressed_format : Bytes → EventResult Bytes

module _ {Bytes : Type 0} where
  abbrev pub is_compressed : EventResult Bytes → Bool
  is_compressed (native_format es) = false
  is_compressed (compressed_format b) = true

  -- nil in the other format
  abbrev pub get_native_events : EventResult Bytes → Option (List NativeEvent)
  get_native_events (native_format es) = some es
  get_native_events (compressed_format b) = none

  abbrev pub get_compressed_data : EventResult Bytes → Option Bytes
  get_compressed_data (native_format es) = none
  get_compressed_data (compressed_format b) = some b

abbrev pub native_event : RpcEvent → NativeEvent
native_event e = record {
  at_type = e.at_type;
  type = e.type;
  attributes = map (λ a. record { key = a.key; value = a.value }) e.attrs;
  pkg_path = e.pkg_path;
}

module _ {Bytes Float : Type 0} (encoding : Encoding Bytes Float) where
  open encoding use {parse_float, marshal, encode_all}

  unfoldable pub serialize_event : List RpcEvent → Option Bytes
  unfolding new_attribute_from_string
  serialize_event events = marshal (
      map
        (λ e. record {
          at_type = e.at_type;
          type = e.type;
          attributes = map (λ a. new_attribute_from_string parse_float a.key a.value) e.attrs;
          pkg_path = some e.pkg_path;
        })
        events)

  abbrev pub compressed : Option Bytes → Option (EventResult Bytes)
  compressed none = none
  compressed (some serialized) = some (compressed_format (encode_all serialized))

  -- `none` for an error of the serialization; fewer than two events are never compressed
  unfoldable pub event_solver : TxResponse → Bool → Option (EventResult Bytes)
  unfolding serialize_event
  event_solver tx_response use_compressed =
      let events = tx_response.result.tx_result.response_base.events in
      if use_compressed && leb 2 (length events)
      then compressed (serialize_event events)
      else some (native_format (map native_event events))
