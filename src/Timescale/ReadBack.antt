-- ===== src/Timescale/ReadBack.antt =====
-- indexer/data_processor/event.go and pkgs/database/timescaledb/queries_tx.go: the events of a
-- transaction are written native or compressed, and read again.

use spectra_gnoland_indexer.Common.{
  String, ◌≡◌, refl, ap, sym, subst, inl, inr, Bool, true, false, none, some, List, [], ◌∷◌, map,
  ok, codes, ℤ, parse_int, format_int, leb, length, Bool-cases, Option-cases,
}
use spectra_gnoland_indexer.EventAttributes.{
  ProtoAttribute, parse_bool, parse_attribute_value, new_attribute_from_string,
}
use spectra_gnoland_indexer.EventAttributes.Texts.{
  IsInt64, parse_int-format_int, parse_bool-format_int,
}
use spectra_gnoland_indexer.Rpc.{RpcEvent, EventAttribute, TxResponse}
use spectra_gnoland_indexer.DataProcessor.Events.{
  Encoding, ProtoEvent, EventResult, native_format, compressed_format, NativeEvent, native_event,
  is_compressed, event_solver, serialize_event, compressed, get_native_events, get_compressed_data,
}
use spectra_gnoland_indexer.Timescale.Types.{Attribute, Event}
use spectra_gnoland_indexer.Timescale.Events.{
  Decoding, ReadEvent, FullTxData, format_bool, format_value, decoded_attribute, decoded_event,
  decode_events, to_transaction, with_events, decompress_events, proto_unmarshal,
}

abbrev read_attribute : EventAttribute → Attribute
read_attribute a = record { key = a.key; value = a.value }

-- an event as the API gives it
abbrev pub read_event : RpcEvent → Event
read_event e = record {
  at_type = e.at_type;
  type = e.type;
  attributes = map read_attribute e.attrs;
  pkg_path = e.pkg_path;
}

-- a native event as it is scanned
abbrev scanned_native : NativeEvent → Event
scanned_native e = record {
  at_type = e.at_type;
  type = e.type;
  attributes = map (λ a. record { key = a.key; value = a.value }) e.attributes;
  pkg_path = e.pkg_path;
}

-- a protobuf event as it comes out of the encoding
abbrev pub as_read : {Float : Type 0} → ProtoEvent Float → ReadEvent Float
as_read e = record {
  at_type = e.at_type;
  type = e.type;
  attributes = map (λ a. record { key = a.key; value = some a.value }) e.attributes;
  pkg_path = e.pkg_path;
}

module _ {Bytes Float : Type 0} (encoding : Encoding Bytes Float)
    (decoding : Decoding Float Bytes) where
  -- What the reading relies on: protobuf and zstd give back what they were given, and a zstd
  -- frame is not empty.
  pub record Reads : Type 0 where
    pub unmarshal-marshal :
        (events : List (ProtoEvent Float)) (raw : Bytes)
        → encoding.marshal events ≡ some raw
        → decoding.unmarshal raw ≡ some (map as_read events)
    pub decode_all-encode_all :
        (raw : Bytes) → decoding.decode_all (encoding.encode_all raw) ≡ some raw
    pub encode_all_nonempty : (raw : Bytes) → decoding.is_empty (encoding.encode_all raw) ≡ false

  -- the texts that the types of the attributes keep: "true" and "false", the int64 as FormatInt
  -- writes them, the floats as FormatFloat writes them, and what is no bool and no number
  pub data IsKept (v : String) : Type 0 where
    is_bool : (b : Bool) → v ≡ format_bool b → IsKept v
    is_int : (i : ℤ) → IsInt64 i → v ≡ format_int i → IsKept v
    is_float :
        (f : Float)
        → parse_bool v ≡ none
        → parse_int (codes v) ≡ none
        → encoding.parse_float v ≡ some f
        → decoding.format_float f ≡ v
        → IsKept v
    is_text :
        parse_bool v ≡ none → parse_int (codes v) ≡ none → encoding.parse_float v ≡ none → IsKept v

  kept_value :
      (v : String)
      → IsKept v
      → format_value decoding (some (parse_attribute_value encoding.parse_float v)) ≡ v
  unfolding parse_attribute_value
  kept_value v (is_bool true e) = rw e (unfold parse_bool in refl)
  kept_value v (is_bool false e) = rw e (unfold parse_bool in refl)
  kept_value v (is_int i h e) = rw (e, parse_bool-format_int i, parse_int-format_int i h)
  kept_value v (is_float f b i p e) = rw (b, i, p) e
  kept_value v (is_text b i p) = rw (b, i, p)

  abbrev AttributesKept : List EventAttribute → Type 0
  AttributesKept [] = Unit
  AttributesKept (a ∷ attrs) = IsKept a.value × AttributesKept attrs

  abbrev pub EventsKept : List RpcEvent → Type 0
  EventsKept [] = Unit
  EventsKept (e ∷ events) = AttributesKept e.attrs × EventsKept events

  -- as `serializeEvent` makes them
  abbrev proto_attribute : EventAttribute → ProtoAttribute Float
  proto_attribute a = new_attribute_from_string encoding.parse_float a.key a.value

  abbrev proto_event : RpcEvent → ProtoEvent Float
  proto_event e = record {
    at_type = e.at_type;
    type = e.type;
    attributes = map proto_attribute e.attrs;
    pkg_path = some e.pkg_path;
  }

  kept_attributes :
      (attrs : List EventAttribute)
      → AttributesKept attrs
      → map
          (decoded_attribute decoding)
          (map (λ a. record { key = a.key; value = some a.value }) (map proto_attribute attrs))
        ≡ map read_attribute attrs
  unfolding new_attribute_from_string
  kept_attributes [] k = refl
  kept_attributes (a ∷ attrs) (k, ks) = rw (kept_value a.value k, kept_attributes attrs ks)

  kept_events :
      (events : List RpcEvent)
      → EventsKept events
      → map (decoded_event decoding) (map as_read (map proto_event events)) ≡ map read_event events
  kept_events [] k = refl
  kept_events (e ∷ events) (k, ks) = rw (kept_attributes e.attrs k, kept_events events ks)

  native_attributes :
      (attrs : List EventAttribute)
      → (scanned_native (
          native_event
            (record { at_type = ""; type = ""; attrs = attrs; pkg_path = "" }))).attributes
        ≡ map read_attribute attrs
  native_attributes [] = refl
  native_attributes (a ∷ attrs) = ap (◌∷◌ (read_attribute a)) (native_attributes attrs)

  native_events :
      (events : List RpcEvent)
      → map scanned_native (map native_event events) ≡ map read_event events
  native_events [] = refl
  native_events (e ∷ events) = rw (native_attributes e.attrs, native_events events)

  -- what the row of a transaction holds of its events
  pub record Holds (r : EventResult Bytes) (f : FullTxData Bytes) : Type 0 where
    pub native :
        (es : List NativeEvent)
        → get_native_events r ≡ some es
        → f.tx_events ≡ map scanned_native es
    pub compressed_data : (b : Bytes) → get_compressed_data r ≡ some b → f.tx_events_compressed ≡ b
    pub compression : f.compression_on ≡ is_compressed r

  decoded_compressed :
      Reads
      → (events : List RpcEvent) (r : EventResult Bytes) → EventsKept events
      → compressed encoding (serialize_event encoding events) ≡ some r
      → (b : Bytes) × (r ≡ compressed_format b)
        × (decode_events decoding b ≡ some (map read_event events))
  unfolding serialize_event decode_events decompress_events proto_unmarshal
  decoded_compressed reads events r kept e =
      elim (Option-cases (encoding.marshal (map proto_event events))) [
        | inl no_bytes ↦ let never : none ≡ some r = rw no_bytes at e in cc
        | inr (raw, bytes) ↦
            let made : some (compressed_format (encoding.encode_all raw)) ≡ some r =
              rw bytes at e in
            (
              encoding.encode_all raw,
              cc,
              rw (
                reads.encode_all_nonempty raw,
                reads.decode_all-encode_all raw,
                reads.unmarshal-marshal (map proto_event events) raw bytes,
                kept_events events kept,
              ),
            )
      ]

  read_native :
      (f : FullTxData Bytes) (events : List RpcEvent)
      → Holds (native_format (map native_event events)) f
      → to_transaction (decode_events decoding) f ≡ ok (with_events f (map read_event events))
  unfolding to_transaction
  read_native f events holds =
      rw (holds.compression, holds.native (map native_event events) refl, native_events events)

  read_compressed :
      (f : FullTxData Bytes) (events : List Event) (b : Bytes)
      → decode_events decoding b ≡ some events
      → Holds (compressed_format b) f
      → to_transaction (decode_events decoding) f ≡ ok (with_events f events)
  unfolding to_transaction
  read_compressed f events b e holds = rw (holds.compression, holds.compressed_data b refl, e)

  -- If the row of a transaction holds what EventSolver gave for its events, and compressed events
  -- have only texts that the types of the attributes keep, ToTransaction gives the events as the
  -- node gave them.
  pub to_transaction-event_solver :
      Reads
      → (t : TxResponse) (use_compressed : Bool) (r : EventResult Bytes) (f : FullTxData Bytes)
      → (use_compressed ≡ true → EventsKept t.result.tx_result.response_base.events)
      → event_solver encoding t use_compressed ≡ some r
      → Holds r f
      → to_transaction (decode_events decoding) f
        ≡ ok (with_events f (map read_event t.result.tx_result.response_base.events))
  unfolding event_solver
  to_transaction-event_solver reads t false r f kept e holds =
      let events = t.result.tx_result.response_base.events in
      let native : native_format (map native_event events) ≡ r = cc in
      read_native f events (subst (λ x. Holds x f) (sym native) holds)
  to_transaction-event_solver reads t true r f kept e holds =
      let events = t.result.tx_result.response_base.events in
      elim (Bool-cases (leb 2 (length events))) [
        | inr few ↦
            let made : some (native_format (map native_event events)) ≡ some r = rw few at e in
            let native : native_format (map native_event events) ≡ r = cc in
            read_native f events (subst (λ x. Holds x f) (sym native) holds)
        | inl many ↦
            let made : compressed encoding (serialize_event encoding events) ≡ some r =
              rw many at e in
            let (b, bytes, read) = decoded_compressed reads events r (kept refl) made in
            read_compressed f (map read_event events) b read (subst (λ x. Holds x f) bytes holds)
      ]
