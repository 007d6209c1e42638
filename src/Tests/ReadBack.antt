-- ===== src/Tests/ReadBack.antt =====
-- Events that are written and read again. A float is kept as its text, and the bytes are the
-- events.
use spectra_gnoland_indexer.Common.{
  String, ◌≡◌, refl, true, false, none, some, List, [], ◌∷◌, map, ok, pos, parse_int, parse_digits,
  arith, format_int, text_of, format_uint, format_digits,
}
use spectra_gnoland_indexer.EventAttributes.{parse_bool, new_attribute_from_string}
use spectra_gnoland_indexer.Rpc.{RpcEvent, EventAttribute, TxResponse}
use spectra_gnoland_indexer.DataProcessor.Events.{
  Encoding, ProtoEvent, compressed_format, event_solver, serialize_event,
}
use spectra_gnoland_indexer.Timescale.Events.{
  Decoding, FullTxData, to_transaction, decode_events, with_events,
}
use spectra_gnoland_indexer.Timescale.ReadBack.{
  Reads, is_bool, is_int, is_float, is_text, EventsKept, Holds, as_read, read_event,
  to_transaction-event_solver,
}
use spectra_gnoland_indexer.Tests.Orchestration.{tx}
use spectra_gnoland_indexer.Tests.Attributes.{parse_float}

abbrev Blob : Type 0
Blob = List (ProtoEvent String)

abbrev encoding : Encoding Blob String
encoding = record { parse_float = parse_float; marshal = λ es. some es; encode_all = λ b. b }

abbrev decoding : Decoding String Blob
decoding = record {
  is_empty = λ b. false;
  decode_all = λ b. some b;
  unmarshal = λ es. some (map as_read es);
  format_float = λ s. s;
}

decoding-Reads : Reads encoding decoding
decoding-Reads = record {
  unmarshal-marshal = λ events raw e. cc;
  decode_all-encode_all = λ raw. refl;
  encode_all_nonempty = λ raw. refl;
}

abbrev attribute : String → EventAttribute
attribute v = record { key = "k"; value = v }

abbrev event : List EventAttribute → RpcEvent
event attrs = record {
  at_type = "/tm.GnoEvent";
  type = "Transfer";
  attrs = attrs;
  pkg_path = "gno.land/r/x";
}

abbrev events : List RpcEvent
events =
    event (attribute "true" ∷ attribute "42" ∷ attribute "1.5" ∷ attribute "g1abc" ∷ [])
    ∷ event []
    ∷ []

abbrev with_two_events : TxResponse
with_two_events = record (tx "h") {
  result = record (tx "h").result {
    tx_result = record (tx "h").result.tx_result {
      response_base = record { error = none; events = events; log = [] };
    };
  };
}

two_events-EventsKept : EventsKept encoding decoding events
unfolding parse_bool parse_int parse_digits format_int text_of format_uint format_digits
two_events-EventsKept = (
  (
    is_bool true refl,
    (
      is_int (pos 42) (omega arith) refl,
      (is_float "1.5" refl refl refl refl, (is_text refl refl refl, tt)),
    ),
  ),
  (tt, tt),
)

-- the row that was scanned
abbrev row : FullTxData Blob
row = record {
  tx_hash = [];
  timestamp = 5;
  block_height = 7;
  tx_events = [];
  tx_events_compressed =
      map
        (λ e. record {
          at_type = e.at_type;
          type = e.type;
          attributes = map (λ a. new_attribute_from_string parse_float a.key a.value) e.attrs;
          pkg_path = some e.pkg_path;
        })
        events;
  compression_on = true;
  gas_used = 9;
  gas_wanted = 10;
  fee = record { amount = "1"; denom = "ugnot" };
  msg_types = [];
  success = true;
  error_log = none;
}

row-Holds : Holds encoding decoding (compressed_format row.tx_events_compressed) row
row-Holds = record { native = λ es e. cc; compressed_data = λ b e. cc; compression = refl }

to_transaction-event_solver_example :
    to_transaction (decode_events decoding) row ≡ ok (with_events row (map read_event events))
unfolding event_solver serialize_event
to_transaction-event_solver_example =
    to_transaction-event_solver encoding decoding decoding-Reads with_two_events true
      (compressed_format row.tx_events_compressed) row (λ e. two_events-EventsKept) refl row-Holds
