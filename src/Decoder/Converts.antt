-- ===== src/Decoder/Converts.antt =====
-- Which rows the conversion of a transaction gives.
use mathlib.Core.List.{append_assoc, append-nil, map-append}
use spectra_gnoland_indexer.Common.{
  ℕ, suc, ◌+◌, ◌≤◌, String, ◌≡◌, sym, ap, false, some, List, [], ◌∷◌, ◌++◌, map, length, ok, ltb,
  arith,
}
use spectra_gnoland_indexer.Schema.Rows.{Message}
use spectra_gnoland_indexer.Decoder.{StdMsg, DecodedMsg, Strings}
use spectra_gnoland_indexer.Decoder.Registry.{ConvCtx, type_name, convert}
use spectra_gnoland_indexer.Decoder.Product.{
  DbMessages, add_rows, convert_from, convert_to_db_messages,
}

-- every message has a codec
abbrev pub AreRegistered : List StdMsg → Type 0
AreRegistered [] = Unit
AreRegistered (m ∷ ms) = ((t : String) × (type_name m ≡ some t)) × AreRegistered ms

module _ (strings : Strings) (resolver : String → ℕ) (tx_id : ℕ) (chain_name : String)
    (timestamp : ℕ) where
  abbrev pub ctx : List ℕ → ℕ → ConvCtx
  ctx signer_ids i = record {
    tx_id = tx_id;
    chain_name = chain_name;
    timestamp = timestamp;
    resolver = resolver;
    signer_ids = signer_ids;
    message_counter = i;
  }

  -- the rows of every message from number `i` on, each with its own number
  abbrev pub all_rows : List ℕ → ℕ → List StdMsg → List Message
  all_rows signer_ids i [] = []
  all_rows signer_ids i (m ∷ ms) =
      convert strings m (ctx signer_ids i) ++ all_rows signer_ids (suc i) ms

  convert_from-rows :
      (signer_ids : List ℕ) (ms : List StdMsg) (i : ℕ) (out : DbMessages)
      → AreRegistered ms
      → i + length ms ≤ 32768
      → convert_from strings resolver tx_id chain_name timestamp signer_ids i ms out
        ≡ ok (add_rows (all_rows signer_ids i ms) chain_name timestamp out)
  unfolding convert_from
  convert_from-rows signer_ids [] i out r h = ap ok (sym (append-nil out))
  convert_from-rows signer_ids (m ∷ ms) i out ((t, e), r) h =
      let small : ltb 32767 i ≡ false = ground arith in
      let rest =
        convert_from-rows signer_ids ms (suc i)
          (add_rows (convert strings m (ctx signer_ids i)) chain_name timestamp out) r
          (omega arith) in
      rw (small, e, rest, map-append) (ap ok (append_assoc out _ _))

  -- If every message has a codec and there are at most 32768 of them, the conversion succeeds, and
  -- its rows are those of the messages in order, each with the number of its message, which fits in
  -- the smallint column.
  pub convert_to_db_messages-rows :
      (dm : DecodedMsg) (signers : List String)
      → AreRegistered dm.msgs
      → length dm.msgs ≤ 32768
      → convert_to_db_messages strings resolver tx_id chain_name timestamp dm signers
        ≡ ok (add_rows (all_rows (map resolver signers) 0 dm.msgs) chain_name timestamp [])
  unfolding convert_to_db_messages
  convert_to_db_messages-rows dm signers r h =
      convert_from-rows (map resolver signers) dm.msgs 0 [] r (omega arith)
