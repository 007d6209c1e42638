-- ===== src/Decoder/Supported.antt =====
-- indexer/decoder: decoding refuses what the conversion could not convert.

use spectra_gnoland_indexer.Common.{
  ℕ, suc, ◌+◌, ◌≤◌, ◌<◌, String, ◌≡◌, subst, ap, inl, inr, true, Option, none, some, List, [], ◌∷◌,
  map, length, ok, err, ltb, leb, if◌then◌else◌, arith, Bool-cases, Option-cases,
}
use spectra_gnoland_indexer.Decoder.{StdMsg, DecodedMsg, Strings}
use spectra_gnoland_indexer.Decoder.Registry.{type_name}
use spectra_gnoland_indexer.Decoder.Product.{
  DbMessages, too_many_messages, add_rows, convert_from, convert_to_db_messages,
}
use spectra_gnoland_indexer.Decoder.Converts.{AreRegistered, all_rows, convert_to_db_messages-rows}
use spectra_gnoland_indexer.Decoder.Decoding.{
  Amino, StdTx, all_supported, checked, decode_std_tx_from_base64, get_message_from_std_tx,
  as_decoded, new_decoded_msg,
}

supported-AreRegistered : (msgs : List StdMsg) → all_supported msgs ≡ true → AreRegistered msgs
unfolding all_supported
supported-AreRegistered [] h = tt
supported-AreRegistered (m ∷ msgs) h = elim (Option-cases (type_name m)) [
  | inl e ↦ let no = rw e at h in cc
  | inr (t, e) ↦ let rest = rw e at h in ((t, e), supported-AreRegistered msgs rest)
]

abbrev msgs_of : Option DecodedMsg → List StdMsg
msgs_of none = []
msgs_of (some dm) = dm.msgs

checked-AreRegistered :
    (amino : Amino) (tx : Option StdTx) (bytes : Option (List ℕ)) (dm : DecodedMsg)
    → as_decoded (checked amino tx bytes) ≡ some dm
    → AreRegistered dm.msgs
checked-AreRegistered amino none bytes dm e = cc
checked-AreRegistered amino (some tx) none dm e = cc
checked-AreRegistered amino (some tx) (some bz) dm e = elim (Bool-cases (all_supported tx.msgs)) [
  | inr unsupported ↦ let never = rw unsupported at e in cc
  | inl supported ↦
      let made = rw supported at e in
      subst AreRegistered (ap msgs_of made) (supported-AreRegistered tx.msgs supported)
]

pub new_decoded_msg-AreRegistered :
    (amino : Amino) (encoded_tx : String) (dm : DecodedMsg)
    → new_decoded_msg amino encoded_tx ≡ some dm
    → AreRegistered dm.msgs
unfolding new_decoded_msg get_message_from_std_tx
new_decoded_msg-AreRegistered amino encoded_tx dm e =
    checked-AreRegistered amino (decode_std_tx_from_base64 amino encoded_tx)
      (amino.decode_string encoded_tx) dm e

module _ (strings : Strings) (resolver : String → ℕ) (tx_id : ℕ) (chain_name : String)
    (timestamp : ℕ) where
  convert_from_too_many :
      (signer_ids : List ℕ) (ms : List StdMsg) (i : ℕ) (out : DbMessages)
      → AreRegistered ms
      → i ≤ 32768
      → 32768 < i + length ms
      → convert_from strings resolver tx_id chain_name timestamp signer_ids i ms out
        ≡ err (too_many_messages 32768)
  unfolding convert_from
  convert_from_too_many signer_ids [] i out r low high = absurd (omega arith)
  convert_from_too_many signer_ids (m ∷ ms) i out ((t, e), r) low high =
      elim (Bool-cases (ltb 32767 i)) [
        | inl last ↦ let here : i ≡ 32768 = ground arith in rw (last, here)
        | inr before ↦
            rw (before, e)
              (convert_from_too_many signer_ids ms (suc i) _ r (ground arith) (omega arith))
      ]

  -- Of a transaction that NewDecodedMsg decodes, the conversion never meets a message without a
  -- codec: it gives the rows of all messages in order, each with its number, if there are at most
  -- 32768, and fails at message 32768 if there are more.
  pub convert_to_db_messages-decoded :
      (amino : Amino) (encoded_tx : String) (dm : DecodedMsg) (signers : List String)
      → new_decoded_msg amino encoded_tx ≡ some dm
      → convert_to_db_messages strings resolver tx_id chain_name timestamp dm signers ≡ (
          if leb (length dm.msgs) 32768
          then ok (
              add_rows
                (all_rows strings resolver tx_id chain_name timestamp
                  (map resolver signers)
                  0
                  dm.msgs)
                chain_name
                timestamp
                [])
          else err (too_many_messages 32768))
  convert_to_db_messages-decoded amino encoded_tx dm signers e =
      let registered = new_decoded_msg-AreRegistered amino encoded_tx dm e in
      elim (Bool-cases (leb (length dm.msgs) 32768)) [
        | inl few ↦ rw few (
            convert_to_db_messages-rows strings resolver tx_id chain_name timestamp dm signers
              registered (ground arith))
        | inr many ↦ rw many (
            unfold convert_to_db_messages in
            convert_from_too_many (map resolver signers) dm.msgs 0 [] registered (omega arith)
              (ground arith))
      ]
