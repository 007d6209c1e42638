-- ===== src/Decoder/Decoding.antt =====
-- indexer/decoder/decoder.go: a transaction is decoded from base64 and amino, and refused if one
-- of its messages has no codec. Base64, amino and SHA-256 are parameters; a signer is the text
-- that the library makes of its address.
use spectra_gnoland_indexer.Common.{
  ℕ, String, Bool, true, false, Option, none, some, List, [], ◌∷◌, length, if◌then◌else◌,
}
use spectra_gnoland_indexer.Decoder.{Coin, StdMsg, BasicTxData, DecodedMsg}
use spectra_gnoland_indexer.Decoder.Registry.{type_name}

pub record StdTx : Type 0 where
  pub msgs : List StdMsg
  pub gas_fee : Coin
  pub signers : List String
  pub memo : String

pub record Amino : Type 0 where
  pub decode_string : String → Option (List ℕ)
  pub unmarshal : List ℕ → Option StdTx
  pub sum256 : List ℕ → List ℕ

abbrev has_codec : Option String → Bool
has_codec none = false
has_codec (some t) = true

-- the loop that fails at the first message without a codec
unfoldable pub all_supported : List StdMsg → Bool
all_supported [] = true
all_supported (m ∷ msgs) =
    let rest = all_supported msgs in if has_codec (type_name m) then rest else false

abbrev pub as_decoded : Option (BasicTxData × List StdMsg) → Option DecodedMsg
as_decoded none = none
as_decoded (some (basic_data, msgs)) = some (record { basic_data = basic_data; msgs = msgs })

module _ (amino : Amino) where
  open amino use {decode_string, unmarshal, sum256}

  abbrev pub unmarshalled : Option (List ℕ) → Option StdTx
  unmarshalled none = none
  unmarshalled (some bz) = unmarshal bz

  unfoldable pub decode_std_tx_from_base64 : String → Option StdTx
  decode_std_tx_from_base64 encoded_tx = unmarshalled (decode_string encoded_tx)

  abbrev basic_tx_data : StdTx → List ℕ → BasicTxData
  basic_tx_data tx bz = record {
    tx_hash = sum256 bz;
    signers = tx.signers;
    memo = tx.memo;
    fee = record { amount = tx.gas_fee.amount; denom = tx.gas_fee.denom };
    total_msg_count = length tx.msgs;
  }

  -- the transaction, and the bytes of its text, which are decoded once more
  abbrev pub checked : Option StdTx → Option (List ℕ) → Option (BasicTxData × List StdMsg)
  checked none bytes = none
  checked (some tx) none = none
  checked (some tx) (some bz) =
      if all_supported tx.msgs then some (basic_tx_data tx bz, tx.msgs) else none

  -- `none` for an error
  unfoldable pub get_message_from_std_tx : String → Option (BasicTxData × List StdMsg)
  get_message_from_std_tx encoded_tx =
      checked (decode_std_tx_from_base64 encoded_tx) (decode_string encoded_tx)

  -- `none` for the log of level fatal, which ends the program
  unfoldable pub new_decoded_msg : String → Option DecodedMsg
  new_decoded_msg encoded_tx = as_decoded (get_message_from_std_tx encoded_tx)
