-- ===== src/DataProcessor/Aborts.antt =====
-- What `ProcessMessages` inserts, and when it inserts nothing.

use spectra_gnoland_indexer.Common.{
  ℕ, ◌<◌, leb, lookup, subst, panicked, Outcome, ◌⊎◌, Option-cases, none, String, ◌≡◌, refl, sym,
  ◌∙◌, Bool, false, ◌||◌, some, List, [], ◌∷◌, map, length, done, GoMap, string_comparable,
  nat_comparable, ltb, arith, if◌then◌else◌, Bool-cases, inl, inr,
}
use spectra_gnoland_indexer.Swarm.{Covers}
use spectra_gnoland_indexer.Swarm.Schedules.{fan_out-map}
use spectra_gnoland_indexer.Schema.{get_address_list}
use spectra_gnoland_indexer.Orchestrator.{TransactionsData}
use spectra_gnoland_indexer.Decoder.{DecodedMsg, Strings}
use spectra_gnoland_indexer.Decoder.Product.{AddressEntry, ConvertError, too_many_messages}
use spectra_gnoland_indexer.Decoder.Decoding.{Amino, new_decoded_msg}
use spectra_gnoland_indexer.Decoder.Supported.{convert_to_db_messages-decoded}
use spectra_gnoland_indexer.Rpc.Tx
use spectra_gnoland_indexer.DataProcessor.Messages.{
  AddressTx, MessageServices, failed_to_convert, GroupResult, nothing, conversion_errors, paired,
  same_key, transaction_decoding, all_addresses, process_message_group, insert_results,
  process_messages,
}

abbrev pub has_key : AddressTx → List AddressTx → Bool
has_key k [] = false
has_key k (a ∷ rows) = same_key a k || has_key k rows

-- no key twice
abbrev pub IsDistinct : List AddressTx → Type 0
IsDistinct [] = Unit
IsDistinct (a ∷ rows) = (has_key a rows ≡ false) × IsDistinct rows

-- the key is one of an entry of the messages
abbrev is_listed : AddressTx → List ℕ → ℕ → String → Bool
is_listed k [] tx_id chain_name = false
is_listed k (addr ∷ addrs) tx_id chain_name =
    same_key (record { address = addr; tx_id = tx_id; chain_name = chain_name; timestamp = 0 }) k
    || is_listed k addrs tx_id chain_name

abbrev pub is_mentioned : AddressTx → List AddressEntry → Bool
is_mentioned k [] = false
is_mentioned k (e ∷ es) =
    is_listed k (get_address_list e.addresses) e.addresses.tx_id e.chain_name || is_mentioned k es

Outcome-cases : {A : Type 0} (m : Outcome A) → ((a : A) × (m ≡ done a)) ⊎ (m ≡ panicked)
Outcome-cases (done a) = inl (a, refl)
Outcome-cases panicked = inr refl

module _ (strings : Strings) (services : MessageServices) (chain_name : String) where
  open services use {World, solve_addresses, decode}

  -- the world after the addresses were resolved, the only change before the inserts
  abbrev pub resolved : List DecodedMsg → World → World
  resolved dms w =
      if ltb 0 (length (all_addresses strings services chain_name dms []))
      then solve_addresses (all_addresses strings services chain_name dms []) w
      else w

  process_messages-groups :
      (sched : List ℕ) (txs : List TransactionsData) (dms : List DecodedMsg)
      (tx_hash_cache : GoMap String ℕ) (w : World)
      → transaction_decoding strings services chain_name txs ≡ done dms
      → Covers (length (paired txs dms)) sched
      → let rs =
          map
            (process_message_group strings services chain_name tx_hash_cache (resolved dms w))
            (paired txs dms) in
        process_messages strings services chain_name sched txs tx_hash_cache w
        ≡ insert_results strings services chain_name tx_hash_cache rs
            (conversion_errors rs)
            (resolved dms w)
  unfolding process_messages
  process_messages-groups sched txs dms tx_hash_cache w e c = rw (
    e,
    fan_out-map
        (λ p.
          some (process_message_group strings services chain_name tx_hash_cache (resolved dms w) p))
        nothing (paired txs dms) sched c,
  )

  -- every message was made by the decoder
  abbrev AreDecoded : Amino → List DecodedMsg → Type 0
  AreDecoded amino [] = Unit
  AreDecoded amino (dm ∷ dms) =
      ((s : String) × (new_decoded_msg amino s ≡ some dm)) × AreDecoded amino dms

  -- the error of each transaction that has an id and more messages than an int16 numbers
  abbrev pub too_long : GoMap String ℕ → List (TransactionsData × DecodedMsg) → List ConvertError
  too_long tx_hash_cache [] = []
  too_long tx_hash_cache ((t, dm) ∷ ps) =
      let rest = too_long tx_hash_cache ps in
      elim (lookup t.response.result.hash tx_hash_cache) [
        | none ↦ rest
        | some tx_id ↦ if leb (length dm.msgs) 32768 then rest else too_many_messages 32768 ∷ rest
      ]

  transaction_decoding-AreDecoded :
      (amino : Amino)
      → ((s : String) → decode s ≡ new_decoded_msg amino s)
      → (txs : List TransactionsData) (dms : List DecodedMsg)
      → transaction_decoding strings services chain_name txs ≡ done dms
      → AreDecoded amino dms
  unfolding transaction_decoding
  transaction_decoding-AreDecoded amino same [] dms e =
      let empty : [] ≡ dms = cc in subst (AreDecoded amino) empty tt
  transaction_decoding-AreDecoded amino same (t ∷ txs) dms e =
      elim (Option-cases (decode t.response.result.tx)) [
        | inl d ↦ let never = rw (d, transaction_decoding) at e in cc
        | inr (dm, d) ↦
            elim (Outcome-cases (transaction_decoding strings services chain_name txs)) [
              | inr p ↦ let never = rw (d, transaction_decoding, p) at e in cc
              | inl (ds, p) ↦
                  let made : done (dm ∷ ds) ≡ done dms = rw (d, transaction_decoding, p) at e in
                  let all : dm ∷ ds ≡ dms = cc in
                  subst (AreDecoded amino) all (
                    (t.response.result.tx, sym (same t.response.result.tx) ∙ d),
                    transaction_decoding-AreDecoded amino same txs ds p,
                  )
            ]
      ]

  conversion_errors-too_long :
      (amino : Amino) (tx_hash_cache : GoMap String ℕ) (w : World) (txs : List TransactionsData)
      (dms : List DecodedMsg)
      → AreDecoded amino dms
      → conversion_errors
          (map (process_message_group strings services chain_name tx_hash_cache w) (paired txs dms))
        ≡ too_long tx_hash_cache (paired txs dms)
  unfolding conversion_errors process_message_group Tx.get_hash
  conversion_errors-too_long amino cache w [] dms d = refl
  conversion_errors-too_long amino cache w (t ∷ txs) [] d = refl
  conversion_errors-too_long amino cache w (t ∷ txs) (dm ∷ dms) ((s, made), d) =
      let rest = conversion_errors-too_long amino cache w txs dms d in
      elim (Option-cases (lookup t.response.result.hash cache)) [
        | inl e ↦ rw (e, too_long, rest)
        | inr (id, e) ↦
            let out =
              convert_to_db_messages-decoded strings (services.get_address w) id chain_name
                t.timestamp amino s dm dm.basic_data.signers made in
            elim (Bool-cases (leb (length dm.msgs) 32768)) [
              | inl few ↦ rw (e, too_long, out, few, rest)
              | inr many ↦ rw (e, too_long, out, many, rest)
            ]
      ]

  insert_results_failed :
      (cache : GoMap String ℕ) (rs : List GroupResult) (es : List ConvertError) (w : World)
      → 0 < length es
      → insert_results strings services chain_name cache rs es w
        ≡ done (some (failed_to_convert es), w)
  insert_results_failed cache rs [] w h = absurd (omega arith)
  insert_results_failed cache rs (e ∷ es) w h = refl

  -- If NewDecodedMsg decodes the transactions, all of them can be decoded, and one that has an id
  -- has more than 32768 messages, then ProcessMessages inserts nothing at all, only the addresses
  -- were resolved, and it reports exactly one error for each such transaction.
  pub process_messages_unconvertible :
      (amino : Amino) (sched : List ℕ) (txs : List TransactionsData) (dms : List DecodedMsg)
      (tx_hash_cache : GoMap String ℕ) (w : World)
      → ((s : String) → decode s ≡ new_decoded_msg amino s)
      → transaction_decoding strings services chain_name txs ≡ done dms
      → Covers (length (paired txs dms)) sched
      → 0 < length (too_long tx_hash_cache (paired txs dms))
      → process_messages strings services chain_name sched txs tx_hash_cache w
        ≡ done (some (failed_to_convert (too_long tx_hash_cache (paired txs dms))), resolved dms w)
  process_messages_unconvertible amino sched txs dms tx_hash_cache w same decoded cover fails =
      let rs =
        map (process_message_group strings services chain_name tx_hash_cache (resolved dms w))
          (paired txs dms) in
      let errors =
        conversion_errors-too_long amino tx_hash_cache (resolved dms w) txs dms
          (transaction_decoding-AreDecoded amino same txs dms decoded) in
      process_messages-groups sched txs dms tx_hash_cache w decoded cover
      ∙ rw errors (
          insert_results_failed tx_hash_cache rs (too_long tx_hash_cache (paired txs dms))
            (resolved dms w) fails)
