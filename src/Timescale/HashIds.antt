-- ===== src/Timescale/HashIds.antt =====
-- pkgs/database/timescaledb/insert.go: the ids that the insert of hashes gives back.
use spectra_gnoland_indexer.Common.{
  ℕ, ◌<◌, String, ◌≡◌, refl, ap, ◌∙◌, true, false, Option, none, some, List, [], ◌∷◌, length, GoMap,
  lookup, put, lookup-put, or_else, or_else_later, or_else-none, Bool-ext, same_text_iff, str_eq,
  eq_iff, same_text, text_comparable, string_comparable, if◌then◌else◌, ◌==◌, arith,
}
use spectra_gnoland_indexer.Timescale.Inserts.{
  TxIdRows, HashTexts, decode_hashes, scan_ids, insert_tx_hash_ids,
}

-- the id of the last row with the hash
abbrev pub last_id : List ℕ → List (List ℕ × ℕ) → Option ℕ
last_id hash [] = none
last_id hash ((tx_hash, tx_id) ∷ rows) =
    or_else (last_id hash rows) (if same_text tx_hash hash then some tx_id else none)

abbrev pub all_some : List (List ℕ × ℕ) → List (Option (List ℕ × ℕ))
all_some [] = []
all_some (row ∷ rows) = some row ∷ all_some rows

module _ (base64 : HashTexts) where
  -- Two byte strings have one base64 text only if they are equal.
  abbrev pub IsInjective : Type 0
  IsInjective = (a b : List ℕ) → base64.encode_to_string a ≡ base64.encode_to_string b → a ≡ b

  same_hash :
      IsInjective
      → (a b : List ℕ)
      → str_eq (base64.encode_to_string a) (base64.encode_to_string b) ≡ same_text a b
  same_hash inj a b =
      Bool-ext _ _
        (λ e.
          (same_text_iff a b).1
            (inj a b ((eq_iff (base64.encode_to_string a) (base64.encode_to_string b)).0 e)))
        (λ e.
          (eq_iff (base64.encode_to_string a) (base64.encode_to_string b)).1
            (ap base64.encode_to_string ((same_text_iff a b).0 e)))

  scan_ids-last_id :
      IsInjective
      → (rows : List (List ℕ × ℕ)) (ids : GoMap String ℕ)
      → (m : GoMap String ℕ) × (scan_ids base64 (all_some rows) ids ≡ some m)
        × ((hash : List ℕ)
            → lookup (base64.encode_to_string hash) m
              ≡ or_else (last_id hash rows) (lookup (base64.encode_to_string hash) ids))
  unfolding scan_ids
  scan_ids-last_id inj [] ids = (ids, refl, λ hash. refl)
  scan_ids-last_id inj ((tx_hash, tx_id) ∷ rows) ids =
      let (m, e, at) =
        scan_ids-last_id inj rows (put (base64.encode_to_string tx_hash) tx_id ids) in
      (
        m,
        e,
        λ hash.
            at hash
            ∙ ap (or_else (last_id hash rows)) (
                lookup-put (base64.encode_to_string tx_hash) (base64.encode_to_string hash) tx_id
                  ids
                ∙ ap (λ b. if b then some tx_id else lookup (base64.encode_to_string hash) ids)
                    (same_hash inj tx_hash hash))
            ∙ or_else_later (last_id hash rows) (lookup (base64.encode_to_string hash) ids)
                (same_text tx_hash hash) tx_id,
      )

  module _ {World : Type 0}
      (query : List (List ℕ) → List ℕ → String → World → Option TxIdRows × World) where
    -- If there are as many timestamps as hashes, and at least one, the hashes are base64, and the
    -- database answers with rows that can all be read, InsertTxHashIds succeeds, and its map
    -- gives for the base64 text of any hash the id of the last row of that hash.
    pub insert_tx_hash_ids-last_id :
        IsInjective
        → (tx_hashes : List String) (timestamps : List ℕ) (chain_name : String)
          (bytes : List (List ℕ)) (rows : List (List ℕ × ℕ)) (w after : World)
        → 0 < length tx_hashes
        → length tx_hashes ≡ length timestamps
        → decode_hashes base64 tx_hashes ≡ some bytes
        → query bytes timestamps chain_name w
          ≡ (some (record { rows = all_some rows; complete = true }), after)
        → (m : GoMap String ℕ) × (insert_tx_hash_ids base64 query tx_hashes timestamps chain_name w
            ≡ (some m, after))
          × ((hash : List ℕ) → lookup (base64.encode_to_string hash) m ≡ last_id hash rows)
    unfolding insert_tx_hash_ids
    insert_tx_hash_ids-last_id inj tx_hashes timestamps chain_name bytes rows w after h same decoded
          answer =
        let (m, e, at) = scan_ids-last_id inj rows [] in
        let no_hashes : (length tx_hashes == 0) ≡ false = ground arith in
        let no_times : (length timestamps == 0) ≡ false = ground arith in
        let as_many : (length tx_hashes == length timestamps) ≡ true = ground arith in
        (
          m,
          rw (no_hashes, no_times, as_many, decoded, answer, e),
          λ hash. at hash ∙ unfold lookup in or_else-none (last_id hash rows),
        )
