-- ===== src/ApiKeys/Disabled.antt =====
-- Keys that are disabled (pkgs/database/timescaledb/key_mgmt.go), as the rate limiter sees them
-- after the next reload.
use mathlib.Core.Option
use spectra_gnoland_indexer.Common.{
  ℕ, String, ◌≡◌, refl, sym, ap, ◌∙◌, true, false, not, ◌&&◌, Option, none, some, List, [], ◌∷◌,
  ◌++◌, str_eq, same_text, if◌then◌else◌, or_else, or_else-none, codes, Bool-cases, inl, inr,
}
use spectra_gnoland_indexer.Timescale.Volumes.{all_read}
use spectra_gnoland_indexer.ApiLimit.{NetWork, RateLimiter, Request, subject, hex, first_bytes}
use spectra_gnoland_indexer.ApiKeys.{KeyRows, fixed_bytes, new_key_store, refreshes, with_keys}
use spectra_gnoland_indexer.ApiKeys.Reloads.{
  all_scanned, loaded, last_loaded, limit_in, subject-refreshes,
}
use spectra_gnoland_indexer.ApiKeys.Table.{
  ApiKey, update, has_name, with_active, disable_key_by_name, active_keys, key_rows,
}

-- the limit of the last active row with a hash whose key has another name
abbrev pub limit_without : String → List ℕ → List ApiKey → Option ℕ
limit_without name h [] = none
limit_without name h (k ∷ table) = or_else (limit_without name h table) (
    if k.is_active && not (str_eq k.name name) && same_text (fixed_bytes 32 k.hash) h
    then some k.rpm_limit
    else none)

all_scanned-all_read : (rows : List (List ℕ × ℕ)) → all_scanned (all_read rows) ≡ some rows
all_scanned-all_read [] = refl
all_scanned-all_read (row ∷ rows) = rw (all_scanned-all_read rows) refl

last_loaded-append :
    (rows : List (List ℕ × ℕ)) (answers : List (Option KeyRows)) (answer : Option KeyRows)
    → last_loaded rows (answers ++ answer ∷ [])
      ≡ Option.get_or (loaded answer) (last_loaded rows answers)
last_loaded-append rows [] answer = refl
last_loaded-append rows (a ∷ answers) answer =
    last_loaded-append (Option.get_or (loaded a) rows) answers answer

limit_in-active_keys :
    (name : String) (h : List ℕ) (table : List ApiKey)
    → limit_in h (active_keys (update (has_name name) (with_active false) table))
      ≡ limit_without name h table
limit_in-active_keys name h [] = refl
limit_in-active_keys name h (k ∷ table) =
    let rest = limit_in-active_keys name h table in
    let skipped = or_else-none (limit_without name h table) in
    elim (Bool-cases (str_eq k.name name)) [
      | inl e ↦ elim (Bool-cases k.is_active) [
        | inl a ↦ rw (e, a, rest) (sym skipped)
        | inr a ↦ rw (e, a, rest) (sym skipped)
      ]
      | inr e ↦ elim (Bool-cases k.is_active) [
        | inl a ↦ rw (e, a, rest) refl
        | inr a ↦ rw (e, a, rest) (sym skipped)
      ]
    ]

module _ {net : NetWork} {World : Type 0} (rl : RateLimiter net World) where
  -- Once DisableKeyByName has been carried out and the store has been reloaded from the table,
  -- after whatever reloads before, a request with a key is rejected unless the table has an
  -- active row with the key's hash under another name; the limit is then that of the last such
  -- row.
  pub subject-disable_key_by_name :
      (answers : List (Option KeyRows)) (name : String) (table : List ApiKey) (r : Request) (c : ℕ)
      (key : List ℕ)
      → r.api_key ≡ c ∷ key
      → subject
          (with_keys
            (refreshes new_key_store
              (answers ++ some (key_rows (disable_key_by_name true name table).1) ∷ []))
            rl)
          r
        ≡ Option.map
            (λ limit. (codes "key:" ++ hex (first_bytes 8 (rl.sum256 (c ∷ key))), limit))
            (limit_without name (rl.sum256 (c ∷ key)) table)
  unfolding disable_key_by_name
  subject-disable_key_by_name answers name table r c key e =
      let after = update (has_name name) (with_active false) table in
      let seen : last_loaded [] (answers ++ some (key_rows after) ∷ []) ≡ active_keys after =
        last_loaded-append [] answers (some (key_rows after))
        ∙ rw (all_scanned-all_read (active_keys after)) refl in
      subject-refreshes rl (answers ++ some (key_rows after) ∷ []) r c key e
      ∙ ap
          (λ rows.
            Option.map (λ limit. (codes "key:" ++ hex (first_bytes 8 (rl.sum256 (c ∷ key))), limit))
              (limit_in (rl.sum256 (c ∷ key)) rows))
          seen
      ∙ ap
          (Option.map (λ limit. (codes "key:" ++ hex (first_bytes 8 (rl.sum256 (c ∷ key))), limit)))
          (limit_in-active_keys name (rl.sum256 (c ∷ key)) table)
