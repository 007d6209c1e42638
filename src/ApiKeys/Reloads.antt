-- ===== src/ApiKeys/Reloads.antt =====
-- api/keystore/keystore.go: what the reloads of the keys come to for a request.
use mathlib.Core.Option
use spectra_gnoland_indexer.Common.{
  ℕ, ◌≡◌, ◌∙◌, ap, refl, inl, inr, Option, none, some, List, [], ◌∷◌, ◌++◌, if◌then◌else◌, lookup,
  put, lookup-put, or_else, or_else_later, or_else-none, codes, Bool-cases, Option-cases, same_text,
  text_comparable,
}
use spectra_gnoland_indexer.ApiLimit.{
  NetWork, RateLimiter, Request, subject, subject_of, hex, first_bytes,
}
use spectra_gnoland_indexer.ApiKeys.{
  KeyRows, KeyStore, fixed_bytes, scan_keys, get_all_api_keys_with_limits, get_key_limit, reloaded,
  refresh, refreshes, with_keys, new_key_store,
}

-- the rows of a list in which each could be scanned
abbrev pub all_scanned : List (Option (List ℕ × ℕ)) → Option (List (List ℕ × ℕ))
all_scanned [] = some []
all_scanned (none ∷ rows) = none
all_scanned (some row ∷ rows) = Option.map (λ l. row ∷ l) (all_scanned rows)

-- the rows of an answer, if it has all of them
abbrev pub loaded : Option KeyRows → Option (List (List ℕ × ℕ))
loaded none = none
loaded (some r) = if r.complete then all_scanned r.rows else none

-- the last answer that has all its rows
abbrev pub last_loaded : List (List ℕ × ℕ) → List (Option KeyRows) → List (List ℕ × ℕ)
last_loaded rows [] = rows
last_loaded rows (answer ∷ answers) = last_loaded (Option.get_or (loaded answer) rows) answers

-- the limit of the last row with the hash
abbrev pub limit_in : List ℕ → List (List ℕ × ℕ) → Option ℕ
limit_in h [] = none
limit_in h ((hash, limit) ∷ rows) =
    or_else (limit_in h rows) (if same_text (fixed_bytes 32 hash) h then some limit else none)

abbrev Agrees : KeyStore → List (List ℕ × ℕ) → Type 0
Agrees ks rows = (h : List ℕ) → get_key_limit ks h ≡ limit_in h rows

-- a scan that fails for both, or a map that holds the limits of the rows over those of `keys`
abbrev Scanned :
    List (List ℕ × ℕ) → Option (List (List ℕ × ℕ)) → Option (List (List ℕ × ℕ)) → Type 0
Scanned keys none none = Unit
Scanned keys none (some m) = ⊥
Scanned keys (some l) none = ⊥
Scanned keys (some l) (some m) = (h : List ℕ) → lookup h m ≡ or_else (limit_in h l) (lookup h keys)

Scanned-cons :
    (hash : List ℕ) (limit : ℕ) (keys : List (List ℕ × ℕ)) (l m : Option (List (List ℕ × ℕ)))
    → Scanned (put (fixed_bytes 32 hash) limit keys) l m
    → Scanned keys (Option.map (λ rows. (hash, limit) ∷ rows) l) m
Scanned-cons hash limit keys none none s = tt
Scanned-cons hash limit keys none (some m) s = s
Scanned-cons hash limit keys (some l) none s = s
Scanned-cons hash limit keys (some l) (some m) s = λ h.
    s h
    ∙ ap (or_else (limit_in h l)) (lookup-put (fixed_bytes 32 hash) h limit keys)
    ∙ or_else_later (limit_in h l) (lookup h keys) (same_text (fixed_bytes 32 hash) h) limit

scan_keys-Scanned :
    (rows : List (Option (List ℕ × ℕ))) (keys : List (List ℕ × ℕ))
    → Scanned keys (all_scanned rows) (scan_keys rows keys)
unfolding scan_keys
scan_keys-Scanned [] keys = λ h. refl
scan_keys-Scanned (none ∷ rows) keys = tt
scan_keys-Scanned (some (hash, limit) ∷ rows) keys =
    Scanned-cons hash limit keys _ _ (scan_keys-Scanned rows (put (fixed_bytes 32 hash) limit keys))

Agrees-reloaded :
    (ks : KeyStore) (rows : List (List ℕ × ℕ)) (l m : Option (List (List ℕ × ℕ)))
    → Agrees ks rows
    → Scanned [] l m
    → Agrees (reloaded ks m).1 (Option.get_or l rows)
unfolding get_key_limit lookup
Agrees-reloaded ks rows none none agrees s = agrees
Agrees-reloaded ks rows none (some m) agrees s = elim s [ ]
Agrees-reloaded ks rows (some l) none agrees s = elim s [ ]
Agrees-reloaded ks rows (some l) (some m) agrees s = λ h. s h ∙ or_else-none (limit_in h l)

loaded-Scanned :
    (answer : Option KeyRows) → Scanned [] (loaded answer) (get_all_api_keys_with_limits answer)
unfolding get_all_api_keys_with_limits
loaded-Scanned none = tt
loaded-Scanned (some r) = elim (Bool-cases r.complete) [
  | inl e ↦ rw e (scan_keys-Scanned r.rows [])
  | inr e ↦ rw e tt
]

Agrees-refreshes :
    (answers : List (Option KeyRows)) (ks : KeyStore) (rows : List (List ℕ × ℕ))
    → Agrees ks rows
    → Agrees (refreshes ks answers) (last_loaded rows answers)
unfolding refreshes refresh
Agrees-refreshes [] ks rows agrees = agrees
Agrees-refreshes (answer ∷ answers) ks rows agrees =
    Agrees-refreshes answers _ _ (Agrees-reloaded ks rows _ _ agrees (loaded-Scanned answer))

module _ {net : NetWork} {World : Type 0} (rl : RateLimiter net World) where
  -- with the limit that the store gives, if it knows the key
  abbrev key_subject : List ℕ → Option ℕ → Option (List ℕ × ℕ)
  key_subject key =
      Option.map (λ limit. (codes "key:" ++ hex (first_bytes 8 (rl.sum256 key)), limit))

  subject_of_key :
      (r : Request) (c : ℕ) (key : List ℕ)
      → subject_of rl (c ∷ key) r ≡ key_subject (c ∷ key) (rl.get_key_limit (rl.sum256 (c ∷ key)))
  subject_of_key r c key = elim (Option-cases (rl.get_key_limit (rl.sum256 (c ∷ key)))) [
    | inl e ↦ rw (subject_of, e)
    | inr (limit, e) ↦ rw (subject_of, e)
  ]

module _ {net : NetWork} {World : Type 0} (rl : RateLimiter net World) where
  -- Whatever the answers to the reloads of a new store: a request with a key counts for the first
  -- eight bytes of the key's hash, under the limit of the last row with that hash in the last
  -- answer that was read to its end without an error; if there is no such row, the key is
  -- rejected.
  pub subject-refreshes :
      (answers : List (Option KeyRows)) (r : Request) (c : ℕ) (key : List ℕ)
      → r.api_key ≡ c ∷ key
      → subject (with_keys (refreshes new_key_store answers) rl) r
        ≡ Option.map
            (λ limit. (codes "key:" ++ hex (first_bytes 8 (rl.sum256 (c ∷ key))), limit))
            (limit_in (rl.sum256 (c ∷ key)) (last_loaded [] answers))
  unfolding subject
  subject-refreshes answers r c key h =
      let known =
        Agrees-refreshes answers new_key_store [] (λ k. unfold get_key_limit lookup in refl)
          (rl.sum256 (c ∷ key)) in
      rw h (
        subject_of_key (with_keys (refreshes new_key_store answers) rl) r c key
        ∙ ap (key_subject rl (c ∷ key)) known)
