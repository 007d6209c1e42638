-- ===== src/ApiLimit/Windows.antt =====
-- The requests that api/ratelimit/ratelimit.go lets pass in one window.

use spectra_gnoland_indexer.Common.{
  same_text, same_text→eq, ℕ, suc, ◌+◌, ◌≡◌, refl, ap, ◌∙◌, sym, subst, Bool, true, false, Option,
  none, some, List, [], ◌∷◌, ◌++◌, ltb, codes, if◌then◌else◌, min, arith, Bool-cases, inl, inr,
}
use spectra_gnoland_indexer.ApiLimit.{
  Request, NetWork, RateLimiter, Reply, passed, unauthorized, too_many, is_limited, subject,
  middleware, limited,
}

-- a request that used up quota of an identifier and passed
abbrev quota_of : List ℕ → Reply → Option (List ℕ × ℕ) → ℕ
quota_of k (passed none) s = 0
quota_of k (passed (some headers)) none = 0
quota_of k (passed (some headers)) (some (identifier, limit)) =
    if same_text identifier k then 1 else 0
quota_of k unauthorized s = 0
quota_of k (too_many limit remaining window) s = 0

module _ {net : NetWork} {World : Type 0} (rl : RateLimiter net World) where
  -- INCR counts the calls for each key, and EXPIRE changes no count within the window.
  pub record IsCounter (count : World → List ℕ → ℕ) : Type 0 where
    pub incremented :
        (key : List ℕ) (w : World)
        → (after : World) × (rl.increment key w ≡ (some (suc (count w key)), after))
          × ((j : List ℕ)
              → count after j ≡ (if same_text key j then suc (count w key) else count w j))
    pub kept :
        (key j : List ℕ) (window : ℕ) (w : World)
        → count (rl.expire_nx key window w).1 j ≡ count w j

  -- the requests of an identifier that pass, one after the other
  unfoldable pub passes : List ℕ → List Request → World → ℕ
  passes k [] w = 0
  passes k (r ∷ rs) w =
      let (reply, after) = middleware rl r w in quota_of k reply (subject rl r) + passes k rs after

  -- the requests that count for an identifier
  abbrev asks_as : List ℕ → Option (List ℕ × ℕ) → ℕ
  asks_as k none = 0
  asks_as k (some (identifier, limit)) = if same_text identifier k then 1 else 0

  abbrev pub asks : List ℕ → Request → ℕ
  asks k r = if is_limited r.path rl.rate_paths then asks_as k (subject rl r) else 0

  abbrev pub asked : List ℕ → List Request → ℕ
  asked k [] = 0
  asked k (r ∷ rs) = asks k r + asked k rs

  -- the requests of an identifier all have one limit
  abbrev pub AllLimited : List ℕ → ℕ → List Request → Type 0
  AllLimited k limit [] = Unit
  AllLimited k limit (r ∷ rs) =
      ((l : ℕ) → subject rl r ≡ some (k, l) → l ≡ limit) × AllLimited k limit rs

  module _ (count : World → List ℕ → ℕ) (laws : IsCounter count) (k : List ℕ) (limit : ℕ) where
    abbrev quota_key : List ℕ
    quota_key = codes "rl:" ++ k

    -- what one request takes of the quota
    abbrev Takes : Reply × World → Option (List ℕ × ℕ) → ℕ → World → Type 0
    Takes (reply, after) s asking w =
        (quota_of k reply s + min limit (count w quota_key) ≡ min limit (count after quota_key))
        × (count after quota_key ≡ count w quota_key + asking)

    -- the arithmetic of one request, whose count was `c`, and the count of the identifier before
    -- and after it
    taken :
        (same refused : Bool) (l c before after : ℕ)
        → (same ≡ true → l ≡ limit)
        → (same ≡ true → c ≡ before)
        → after ≡ (if same then suc c else before)
        → refused ≡ ltb l (suc c)
        → (if refused then 0 else if same then 1 else 0) + min limit before ≡ min limit after
    taken true true l c before after h e a r =
        let same_limit = h refl in let same_count = e refl in ground arith
    taken true false l c before after h e a r =
        let same_limit = h refl in let same_count = e refl in ground arith
    taken false true l c before after h e a r = ground arith
    taken false false l c before after h e a r = ground arith

    counted-Takes :
        (identifier : List ℕ) (l : ℕ) (w : World)
        → (same_text identifier k ≡ true → l ≡ limit)
        → Takes
            (limited rl (some (identifier, l)) w)
            (some (identifier, l))
            (asks_as k (some (identifier, l)))
            w
    counted-Takes identifier l w h =
        let key = codes "rl:" ++ identifier in
        let c = count w key in
        let (after, inc, counts) = laws.incremented key w in
        let final = (rl.expire_nx key rl.window after).1 in
        let now = laws.kept key quota_key rl.window after ∙ counts quota_key in
        let equal : same_text identifier k ≡ true → c ≡ count w quota_key =
          λ e. ap (λ i. count w (codes "rl:" ++ i)) (same_text→eq identifier k e) in
        let sum = λ (refused : Bool) (e : refused ≡ ltb l (suc c)).
          taken (same_text identifier k) refused l c (count w quota_key) (count final quota_key) h
            equal now e in
        let more : count final quota_key
            ≡ count w quota_key + (if same_text identifier k then 1 else 0) =
          ground (arith, now, equal) in
        rw inc (elim (Bool-cases (ltb l (suc c))) [
          | inl e ↦ rw e (sum true (sym e), more)
          | inr e ↦ rw e (sum false (sym e), more)
        ])

    limited-Takes :
        (s : Option (List ℕ × ℕ)) (w : World)
        → ((l : ℕ) → s ≡ some (k, l) → l ≡ limit)
        → Takes (limited rl s w) s (asks_as k s) w
    limited-Takes none w h = (omega arith, omega arith)
    limited-Takes (some (identifier, l)) w h =
        counted-Takes identifier l w
          (λ e. h l (ap (λ i. some (i, l)) (same_text→eq identifier k e)))

    middleware-Takes :
        (r : Request) (w : World)
        → ((l : ℕ) → subject rl r ≡ some (k, l) → l ≡ limit)
        → Takes (middleware rl r w) (subject rl r) (asks k r) w
    unfolding middleware
    middleware-Takes r w h = elim (Bool-cases (is_limited r.path rl.rate_paths)) [
      | inl p ↦ rw p (limited-Takes (subject rl r) w h)
      | inr p ↦ rw p (omega arith, omega arith)
    ]

    passes_quota :
        (rs : List Request) (w : World)
        → AllLimited k limit rs
        → passes k rs w + min limit (count w quota_key) ≡ min limit (count w quota_key + asked k rs)
    unfolding passes
    passes_quota [] w h = omega arith
    passes_quota (r ∷ rs) w (h, hs) =
        let (one, more) = middleware-Takes r w h in
        let rest = passes_quota rs (middleware rl r w).1 hs in omega (arith, one, more, rest)

    -- If the counters count, the requests of an identifier all have one limit and nothing has been
    -- counted for it in the window, then of the requests of the identifier to a limited path as
    -- many pass as the limit allows: all of them, or the limit if there are more, whatever
    -- requests come between them.
    pub passes-limit :
        (rs : List Request) (w : World)
        → AllLimited k limit rs
        → count w (codes "rl:" ++ k) ≡ 0
        → passes k rs w ≡ min limit (asked k rs)
    passes-limit rs w h zero_count =
        let all = passes_quota rs w h in
        omega (
          arith,
          subst (λ n. passes k rs w + min limit n ≡ min limit (n + asked k rs)) zero_count all,
        )
