-- ===== src/Retry/Sleeps.antt =====
-- How long the retry wrapper sleeps, and what its loop leaves behind from any attempt on.
use spectra_gnoland_indexer.Common.{
  ℕ, zero, suc, ◌+◌, ◌-◌, ◌*◌, ◌/◌, ◌%◌, ◌≤◌, ◌<◌, ◌≡◌, refl, ap, true, false, Option, none, some,
  List, [], ◌∷◌, ◌++◌, ◌==◌, if◌then◌else◌, Bool-cases, inl, inr, done, Result, ok, err, arith,
  dec_lt,
}
use native.Mathlib.Nat.{zero-div}
use native.Mathlib.Numerals.{add-one}
use spectra_gnoland_indexer.Retry.{Run, sleeps_after, add_sleeps, attempts}

abbrev pub sum : List ℕ → ℕ
sum [] = 0
sum (x ∷ xs) = x + sum xs

-- 1 + 2 + ... + n
abbrev triangle : ℕ → ℕ
triangle zero = 0
triangle (suc n) = suc n + triangle n

sum-append : (xs ys : List ℕ) → sum (xs ++ ys) ≡ sum xs + sum ys
sum-append [] ys = omega arith
sum-append (x ∷ xs) ys = omega (arith, sum-append xs ys)

-- the number of multiples of `p` up to `n` grows at each of them
div-suc : (n p : ℕ) → 0 < p → (n + 1) / p ≡ n / p + (if (n + 1) % p == 0 then 1 else 0)
div-suc n p h = grind arith

abbrev pub Fails {ℓ κ} : {E : Type κ} {T : Type ℓ} → Result E T → Type (ℓ ⊔ κ)
Fails {E} r = (e : E) × (r ≡ err e)

-- how long a run has slept when `n` attempts have failed and each was followed by its sleeps
abbrev pub slept : ℕ → ℕ → ℕ → ℕ → ℕ
slept pause pause_time exponential_backoff n =
    exponential_backoff * triangle n + pause_time * (n / pause)

triangle-suc : (n : ℕ) → triangle (n + 1) ≡ n + 1 + triangle n
triangle-suc n = rw add-one (omega arith)

slept-suc :
    (p pt b n : ℕ)
    → 0 < p
    → slept p pt b (n + 1) ≡ slept p pt b n + b * (n + 1) + (if (n + 1) % p == 0 then pt else 0)
slept-suc p pt b n h = elim (Bool-cases ((n + 1) % p == 0)) [
  | inl e ↦
      let d : (n + 1) / p ≡ n / p + 1 = ground (arith, div-suc n p h) in
      rw (e, triangle-suc) (omega (arith, ap (λ (t : ℕ). pt * t) d))
  | inr e ↦
      let d : (n + 1) / p ≡ n / p = ground (arith, div-suc n p h) in
      rw (e, triangle-suc) (omega (arith, ap (λ (t : ℕ). pt * t) d))
]

pub slept-zero : (p pt b : ℕ) → slept p pt b 0 ≡ 0
slept-zero p pt b = rw zero-div (omega arith)

module _ (n p pt b : ℕ) (pos : 0 < p) where
  sleeps_after_lem :
      (i : ℕ)
      → i + 1 < n
      → (s : List ℕ) × (sleeps_after n p pt b i ≡ done s)
        × (slept p pt b i + sum s ≡ slept p pt b (i + 1))
  unfolding sleeps_after
  sleeps_after_lem i h = (
    b * (i + 1) ∷ (if (i + 1) % p == 0 then pt ∷ [] else []),
    ground arith,
    ground (arith, slept-suc p pt b i pos),
  )

  sleeps_after_last : (i : ℕ) → i + 1 ≡ n → sleeps_after n p pt b i ≡ done []
  unfolding sleeps_after
  sleeps_after_last i h = ground arith

  module _ {ℓ κ} {E : Type κ} {T : Type ℓ} (zv : T) (fn : ℕ → Result E T) where
    attempts_err :
        (left i : ℕ) (last : Option E) (x : E) (sl : List ℕ) (r : Run E T)
        → fn i ≡ err x
        → sleeps_after n p pt b i ≡ done sl
        → attempts zv n p pt b fn left (i + 1) (some x) ≡ done r
        → attempts zv n p pt b fn (suc left) i last ≡ done (add_sleeps sl r)
    unfolding attempts
    attempts_err left i last x sl r failed now rest = rw (failed, attempts) (rw (now, rest))

    attempts_ok :
        (left i : ℕ) (last : Option E) (v : T)
        → fn i ≡ ok v
        → attempts zv n p pt b fn (suc left) i last
          ≡ done (record {
            result = record { value = v; error = none; success = true };
            sleeps = [];
            calls = i + 1;
          })
    unfolding attempts
    attempts_ok left i last v s = rw (s, attempts)

    -- the run from attempt `i`, when attempt `j` is the first to succeed
    pub attempts_success :
        (left i j : ℕ) (last : Option E) (v : T)
        → i + left ≡ n
        → i ≤ j
        → j < n
        → ((k : ℕ) → k < j → Fails (fn k))
        → fn j ≡ ok v
        → (r : Run E T) × (attempts zv n p pt b fn left i last ≡ done r)
          × (r.result ≡ record { value = v; error = none; success = true })
          × (r.calls ≡ j + 1)
          × (slept p pt b i + sum r.sleeps ≡ slept p pt b j)
    unfolding attempts
    attempts_success zero i j last v e le lt f s = absurd (omega arith)
    attempts_success (suc left) i j last v e le lt f s = elim (dec_lt i j) [
      | yes q ↦
          let (x, failed) = f i q in
          let (sl, now, total) = sleeps_after_lem i (omega arith) in
          let (r, rest, res, cs, ss) =
            attempts_success left (i + 1) j (some x) v (omega arith) (omega arith) lt f s in
          (
            add_sleeps sl r,
            attempts_err left i last x sl r failed now rest,
            res,
            cs,
            omega (arith, sum-append sl r.sleeps),
          )
      | no q ↦
          let here : i ≡ j = omega arith in
          (
            record {
              result = record { value = v; error = none; success = true };
              sleeps = [];
              calls = i + 1;
            },
            attempts_ok left i last v (rw here s),
            refl,
            omega arith,
            rw here (omega arith),
          )
    ]

    -- the run from attempt `i`, when every attempt fails
    pub attempts_failure :
        (left i : ℕ) (last : Option E)
        → i + left ≡ n
        → ((k : ℕ) → k < n → Fails (fn k))
        → (r : Run E T) × (attempts zv n p pt b fn left i last ≡ done r)
          × (r.result.success ≡ false)
          × (r.result.value ≡ zv)
          × (r.calls ≡ n)
          × (0 < left → (x : E) × (fn (n - 1) ≡ err x) × (r.result.error ≡ some x))
          × (0 < left → slept p pt b i + sum r.sleeps ≡ slept p pt b (n - 1))
    unfolding attempts
    attempts_failure zero i last e f = (
      record {
        result = record { value = zv; error = last; success = false };
        sleeps = [];
        calls = i;
      },
      refl,
      refl,
      refl,
      omega arith,
      (λ h. elim h [ ]),
      (λ h. elim h [ ]),
    )
    attempts_failure (suc zero) i last e f =
        let (x, failed) = f i (omega arith) in
        let now = sleeps_after_last i (omega arith) in
        let at : i ≡ n - 1 = omega arith in
        (
          record {
            result = record { value = zv; error = some x; success = false };
            sleeps = [];
            calls = i + 1;
          },
          attempts_err zero i last x [] _ failed now refl,
          refl,
          refl,
          omega arith,
          (λ h. (x, rw (← at) failed, refl)),
          (λ h. rw (← at) (omega arith)),
        )
    attempts_failure (suc (suc left)) i last e f =
        let (x, failed) = f i (omega arith) in
        let (sl, now, total) = sleeps_after_lem i (omega arith) in
        let (r, rest, res, val, cs, er, ss) =
          attempts_failure (suc left) (i + 1) (some x) (omega arith) f in
        (
          add_sleeps sl r,
          attempts_err (suc left) i last x sl r failed now rest,
          res,
          val,
          cs,
          (λ h. er (omega arith)),
          (λ h. omega (arith, sum-append sl r.sleeps, ss (omega arith))),
        )
