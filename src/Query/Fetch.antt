-- ===== src/Query/Fetch.antt =====
-- One goroutine of the query operator, and a fan-out of them.
use spectra_gnoland_indexer.Common.{
  ℕ, zero, suc, ◌<◌, ◌≡◌, refl, ◌⊎◌, inl, inr, Option, none, some, Outcome, done, Result, ok, err,
  arith,
}
use spectra_gnoland_indexer.Retry.{retry_with_context}
use spectra_gnoland_indexer.Retry.Sleeps.{Fails}
use spectra_gnoland_indexer.Retry.Results.{generic_retry_query-success, generic_retry_query-failure}
use spectra_gnoland_indexer.Query.{QueryOperator, as_pointer, fetch}

abbrev or_next {ℓ κ} : {E : Type κ} {T : Type ℓ} → Result E T → Option T → Option T
or_next (ok t) rest = some t
or_next (err _) rest = rest

-- the first of `n` outcomes that is no error
abbrev pub first_success {ℓ κ} : {E : Type κ} {T : Type ℓ} → ℕ → (ℕ → Result E T) → Option T
first_success zero calls = none
first_success (suc n) calls = or_next (calls 0) (first_success n (λ k. calls (suc k)))

module _ {ℓ κ} {E : Type κ} {T : Type ℓ} where
  abbrev FirstAt : ℕ → (ℕ → Result E T) → T → Type (ℓ ⊔ κ)
  FirstAt n calls t = (j : ℕ) × (j < n) × ((k : ℕ) → k < j → Fails (calls k)) × (calls j ≡ ok t)

  abbrev pub Split : ℕ → (ℕ → Result E T) → Option T → Type (ℓ ⊔ κ)
  Split n calls none = (k : ℕ) → k < n → Fails (calls k)
  Split n calls (some t) = FirstAt n calls t

  Result-cases : (r : Result E T) → ((t : T) × (r ≡ ok t)) ⊎ Fails r
  Result-cases (ok t) = inl (t, refl)
  Result-cases (err e) = inr (e, refl)

  Fails-suc :
      (n : ℕ) (calls : ℕ → Result E T)
      → Fails (calls 0)
      → ((k : ℕ) → k < n → Fails (calls (suc k)))
      → (k : ℕ) → k < suc n
      → Fails (calls k)
  Fails-suc n calls z h zero lt = z
  Fails-suc n calls z h (suc k) lt = h k (omega arith)

  Split-suc :
      (n : ℕ) (calls : ℕ → Result E T) (o : Option T)
      → Fails (calls 0)
      → Split n (λ k. calls (suc k)) o
      → Split (suc n) calls o
  Split-suc n calls none z s = Fails-suc n calls z s
  Split-suc n calls (some t) z (j, lt, f, e) = (suc j, omega arith, Fails-suc j calls z f, e)

  first_success_step :
      (n : ℕ) (calls : ℕ → Result E T)
      → ((t : T) × (calls 0 ≡ ok t)) ⊎ Fails (calls 0)
      → Split n (λ k. calls (suc k)) (first_success n (λ k. calls (suc k)))
      → Split (suc n) calls (first_success (suc n) calls)
  first_success_step n calls (inl (t, e)) s = rw e (0, omega arith, (λ k h. elim h [ ]), e)
  first_success_step n calls (inr (x, e)) s =
      rw e (Split-suc n calls (first_success n (λ k. calls (suc k))) (x, e) s)

  first_success-Split : (n : ℕ) (calls : ℕ → Result E T) → Split n calls (first_success n calls)
  first_success-Split zero calls = λ k h. elim h [ ]
  first_success-Split (suc n) calls =
      first_success_step n calls (Result-cases (calls 0))
        (first_success-Split n (λ k. calls (suc k)))

  as_pointer-Fails : (r : Result E T) → Fails r → Fails (as_pointer r)
  as_pointer-Fails r (x, e) = (x, rw e)

  module _ (p pt b : ℕ) (pos : 0 < p) where
    abbrev retried : ℕ → (ℕ → Result E T) → Outcome (Option T)
    retried n calls =
        retry_with_context none n p pt b (λ k. as_pointer (calls k)) (λ result. result)
          (λ retry_err. none)

    retried-Split :
        (n : ℕ) (calls : ℕ → Result E T) (o : Option T) → Split n calls o → retried n calls ≡ done o
    unfolding retry_with_context
    retried-Split n calls (some t) (j, lt, f, e) =
        let (r, run, res, _, _) =
          generic_retry_query-success none n p pt b (λ k. as_pointer (calls k)) pos j (some t) lt
            (λ k h. as_pointer-Fails (calls k) (f k h)) (rw e) in
        rw (run, res)
    retried-Split zero calls none s = refl
    retried-Split (suc n) calls none s =
        let (r, run, failed, _, _, _, _) =
          generic_retry_query-failure none (suc n) p pt b (λ k. as_pointer (calls k)) pos
            (omega arith) (λ k h. as_pointer-Fails (calls k) (s k h)) in
        rw (run, failed)

  -- A goroutine of the query operator never panics, and its slot receives the first outcome that
  -- is no error among the first call and the retries, or nil if there is none.
  pub fetch-first_success :
      (q : QueryOperator) (calls : ℕ → Result E T)
      → 0 < q.pause
      → fetch q calls ≡ done (first_success (suc q.retry_amount) calls)
  unfolding fetch
  fetch-first_success q calls pos = go (Result-cases (calls 0))
    where
      go :
          ((t : T) × (calls 0 ≡ ok t)) ⊎ Fails (calls 0)
          → fetch q calls ≡ done (first_success (suc q.retry_amount) calls)
      go (inl (t, e)) = rw (e, fetch)
      go (inr (x, e)) =
          rw (e, fetch)
            (retried-Split q.pause q.pause_time q.exponential_backoff pos q.retry_amount
              (λ k. calls (suc k)) _ (first_success-Split q.retry_amount (λ k. calls (suc k))))
