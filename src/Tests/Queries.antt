-- ===== src/Tests/Queries.antt =====
-- The query operator over clients that fail at some heights.
use mathlib.Core.List.{map}
use spectra_gnoland_indexer.Common.{
  ℕ, zero, suc, ◌+◌, ◌≡◌, refl, none, some, List, [], ◌∷◌, done, Result, ok, err, arith,
  if◌then◌else◌, ◌==◌, ◌&&◌, ◌||◌, heights, nat_comparable, String,
}
use spectra_gnoland_indexer.Retry.{sleeps_after}
use spectra_gnoland_indexer.Swarm.{Covers}
use spectra_gnoland_indexer.Query.{QueryOperator, fetch_all, get_from_to_blocks}
use spectra_gnoland_indexer.Query.Fetch.{first_success}
use spectra_gnoland_indexer.Query.Ranges.{get_from_to_blocks-heights}

-- one retry
abbrev pub operator : QueryOperator
operator = record { retry_amount = 1; pause = 3; pause_time = 15; exponential_backoff = 2 }

-- height 11 answers at the second call, height 12 never
abbrev node : ℕ → ℕ → Result String ℕ
node h k = if (h == 12 || (h == 11 && k == 0)) then err "no answer" else ok (h + 1000)

-- the goroutines end in reverse
abbrev reversed : List ℕ
reversed = 2 ∷ 1 ∷ 0 ∷ []

reversed-Covers : Covers 3 reversed
reversed-Covers zero h = refl
reversed-Covers (suc zero) h = refl
reversed-Covers (suc (suc zero)) h = refl
reversed-Covers (suc (suc (suc i))) h = absurd (omega arith)

get_from_to_blocks-heights_example :
    get_from_to_blocks operator node 10 12 reversed
    ≡ done (map (λ h. first_success 2 (node h)) (heights 10 3))
get_from_to_blocks-heights_example =
    get_from_to_blocks-heights operator node 10 12 reversed (omega arith) (omega arith)
      (omega arith) (omega arith) reversed-Covers

three_slots :
    get_from_to_blocks operator node 10 12 reversed ≡ done (some 1010 ∷ some 1011 ∷ none ∷ [])
unfolding get_from_to_blocks fetch_all sleeps_after
three_slots = refl
