-- ===== src/Swarm.antt =====
-- The fan-out of indexer/query and indexer/data_processor: one goroutine for each item of a slice,
-- each of which writes at most the slot of its own index, and a `WaitGroup` that waits for all.
-- A schedule lists the indices in the order in which the goroutines take effect.
pub mod Schedules
use spectra_gnoland_indexer.Common.{
  ℕ, ◌<◌, ◌≡◌, true, Option, none, some, List, [], ◌∷◌, length, get_elem?, set, replicate, contains,
  nat_comparable,
}

module _ {ℓ} {B : Type ℓ} where
  abbrev pub write : ℕ → Option B → List B → List B
  write i none slots = slots
  write i (some b) slots = set slots i b

  unfoldable pub run_slots : (ℕ → Option B) → List ℕ → List B → List B
  run_slots work [] slots = slots
  run_slots work (i ∷ sched) slots = run_slots work sched (write i (work i) slots)

abbrev on_item {ℓ κ} : {A : Type ℓ} {B : Type κ} → (A → Option B) → Option A → Option B
on_item f none = none
on_item f (some a) = f a

-- what the goroutine of index `i` writes
abbrev pub work_at {ℓ κ} : {A : Type ℓ} {B : Type κ} → (A → Option B) → List A → ℕ → Option B
work_at f items i = on_item f (get_elem? items i)

-- the slots start as `zero_value`; a goroutine that gives `none` returns before it writes
unfoldable pub fan_out {ℓ κ} :
    {A : Type ℓ} {B : Type κ} → (A → Option B) → List A → B → List ℕ → List B
unfolding run_slots
fan_out f items zero_value sched =
    run_slots (work_at f items) sched (replicate (length items) zero_value)

-- the `WaitGroup` has waited for the goroutines of all `n` indices
abbrev pub Covers : ℕ → List ℕ → Type 0
Covers n sched = (i : ℕ) → i < n → contains i sched ≡ true
