-- ===== src/Swarm/Schedules.antt =====
-- The order in which the goroutines of a fan-out run does not show in its result.
use mathlib.Core.Option
use spectra_gnoland_indexer.Common.{
  ℕ, ◌<◌, ◌≡◌, ◌≢◌, refl, sym, ◌∙◌, ap, true, false, inl, inr, Bool, Option, none, some, List, [],
  ◌∷◌, map, length, get_elem?, replicate, contains, length-set, length-replicate, length-map,
  get_elem?-set_self, get_elem?-set_ne, get_elem?-replicate, get_elem?-map, get_elem?_lt, list_ext,
  arith, if◌then◌else◌, ◌==◌, Bool-cases, nat_comparable, ==_iff,
}
use spectra_gnoland_indexer.Swarm.{write, run_slots, work_at, fan_out, Covers}

ne_of_test : (i j : ℕ) → (i == j) ≡ false → i ≢ j
ne_of_test i j h = ground arith

module _ {ℓ} {B : Type ℓ} where
  length-write : (i : ℕ) (w : Option B) (slots : List B) → length (write i w slots) ≡ length slots
  length-write i none slots = refl
  length-write i (some b) slots = length-set slots i b

  length-run_slots :
      (work : ℕ → Option B) (sched : List ℕ) (slots : List B)
      → length (run_slots work sched slots) ≡ length slots
  unfolding run_slots
  length-run_slots work [] slots = refl
  length-run_slots work (i ∷ sched) slots =
      length-run_slots work sched (write i (work i) slots) ∙ length-write i (work i) slots

  get_elem?-write_self :
      (i : ℕ) (w : Option B) (slots : List B) (d : B)
      → i < length slots
      → get_elem? slots i ≡ some d
      → get_elem? (write i w slots) i ≡ some (Option.get_or w d)
  get_elem?-write_self i none slots d h e = e
  get_elem?-write_self i (some b) slots d h e = get_elem?-set_self slots i b h

  get_elem?-write_ne :
      (i j : ℕ) (w : Option B) (slots : List B)
      → i ≢ j
      → get_elem? (write i w slots) j ≡ get_elem? slots j
  get_elem?-write_ne i j none slots h = refl
  get_elem?-write_ne i j (some b) slots h = get_elem?-set_ne slots i j b h

  get_or_twice : (w : Option B) (d : B) → Option.get_or w (Option.get_or w d) ≡ Option.get_or w d
  get_or_twice none d = refl
  get_or_twice (some b) d = refl

  if_same : (t : Bool) (x y : B) → x ≡ y → (if t then x else y) ≡ y
  if_same true x y p = p
  if_same false x y p = refl

  -- the slot `i` is written by its own goroutine or by none
  get_elem?-run_slots :
      (work : ℕ → Option B) (sched : List ℕ) (slots : List B) (i : ℕ) (d : B)
      → i < length slots
      → get_elem? slots i ≡ some d
      → get_elem? (run_slots work sched slots) i
        ≡ some (if contains i sched then Option.get_or (work i) d else d)
  unfolding run_slots
  get_elem?-run_slots work [] slots i d h e = e
  get_elem?-run_slots work (j ∷ sched) slots i d h e = elim (Bool-cases (j == i)) [
    | inl q ↦
        let p : j ≡ i = (==_iff j i).0 q in
        let ih =
          get_elem?-run_slots work sched (write j (work j) slots) i (Option.get_or (work i) d)
            (rw length-write h) (rw p (get_elem?-write_self i (work i) slots d h e)) in
        rw q (ih ∙ ap some (if_same (contains i sched) _ _ (get_or_twice (work i) d)))
    | inr q ↦
        let ih =
          get_elem?-run_slots work sched (write j (work j) slots) i d (rw length-write h)
            (get_elem?-write_ne j i (work j) slots (ne_of_test j i q) ∙ e) in
        rw q ih
  ]

module _ {ℓ κ} {A : Type ℓ} {B : Type κ} (f : A → Option B) (d : B) where
  -- Whatever the order in which the goroutines take effect, once each has run the slots are the
  -- items in their order, each with what its goroutine wrote, or the zero value if it wrote
  -- nothing.
  pub fan_out-map :
      (items : List A) (sched : List ℕ)
      → Covers (length items) sched
      → fan_out f items d sched ≡ map (λ a. Option.get_or (f a) d) items
  unfolding fan_out
  fan_out-map items sched c = list_ext _ _ (same_length ∙ sym (length-map _ items)) λ i h.
      let (a, at) = get_elem?_lt items i (rw (← same_length) h) in
      let slot =
        get_elem?-run_slots (work_at f items) sched (replicate (length items) d) i d
          (rw length-replicate (rw (← same_length) h))
          (get_elem?-replicate (length items) i d (rw (← same_length) h)) in
      slot ∙ rw (c i (rw (← same_length) h), at) (sym (get_elem?-map _ items i a at))
    where
      same_length : length (fan_out f items d sched) ≡ length items
      same_length = length-run_slots _ sched _ ∙ length-replicate (length items) d
