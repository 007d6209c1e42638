-- ===== src/EventAttributes/Numbers.antt =====
-- pkgs/events_proto/parse.go: the attributes whose text is a number.
use mathlib.Core.Option
use spectra_gnoland_indexer.Common.{
  ℕ, ◌+◌, ◌-◌, ◌*◌, ◌≤◌, ◌<◌, String, ◌≡◌, refl, ap, inl, inr, Bool, true, false, Option, none,
  some, List, [], ◌∷◌, codes, str_eq, eq_iff, ℤ, pos, negated, at_most, parse_int, parse_codes,
  parse_digits, ltb, leb, ◌==◌, if◌then◌else◌, arith, Bool-cases, u64_mod, max_int64,
}
use spectra_gnoland_indexer.EventAttributes.{
  int64_value, parse_bool, parse_attribute_value, float_or_string,
}

abbrev pub AreDigits : List ℕ → Type 0
AreDigits [] = Unit
AreDigits (c ∷ s) = (b'0' ≤ c) × (c ≤ b'9') × AreDigits s

-- the decimal number of the digits after the value so far
abbrev decimal : ℕ → List ℕ → ℕ
decimal n [] = n
decimal n (c ∷ s) = decimal (n * 10 + (c - b'0')) s

decimal_grows : (n : ℕ) (s : List ℕ) → n ≤ decimal n s
decimal_grows n [] = omega arith
decimal_grows n (c ∷ s) = let rest = decimal_grows (n * 10 + (c - b'0')) s in omega arith

-- ParseUint gives the decimal number, if it is below 2^64.
parse_digits-decimal :
    (n : ℕ) (s : List ℕ)
    → n < u64_mod
    → AreDigits s
    → parse_digits n s ≡ (if ltb (decimal n s) u64_mod then some (decimal n s) else none)
unfolding parse_digits
parse_digits-decimal n [] h d = let fits : ltb n u64_mod ≡ true = ground arith in rw fits
parse_digits-decimal n (c ∷ s) h (low, high, d) =
    let l : leb b'0' c ≡ true = ground arith in
    let u : leb c b'9' ≡ true = ground arith in
    elim (Bool-cases (ltb (n * 10 + (c - b'0')) u64_mod)) [
      | inl e ↦ rw (l, u, e) (parse_digits-decimal (n * 10 + (c - b'0')) s (ground arith) d)
      | inr e ↦
          let more = decimal_grows (n * 10 + (c - b'0')) s in
          let over : ltb (decimal (n * 10 + (c - b'0')) s) u64_mod ≡ false = ground arith in
          rw (l, u, e, over)
    ]

abbrev pub IsNumber : List ℕ → Type 0
IsNumber [] = ⊥
IsNumber (c ∷ s) = AreDigits (c ∷ s)

abbrev pub signed : Bool → List ℕ → List ℕ
signed true s = b'-' ∷ s
signed false s = s

-- the largest absolute value of an int64 of that sign
abbrev bound_of : Bool → ℕ
bound_of true = max_int64 + 1
bound_of false = max_int64

abbrev signed_number : Bool → ℕ → ℤ
signed_number true n = negated n
signed_number false n = pos n

parse_codes-decimal :
    (s : List ℕ)
    → IsNumber s
    → parse_codes s ≡ (if ltb (decimal 0 s) u64_mod then some (decimal 0 s) else none)
parse_codes-decimal [] d = elim d [ ]
parse_codes-decimal (c ∷ s) d = parse_digits-decimal 0 (c ∷ s) (omega arith) d

-- the range of int64 is within that of uint64
at_most-decimal :
    (bound : ℕ) (s : List ℕ)
    → bound < u64_mod
    → IsNumber s
    → at_most bound (parse_codes s) ≡ (if leb (decimal 0 s) bound then some (decimal 0 s) else none)
at_most-decimal bound s h d =
    rw (parse_codes-decimal s d) (elim (Bool-cases (ltb (decimal 0 s) u64_mod)) [
      | inl e ↦ rw e
      | inr e ↦ let over : leb (decimal 0 s) bound ≡ false = ground arith in rw (e, over)
    ])

abbrev in_range : Bool → ℕ → Option ℤ
in_range neg n = if leb n (bound_of neg) then some (signed_number neg n) else none

map-if :
    (f : ℕ → ℤ) (b : Bool) (n : ℕ)
    → Option.map f (if b then some n else none) ≡ (if b then some (f n) else none)
map-if f true n = refl
map-if f false n = refl

parse_int-signed :
    (neg : Bool) (s : List ℕ) → IsNumber s → parse_int (signed neg s) ≡ in_range neg (decimal 0 s)
unfolding parse_int
parse_int-signed true s d =
    rw (at_most-decimal (max_int64 + 1) s (omega arith) d) (map-if negated _ _)
parse_int-signed false [] d = elim d [ ]
parse_int-signed false (c ∷ s) d =
    let minus : (c == b'-') ≡ false = ground arith in
    let plus : (c == b'+') ≡ false = ground arith in
    rw (minus, plus, at_most-decimal max_int64 (c ∷ s) (omega arith) d) (map-if pos _ _)

abbrev first_code : List ℕ → ℕ
first_code [] = 0
first_code (c ∷ s) = c

first_code-signed : (neg : Bool) (s : List ℕ) → IsNumber s → first_code (signed neg s) ≤ b'9'
first_code-signed true s d = omega arith
first_code-signed false [] d = elim d [ ]
first_code-signed false (c ∷ s) (low, high, d) = high

str_eq-first_code :
    (s word : String) → first_code (codes s) < first_code (codes word) → str_eq s word ≡ false
str_eq-first_code s word h = elim (Bool-cases (str_eq s word)) [
  | inr e ↦ e
  | inl e ↦
      let same : first_code (codes s) ≡ first_code (codes word) =
        ap (λ x. first_code (codes x)) ((eq_iff s word).0 e) in
      absurd (omega arith)
]

-- no number is the text of a bool
pub parse_bool_number :
    (neg : Bool) (s : String) (digits : List ℕ)
    → codes s ≡ signed neg digits
    → IsNumber digits
    → parse_bool s ≡ none
unfolding parse_bool
parse_bool_number neg s digits h d =
    let first : first_code (codes s) ≤ b'9' = rw h (first_code-signed neg digits d) in
    rw (str_eq-first_code s "true" (omega arith), str_eq-first_code s "false" (omega arith))

module _ {Float : Type 0} (parse_float : String → Option Float) where
  -- A text of digits, with a minus or without, becomes the int64 that it writes if that is in
  -- range. Otherwise it becomes the double that ParseFloat makes of it, and is kept as a text
  -- only if there is none.
  pub parse_attribute_value-decimal :
      (neg : Bool) (s : String) (digits : List ℕ)
      → codes s ≡ signed neg digits
      → IsNumber digits
      → parse_attribute_value parse_float s ≡ (
          if leb (decimal 0 digits) (bound_of neg)
          then int64_value (signed_number neg (decimal 0 digits))
          else float_or_string parse_float s (parse_float s))
  unfolding parse_attribute_value
  parse_attribute_value-decimal neg s digits h d =
      rw (parse_bool_number neg s digits h d, h, parse_int-signed neg digits d)
        (elim (Bool-cases (leb (decimal 0 digits) (bound_of neg))) [ inl e ↦ rw e | inr e ↦ rw e ])
