-- ===== src/EventAttributes/Texts.antt =====
-- pkgs/events_proto/parse.go: the attributes whose text is what FormatInt writes.
use spectra_gnoland_indexer.Common.{
  ℕ, zero, suc, ◌+◌, ◌/◌, ◌%◌, ◌≤◌, ◌≡◌, ap, ◌∙◌, inl, inr, true, false, none, some, List, [], ◌∷◌,
  codes, ℤ, pos, negsuc, parse_int, parse_codes, leb, ◌==◌, arith, Bool-cases, max_int64,
  format_uint, format_digits, format_int, int_codes, AreAscii, codes-text_of,
  parse_codes-format_uint,
}
use spectra_gnoland_indexer.EventAttributes.{parse_bool}
use spectra_gnoland_indexer.EventAttributes.Numbers.{AreDigits, IsNumber, parse_bool_number}

abbrev pub IsInt64 : ℤ → Type 0
IsInt64 (pos n) = n ≤ max_int64
IsInt64 (negsuc n) = n ≤ max_int64

AreDigits-format_digits :
    (places n : ℕ) (acc : List ℕ) → AreDigits acc → AreDigits (format_digits places n acc)
unfolding format_digits
AreDigits-format_digits zero n acc h = h
AreDigits-format_digits (suc places) n acc h =
    let first : AreDigits ((b'0' + n % 10) ∷ acc) = (omega arith, omega arith, h) in
    elim (Bool-cases (n / 10 == 0)) [
      | inl e ↦ rw e first
      | inr e ↦ rw e (AreDigits-format_digits places (n / 10) _ first)
    ]

IsNumber-format_digits :
    (places n c : ℕ) (acc : List ℕ)
    → AreDigits (c ∷ acc)
    → IsNumber (format_digits places n (c ∷ acc))
unfolding format_digits
IsNumber-format_digits zero n c acc h = h
IsNumber-format_digits (suc places) n c acc h =
    let first : AreDigits ((b'0' + n % 10) ∷ c ∷ acc) = (omega arith, omega arith, h) in
    elim (Bool-cases (n / 10 == 0)) [
      | inl e ↦ rw e first
      | inr e ↦ rw e (IsNumber-format_digits places (n / 10) _ _ first)
    ]

IsNumber-format_uint : (n : ℕ) → IsNumber (format_uint n)
unfolding format_uint format_digits
IsNumber-format_uint n =
    let first : AreDigits ((b'0' + n % 10) ∷ []) = (omega arith, omega arith, tt) in
    elim (Bool-cases (n / 10 == 0)) [
      | inl e ↦ rw e first
      | inr e ↦ rw e (IsNumber-format_digits 19 (n / 10) _ _ first)
    ]

digits-AreAscii : (s : List ℕ) → AreDigits s → AreAscii s
digits-AreAscii [] h = tt
digits-AreAscii (c ∷ s) (low, high, h) = (omega arith, digits-AreAscii s h)

number-AreAscii : (s : List ℕ) → IsNumber s → AreAscii s
number-AreAscii [] h = elim h [ ]
number-AreAscii (c ∷ s) h = digits-AreAscii (c ∷ s) h

codes-format_int : (i : ℤ) → codes (format_int i) ≡ int_codes i
unfolding format_int
codes-format_int (pos n) = codes-text_of _ (number-AreAscii _ (IsNumber-format_uint n))
codes-format_int (negsuc n) =
    codes-text_of _ (omega arith, number-AreAscii _ (IsNumber-format_uint (suc n)))

parse_int_unsigned :
    (s : List ℕ) (n : ℕ)
    → IsNumber s
    → parse_codes s ≡ some n
    → n ≤ max_int64
    → parse_int s ≡ some (pos n)
unfolding parse_int
parse_int_unsigned [] n d e h = elim d [ ]
parse_int_unsigned (c ∷ s) n (low, high, d) e h =
    let minus : (c == b'-') ≡ false = ground arith in
    let plus : (c == b'+') ≡ false = ground arith in
    let fits : leb n max_int64 ≡ true = ground arith in rw (minus, plus, e, fits)

-- ParseInt reads what FormatInt writes of an int64.
pub parse_int-format_int : (i : ℤ) → IsInt64 i → parse_int (codes (format_int i)) ≡ some i
parse_int-format_int (pos n) h =
    ap parse_int (codes-format_int (pos n))
    ∙ parse_int_unsigned (format_uint n) n (IsNumber-format_uint n)
        (parse_codes-format_uint n (omega arith)) h
parse_int-format_int (negsuc n) h =
    let fits : leb (suc n) (max_int64 + 1) ≡ true = ground arith in
    ap parse_int (codes-format_int (negsuc n))
    ∙ unfold parse_int in rw (parse_codes-format_uint (suc n) (omega arith), fits)

pub parse_bool-format_int : (i : ℤ) → parse_bool (format_int i) ≡ none
parse_bool-format_int (pos n) =
    parse_bool_number false (format_int (pos n)) (format_uint n) (codes-format_int (pos n))
      (IsNumber-format_uint n)
parse_bool-format_int (negsuc n) =
    parse_bool_number true (format_int (negsuc n)) (format_uint (suc n))
      (codes-format_int (negsuc n)) (IsNumber-format_uint (suc n))
