-- ===== src/Common/Texts.antt =====
-- Go's `strconv.FormatUint(n, 10)`, `strconv.FormatInt(i, 10)` and `strings.Split`, on texts as
-- lists of codes.
use spectra_gnoland_indexer.Common.Tests.{ltb, leb, ◌==◌, if◌then◌else◌}
use Prim.Native.Char.{char, IsScalar}
use Prim.Native.String.{String}
use Prim.Native.Nat.{ℕ, zero, suc, ◌+◌, ◌-◌, ◌*◌, ◌/◌, ◌%◌, ◌^◌, ◌<◌}
use mathlib.Core.Path.{◌≡◌, refl, ◌∙◌}
use mathlib.Core.Logic.{inl, inr}
use mathlib.Core.Bool.{Bool, true, false, ◌&&◌, ◌||◌}
use mathlib.Core.List.{List, [], ◌∷◌, ◌++◌}
use mathlib.Core.Option.{some}
use native.Mathlib.Omega.{arith}
use spectra_gnoland_indexer.Common.Strconv.{parse_digits, parse_codes, codes, ℤ, pos, negsuc}
use spectra_gnoland_indexer.Common.Tests.{Bool-cases}
use spectra_gnoland_indexer.Common.Words.{u64_mod}

-- the digits of `n` before `acc`, at most `places` of them
unfoldable pub format_digits : ℕ → ℕ → List ℕ → List ℕ
format_digits zero n acc = acc
format_digits (suc places) n acc =
    let digits = (b'0' + n % 10) ∷ acc in
    let longer = format_digits places (n / 10) digits in if n / 10 == 0 then digits else longer

-- 2^64 has twenty digits
unfoldable pub format_uint : ℕ → List ℕ
format_uint n = format_digits 20 n []

-- `field` is what has been read since the last separator, and `rest` the fields after it
abbrev add_to_first : ℕ → List (List ℕ) → List (List ℕ)
add_to_first c [] = (c ∷ []) ∷ []
add_to_first c (field ∷ rest) = (c ∷ field) ∷ rest

-- strings.Split(s, sep) for a separator of one byte
unfoldable pub split : ℕ → List ℕ → List (List ℕ)
split sep [] = [] ∷ []
split sep (c ∷ s) = let rest = split sep s in if c == sep then [] ∷ rest else add_to_first c rest

abbrev pub Without : ℕ → List ℕ → Type 0
Without sep [] = Unit
Without sep (c ∷ s) = ((c == sep) ≡ false) × Without sep s

-- strings.HasPrefix
unfoldable pub has_prefix : List ℕ → List ℕ → Bool
has_prefix s [] = true
has_prefix [] (p ∷ prefix) = false
has_prefix (c ∷ s) (p ∷ prefix) = c == p && has_prefix s prefix

parse_digits_digit :
    (m d : ℕ) (acc : List ℕ)
    → d < 10
    → m * 10 + d < u64_mod
    → parse_digits m ((b'0' + d) ∷ acc) ≡ parse_digits (m * 10 + d) acc
unfolding parse_digits
parse_digits_digit m d acc h k =
    let value : m * 10 + (b'0' + d - b'0') ≡ m * 10 + d = omega arith in
    let low : leb b'0' (b'0' + d) ≡ true = ground arith in
    let high : leb (b'0' + d) b'9' ≡ true = ground arith in
    let fits : ltb (m * 10 + d) u64_mod ≡ true = ground arith in rw (value, low, high, fits)

parse_digits-format_digits :
    (places n : ℕ) (acc : List ℕ)
    → n < 10 ^ places
    → n < u64_mod
    → parse_digits 0 (format_digits places n acc) ≡ parse_digits n acc
unfolding format_digits
parse_digits-format_digits zero n acc h k = let none_left : n ≡ 0 = omega arith in rw none_left
parse_digits-format_digits (suc places) n acc h k = elim (Bool-cases (n / 10 == 0)) [
  | inl e ↦
      let whole : 0 * 10 + n % 10 ≡ n = ground arith in
      rw e (parse_digits_digit 0 (n % 10) acc (omega arith) (omega arith) ∙ rw whole)
  | inr e ↦
      let whole : n / 10 * 10 + n % 10 ≡ n = omega arith in
      rw e (
        parse_digits-format_digits places (n / 10) ((b'0' + n % 10) ∷ acc) (omega arith)
          (omega arith)
        ∙ parse_digits_digit (n / 10) (n % 10) acc (omega arith) (omega arith)
        ∙ rw whole)
]

format_digits_nonempty :
    (places n c : ℕ) (acc : List ℕ)
    → parse_codes (format_digits places n (c ∷ acc))
      ≡ parse_digits 0 (format_digits places n (c ∷ acc))
unfolding format_digits
format_digits_nonempty zero n c acc = refl
format_digits_nonempty (suc places) n c acc = elim (Bool-cases (n / 10 == 0)) [
  | inl e ↦ rw e
  | inr e ↦ rw e (format_digits_nonempty places (n / 10) (b'0' + n % 10) (c ∷ acc))
]

parse_codes-format_digits :
    (places n : ℕ)
    → parse_codes (format_digits (suc places) n [])
      ≡ parse_digits 0 (format_digits (suc places) n [])
unfolding format_digits
parse_codes-format_digits places n = elim (Bool-cases (n / 10 == 0)) [
  | inl e ↦ rw e
  | inr e ↦ rw e (format_digits_nonempty places (n / 10) (b'0' + n % 10) [])
]

-- ParseUint reads what FormatUint writes.
pub parse_codes-format_uint : (n : ℕ) → n < u64_mod → parse_codes (format_uint n) ≡ some n
unfolding format_uint parse_digits
parse_codes-format_uint n k =
    parse_codes-format_digits 19 n ∙ parse_digits-format_digits 20 n [] (omega arith) k

Without-format_digits :
    (places n : ℕ) (sep : ℕ) (acc : List ℕ)
    → b'9' < sep
    → Without sep acc
    → Without sep (format_digits places n acc)
unfolding format_digits
Without-format_digits zero n sep acc h w = w
Without-format_digits (suc places) n sep acc h w =
    let first : ((b'0' + n % 10) == sep) ≡ false = ground arith in
    elim (Bool-cases (n / 10 == 0)) [
      | inl e ↦ rw e (first, w)
      | inr e ↦ rw e (Without-format_digits places (n / 10) sep _ h (first, w))
    ]

pub format_uint-Without : (n sep : ℕ) → b'9' < sep → Without sep (format_uint n)
unfolding format_uint
format_uint-Without n sep h = Without-format_digits 20 n sep [] h tt

split-Without : (sep : ℕ) (s : List ℕ) → Without sep s → split sep s ≡ s ∷ []
unfolding split
split-Without sep [] w = refl
split-Without sep (c ∷ s) (h, w) = rw (h, split-Without sep s w)

-- two fields without the separator, joined by it
pub split_two :
    (sep : ℕ) (a b : List ℕ) → Without sep a → Without sep b → split sep (a ++ sep ∷ b) ≡ a ∷ b ∷ []
unfolding split
split_two sep [] b u w =
    let here : (sep == sep) ≡ true = ground arith in rw (here, split-Without sep b w)
split_two sep (c ∷ a) b (h, u) w = rw (h, split_two sep a b u w)

pub is_ascii : (c : ℕ) → IsScalar (c % 128)
is_ascii c = let h : c % 128 < 55296 = omega arith in ground arith

-- a text of ASCII codes
unfoldable pub text_of : List ℕ → String
text_of [] = String.[]
text_of (c ∷ s) = String.◌∷◌ (char (c % 128) (is_ascii c)) (text_of s)

abbrev pub int_codes : ℤ → List ℕ
int_codes (pos n) = format_uint n
int_codes (negsuc n) = b'-' ∷ format_uint (suc n)

unfoldable pub format_int : ℤ → String
format_int i = text_of (int_codes i)

abbrev pub AreAscii : List ℕ → Type 0
AreAscii [] = Unit
AreAscii (c ∷ s) = (c < 128) × AreAscii s

pub codes-text_of : (s : List ℕ) → AreAscii s → codes (text_of s) ≡ s
unfolding text_of
codes-text_of [] h = refl
codes-text_of (c ∷ s) (a, h) = let same : c % 128 ≡ c = omega arith in rw (same, codes-text_of s h)

-- strings.Contains
unfoldable pub contains_text : List ℕ → List ℕ → Bool
unfolding has_prefix
contains_text [] t = has_prefix [] t
contains_text (c ∷ s) t = has_prefix (c ∷ s) t || contains_text s t

-- strings.ReplaceAll for an old text of one byte
unfoldable pub replace_all : List ℕ → ℕ → List ℕ → List ℕ
replace_all [] old new = []
replace_all (c ∷ s) old new =
    let rest = replace_all s old new in if c == old then new ++ rest else c ∷ rest
