-- ===== src/Common/Strconv.antt =====
-- Go's `strconv.ParseUint(s, 10, 64)`: digits only, at least one, and a value below 2^64; and
-- `strconv.ParseInt(s, 10, 64)`, which takes a sign.
use Prim.Native.Nat.{ℕ, zero, suc, ◌+◌, ◌-◌, ◌*◌}
use Prim.Native.Char.{code}
use Prim.Native.String.{String}
use mathlib.Core.Path.{◌≡◌, refl}
use mathlib.Core.Bool.{◌&&◌}
use mathlib.Core.List.{List, [], ◌∷◌}
use mathlib.Core.Option
use mathlib.Core.Option.{Option, none, some}
use spectra_gnoland_indexer.Common.Tests.{ltb, leb, ◌==◌, if◌then◌else◌}
use spectra_gnoland_indexer.Common.Words.{u64_mod, max_int64}

abbrev pub codes : String → List ℕ
codes String.[] = []
codes (String.◌∷◌ c s) = code c ∷ codes s

-- the value so far, and the digits that are left; `none` for a syntax or a range error
unfoldable pub parse_digits : ℕ → List ℕ → Option ℕ
parse_digits n [] = some n
parse_digits n (c ∷ cs) =
    let m = n * 10 + (c - b'0') in
    let rest = parse_digits m cs in if leb b'0' c && leb c b'9' && ltb m u64_mod then rest else none

abbrev pub parse_codes : List ℕ → Option ℕ
parse_codes [] = none
parse_codes (c ∷ cs) = parse_digits 0 (c ∷ cs)

unfoldable pub parse_uint : String → Option ℕ
unfolding parse_digits
parse_uint s = parse_codes (codes s)

-- an `int64`: n, or -(n + 1)
pub data ℤ : Type 0 where
  pos : ℕ → ℤ
  negsuc : ℕ → ℤ

abbrev pub negated : ℕ → ℤ
negated zero = pos zero
negated (suc n) = negsuc n

abbrev pub at_most : ℕ → Option ℕ → Option ℕ
at_most bound none = none
at_most bound (some n) = if leb n bound then some n else none

unfoldable pub parse_int : List ℕ → Option ℤ
parse_int [] = none
parse_int (c ∷ s) =
    if c == b'-'
    then Option.map negated (at_most (max_int64 + 1) (parse_codes s))
    else if c == b'+'
    then Option.map pos (at_most max_int64 (parse_codes s))
    else Option.map pos (at_most max_int64 (parse_codes (c ∷ s)))

parse_uint_max : parse_uint "18446744073709551615" ≡ some 18446744073709551615
unfolding parse_uint
parse_uint_max = refl

parse_uint_range : parse_uint "18446744073709551616" ≡ none
unfolding parse_uint
parse_uint_range = refl

parse_uint_sign : parse_uint "+1" ≡ none
unfolding parse_uint
parse_uint_sign = refl
