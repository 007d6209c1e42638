-- ===== src/Timescale/Quoted.antt =====
-- pkgs/database/timescaledb/pool.go: a quoted value, read by the rules of libpq.

use mathlib.Core.List.{append_assoc}
use spectra_gnoland_indexer.Common.{
  ℕ, ◌≡◌, refl, inl, inr, Bool, true, false, Option, none, some, List, [], ◌∷◌, ◌++◌, ◌==◌,
  if◌then◌else◌, replace_all, Bool-cases, arith,
}
use spectra_gnoland_indexer.Timescale.Pool.{quote_dsn_value}

abbrev before : ℕ → Option (List ℕ × List ℕ) → Option (List ℕ × List ℕ)
before c none = none
before c (some (value, rest)) = some (c ∷ value, rest)

-- inside the quotes, `escaped` after a backslash: a backslash stands before a code that is taken
-- as it is, and a quote ends the value. The value, and the text after it.
abbrev read_quoted : Bool → List ℕ → Option (List ℕ × List ℕ)
read_quoted escaped [] = none
read_quoted true (c ∷ s) = before c (read_quoted false s)
read_quoted false (c ∷ s) =
    let next = before c (read_quoted false s) in
    let escaped = read_quoted true s in
    if c == b'\'' then some ([], s) else if c == b'\\' then escaped else next

-- a value at the start of a text, which a quote opens
abbrev pub read_value : List ℕ → Option (List ℕ × List ℕ)
read_value [] = none
read_value (c ∷ s) = let inner = read_quoted false s in if c == b'\'' then inner else none

read_quoted-replace_all :
    (value rest : List ℕ)
    → read_quoted false (
        replace_all (replace_all value b'\\' (b'\\' ∷ b'\\' ∷ [])) b'\'' (b'\\' ∷ b'\'' ∷ [])
        ++ b'\'' ∷ rest)
      ≡ some (value, rest)
unfolding replace_all
read_quoted-replace_all [] rest = refl
read_quoted-replace_all (c ∷ value) rest = elim (Bool-cases (c == b'\\')) [
  | inl slash ↦
      let same : c ≡ b'\\' = ground arith in rw (slash, same, read_quoted-replace_all value rest)
  | inr other ↦ elim (Bool-cases (c == b'\'')) [
    | inl quote ↦
        let same : c ≡ b'\'' = ground arith in
        rw (other, quote, same, read_quoted-replace_all value rest)
    | inr plain ↦ rw (other, plain, read_quoted-replace_all value rest) (rw (plain, other))
  ]
]

-- A value in the quotes of quoteDSNValue is read by the rules of libpq as that value, whatever
-- codes it has, and what comes after it is left as it is.
pub read_value-quote_dsn_value :
    (value rest : List ℕ) → read_value (quote_dsn_value value ++ rest) ≡ some (value, rest)
unfolding quote_dsn_value
read_value-quote_dsn_value value rest =
    rw (append_assoc _ (b'\'' ∷ []) rest) (read_quoted-replace_all value rest)
