-- ===== src/Common.antt =====
-- The names that the other modules share: the libraries', passed on, and those of the children.
mod Tests
mod Lists
mod Words
mod Panics
mod Maps
mod Strconv
mod Texts
pub use Tests.*
unfoldable pub use Lists.{insert_keys}
pub use Lists.{
  length, get_elem?, set, replicate, length-append, length-set, length-replicate,
  get_elem?-set_self, get_elem?-set_ne, get_elem?-replicate, get_elem?_lt, list_ext, length-map,
  get_elem?-map, range_from, heights, heights-append, contains, insert_key, contains-insert_key,
  contains-insert_keys, all_pass, get_elem?-all_pass, and_left, and_right,
}
pub use Words.*
pub use Panics.*
unfoldable pub use Strconv.{parse_digits, parse_uint, parse_int}
pub use Texts.{
  int_codes, AreAscii, codes-text_of, Without, split_two, parse_codes-format_uint,
  format_uint-Without,
}
unfoldable pub use Texts.{
  has_prefix, contains_text, replace_all, format_uint, format_digits, split, text_of, format_int,
}
pub use Strconv.{codes, parse_codes, ℤ, pos, negsuc, negated, at_most}
pub use Maps.{
  GoMap, or_else, or_else_later, or_else_assoc, or_else-none, lookup-cons, lookup-put, lookup-copy,
}
unfoldable pub use Maps.{lookup, put, copy}
pub use Prim.Native.Nat.{ℕ, zero, suc, ◌+◌, ◌-◌, ◌*◌, ◌/◌, ◌%◌, ◌^◌, ◌≤◌, ◌<◌, min, max}
pub use Prim.Native.String.{String}
pub use mathlib.Core.Path.{◌≡◌, refl, sym, ap, ◌∙◌, fun_ext, subst}
pub use mathlib.Core.Logic.{◌≢◌, ◌↔◌, ◌⊎◌, inl, inr}
pub use mathlib.Core.Bool.{Bool, true, false, not, ◌&&◌, ◌||◌}
pub use mathlib.Core.Option.{Option, none, some}
pub use mathlib.Core.List.{List, [], ◌∷◌, ◌++◌, map}
pub use native.Mathlib.Omega.{arith}
pub use text.Mathlib.Text.{◌==◌ as str_eq}
pub use text.Mathlib.TextEquality.{eq_iff}
unfoldable pub use native.Mathlib.Decide.{dec_lt, ℕ_discrete}
