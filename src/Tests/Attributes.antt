-- ===== src/Tests/Attributes.antt =====
-- Attributes on concrete texts; the parsing of a float takes every text that starts with a digit.
use spectra_gnoland_indexer.Common.{
  ℕ, String, ◌≡◌, refl, Bool, true, false, ◌&&◌, Option, none, some, List, [], ◌∷◌, codes, pos,
  negsuc, leb, if◌then◌else◌, max_int64, parse_int, parse_digits, arith,
}
use spectra_gnoland_indexer.EventAttributes.{
  bool_value, int64_value, double_value, string_value, parse_bool, parse_attribute_value,
}
use spectra_gnoland_indexer.EventAttributes.Numbers.{parse_attribute_value-decimal}

abbrev starts_with_digit : List ℕ → Bool
starts_with_digit [] = false
starts_with_digit (c ∷ s) = leb b'0' c && leb c b'9'

abbrev pub parse_float : String → Option String
parse_float s = if starts_with_digit (codes s) then some s else none

-- 2^64 is out of range
parse_attribute_value-decimal_example :
    parse_attribute_value parse_float "18446744073709551616" ≡ double_value "18446744073709551616"
parse_attribute_value-decimal_example =
    parse_attribute_value-decimal parse_float false "18446744073709551616"
      (codes "18446744073709551616") refl (omega arith)

smallest : parse_attribute_value parse_float "-9223372036854775808" ≡ int64_value (negsuc max_int64)
unfolding parse_attribute_value parse_bool parse_int parse_digits
smallest = refl

leading_zeros : parse_attribute_value parse_float "007" ≡ int64_value (pos 7)
unfolding parse_attribute_value parse_bool parse_int parse_digits
leading_zeros = refl

truth : parse_attribute_value parse_float "true" ≡ bool_value true
unfolding parse_attribute_value parse_bool
truth = refl

address : parse_attribute_value parse_float "g1abc" ≡ string_value "g1abc"
unfolding parse_attribute_value parse_bool parse_int parse_digits
address = refl
