-- ===== src/EventAttributes.antt =====
-- pkgs/events_proto/parse.go: the type of an event attribute, found from its text. The parsing of a
-- float is a parameter.
pub mod Numbers
pub mod Texts
use spectra_gnoland_indexer.Common.{
  String, Bool, true, false, Option, none, some, List, codes, str_eq, ℤ, parse_int, if◌then◌else◌,
}

pub data AttributeValue (Float : Type 0) : Type 0 where
  bool_value : Bool → AttributeValue Float
  int64_value : ℤ → AttributeValue Float
  double_value : Float → AttributeValue Float
  string_value : String → AttributeValue Float

pub record ProtoAttribute (Float : Type 0) : Type 0 where
  pub key : String
  pub value : AttributeValue Float

unfoldable pub parse_bool : String → Option Bool
parse_bool s = if str_eq s "true" then some true else if str_eq s "false" then some false else none

module _ {Float : Type 0} (parse_float : String → Option Float) where
  -- `none` for a text that is no float
  abbrev pub float_or_string : String → Option Float → AttributeValue Float
  float_or_string s none = string_value s
  float_or_string s (some f) = double_value f

  abbrev int_or_else : String → Option ℤ → AttributeValue Float
  int_or_else s none = float_or_string s (parse_float s)
  int_or_else s (some i) = int64_value i

  abbrev bool_or_else : String → Option Bool → AttributeValue Float
  bool_or_else s none = int_or_else s (parse_int (codes s))
  bool_or_else s (some b) = bool_value b

  unfoldable pub parse_attribute_value : String → AttributeValue Float
  parse_attribute_value s = bool_or_else s (parse_bool s)

  unfoldable pub new_attribute_from_string : String → String → ProtoAttribute Float
  unfolding parse_attribute_value
  new_attribute_from_string k v = record { key = k; value = parse_attribute_value v }
