-- ===== src/Schema/SpecialTypes.antt =====
-- pkgs/schema/types.go: the composite types of the database.
use Prim.Native.String.{◌++◌ as append}
use spectra_gnoland_indexer.Common.{String, List, [], ◌∷◌}
use spectra_gnoland_indexer.DbInit.{StructField, field}

pub record DbSpecialType : Type 0 where
  pub type_name : String
  pub fields : List StructField

abbrev special_field : String → String → String → StructField
special_field name db dbtype = field name db dbtype "" "" ""

abbrev amount_type : DbSpecialType
amount_type = record {
  type_name = "amount";
  fields = special_field "Amount" "amount" "NUMERIC" ∷ special_field "Denom" "denom" "TEXT" ∷ [];
}

abbrev attribute_type : DbSpecialType
attribute_type = record {
  type_name = "attribute";
  fields = special_field "Key" "key" "TEXT" ∷ special_field "Value" "value" "TEXT" ∷ [];
}

abbrev event_type : DbSpecialType
event_type = record {
  type_name = "event";
  fields =
      special_field "AtType" "at_type" "TEXT"
      ∷ special_field "Type" "type" "TEXT"
      ∷ special_field "Attributes" "attributes" "attribute[]"
      ∷ special_field "PkgPath" "pkg_path" "TEXT"
      ∷ [];
}

unfoldable pub special_types : List DbSpecialType
special_types = amount_type ∷ attribute_type ∷ event_type ∷ []

-- each type with the type of its arrays, and the enumeration of the chains
unfoldable custom_type_names : List String
custom_type_names =
    amount_type.type_name
    ∷ append "_" amount_type.type_name
    ∷ attribute_type.type_name
    ∷ append "_" attribute_type.type_name
    ∷ event_type.type_name
    ∷ append "_" event_type.type_name
    ∷ "chain_name"
    ∷ []
