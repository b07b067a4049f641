-- ===== src/Property/Print.antt =====
-- The standard's encoding of strings and properties, which include/lmqtt_properties.h reads.
use lmqtt_cpp.Common.{ℕ, ◌/◌, ◌%◌, ◌^◌, ◌<◌, ◌≡◌, false, List, [], ◌∷◌, ◌++◌, length, All}
use lmqtt_cpp.Utf8.Spec.{IsScalar, encode_text, any_nochar}
use lmqtt_cpp.Types.Property.{
  PropertyType, DataType, byte, two_bytes_int, four_bytes_int, utf8_string, utf8_string_pair,
  binary, property_code, get_property_data_type,
}
use lmqtt_cpp.Property.{
  PropertyValue, PropertyData, value_u8, value_u16, value_u32, value_string, value_binary,
  value_pair,
}

abbrev pub print_u16 : ℕ → List ℕ
print_u16 n = n / 256 ∷ n % 256 ∷ []

abbrev pub print_u32 : ℕ → List ℕ
print_u32 n = n / 16777216 ∷ n / 65536 % 256 ∷ n / 256 % 256 ∷ n % 256 ∷ []

-- A string or binary data, with its length in front.
abbrev pub print_block : List ℕ → List ℕ
print_block s = print_u16 (length s) ++ s

unfoldable pub print_value : PropertyValue → List ℕ
print_value (value_u8 n) = n ∷ []
print_value (value_u16 n) = print_u16 n
print_value (value_u32 n) = print_u32 n
print_value (value_string s) = print_block s
print_value (value_binary s) = print_block s
print_value (value_pair s t) = print_block s ++ print_block t

-- The text of an MQTT string: scalar values, none of them marked as no character.
abbrev pub IsText : List ℕ → Type 0
IsText s =
    (cs : List ℕ) × All IsScalar cs
    × (any_nochar cs ≡ false)
    × (s ≡ encode_text cs)
    × (length s < 65536)

-- A value of the data type, in its range.
abbrev pub IsValue : DataType → PropertyValue → Type 0
IsValue byte (value_u8 n) = n < 256
IsValue two_bytes_int (value_u16 n) = n < 65536
IsValue four_bytes_int (value_u32 n) = n < 2 ^ 32
IsValue utf8_string (value_string s) = IsText s
IsValue utf8_string_pair (value_pair s t) = IsText s × IsText t
IsValue binary (value_binary s) = length s < 65536
IsValue d v = ⊥

-- The property that get_property_data makes.
abbrev pub property : PropertyType → PropertyValue → PropertyData
property t v = record { property_type = t; content = v; data_type = get_property_data_type t }

unfoldable pub print_property : PropertyType × PropertyValue → List ℕ
print_property (t, v) = property_code t ∷ print_value v

unfoldable pub print_properties : List (PropertyType × PropertyValue) → List ℕ
print_properties [] = []
print_properties (p ∷ ps) = print_property p ++ print_properties ps
