-- ===== src/Property/Total.antt =====
-- get_property_data (include/lmqtt_properties.h) on any bytes: it comes back, and stays inside the
-- stretch that it is given.
use lmqtt_cpp.Common.{ℕ, ◌+◌, ◌≤◌, ◌≡◌, refl, ◌⊎◌, inl, inr, List, length, ok, err, arith}
use native.Mathlib.Decide.{dec_lt, ℕ_discrete}
use lmqtt_cpp.Common.{malformed_packet}
use lmqtt_cpp.Memory.{load_in, load_u16_in, load_u32_in}
use lmqtt_cpp.Types.Property.{
  PropertyType, DataType, byte, two_bytes_int, four_bytes_int, utf8_string, utf8_string_pair,
  binary, get_property_data_type,
}
use lmqtt_cpp.Property.{
  PropertyValue, value_u8, value_u16, value_u32, value_string, value_binary, value_pair, get_value,
  get_property_data,
}
use lmqtt_cpp.Property.Print.{property}
use lmqtt_cpp.Property.StringTotal.{
  IsQuiet, IsQuiet-IsByte, get_string_in, get_string_pair_in, get_binary_in,
}

-- The template argument that goes with the data type.
abbrev pub HasType : DataType → PropertyValue → Type 0
HasType byte (value_u8 n) = Unit
HasType two_bytes_int (value_u16 n) = Unit
HasType four_bytes_int (value_u32 n) = Unit
HasType utf8_string (value_string s) = Unit
HasType utf8_string_pair (value_pair s t) = Unit
HasType binary (value_binary s) = Unit
HasType d v = ⊥

module _ (mem : List ℕ) (q : IsQuiet mem) where
  -- The value that is read is of the property's data type.
  get_value_in :
      (dt : DataType) (p remaining : ℕ)
      → p + remaining ≤ length mem
      → (get_value dt mem p remaining ≡ err malformed_packet)
        ⊎ ((v : PropertyValue) × (n : ℕ) × (get_value dt mem p remaining ≡ ok (v, n))
            × (1 ≤ n)
            × (n ≤ remaining)
            × HasType dt v)
  unfolding get_value
  get_value_in byte p remaining h = elim (ℕ_discrete remaining 0) [
    | yes none_left ↦ inl (ground arith)
    | no some_left ↦
        let (b, e, l) = load_in mem p (omega arith) (IsQuiet-IsByte mem q) in
        inr (value_u8 b, 1, ground arith, omega arith, omega arith, tt)
  ]
  get_value_in two_bytes_int p remaining h = elim (dec_lt remaining 2) [
    | yes short ↦ inl (ground arith)
    | no long ↦
        let (n, e, l) = load_u16_in mem p (omega arith) (IsQuiet-IsByte mem q) in
        inr (value_u16 n, 2, ground arith, omega arith, omega arith, tt)
  ]
  get_value_in four_bytes_int p remaining h = elim (dec_lt remaining 4) [
    | yes short ↦ inl (ground arith)
    | no long ↦
        let (n, e) = load_u32_in mem p (omega arith) (IsQuiet-IsByte mem q) in
        inr (value_u32 n, 4, ground arith, omega arith, omega arith, tt)
  ]
  get_value_in utf8_string p remaining h = elim (get_string_in mem q p remaining h) [
    | inl e ↦ inl (rw e)
    | inr (s, n, e, lo, hi) ↦ inr (value_string s, n, rw e, lo, hi, tt)
  ]
  get_value_in utf8_string_pair p remaining h = elim (get_string_pair_in mem q p remaining h) [
    | inl e ↦ inl (rw e)
    | inr (s, n, e, lo, hi) ↦ inr (value_pair s.0 s.1, n, rw e, lo, hi, tt)
  ]
  get_value_in binary p remaining h = elim (get_binary_in mem q p remaining h) [
    | inl e ↦ inl (rw e)
    | inr (s, n, e, lo, hi) ↦ inr (value_binary s, n, rw e, lo, hi, tt)
  ]
  get_value_in dt p remaining h = inl refl

  -- On any stretch inside a buffer of bytes of which none is from 0xE0 to 0xEF and so leads a
  -- three-byte UTF-8 character, get_property_data returns MALFORMED_PACKET, or the property
  -- with a value of its data type, of a size from one up to that of the stretch.
  pub get_property_data_in :
      (t : PropertyType) (p remaining : ℕ)
      → p + remaining ≤ length mem
      → (get_property_data t mem p remaining ≡ err malformed_packet)
        ⊎ ((v : PropertyValue) × (n : ℕ) × (get_property_data t mem p remaining
              ≡ ok (property t v, n))
            × (1 ≤ n)
            × (n ≤ remaining)
            × HasType (get_property_data_type t) v)
  unfolding get_property_data
  get_property_data_in t p remaining h =
      elim (get_value_in (get_property_data_type t) p remaining h) [
        | inl e ↦ inl (rw e)
        | inr (v, n, e, lo, hi, s) ↦ inr (v, n, rw e, lo, hi, s)
      ]
