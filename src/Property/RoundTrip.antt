-- ===== src/Property/RoundTrip.antt =====
-- get_property_data (include/lmqtt_properties.h) on the encoding of a property.
use lmqtt_cpp.Common.{
  ℕ, ◌+◌, ◌/◌, ◌%◌, ◌≤◌, ◌≡◌, sym, ap, ◌∙◌, true, List, ◌++◌, length, drop, length-append,
  length-drop, ok, arith,
}
use mathlib.Core.List.{append_assoc}
use lmqtt_cpp.Memory.{
  load_u16, load_at, load_u16_at, load_u32_at, read_bytes, read_bytes_at, drop_past,
}
use lmqtt_cpp.Utf8.{is_valid_length}
use lmqtt_cpp.Utf8.Content.{is_valid_content-encode_text}
use lmqtt_cpp.Strings.{StringView, check_view, decode_utf8_str}
use lmqtt_cpp.Types.Property.{
  PropertyType, DataType, byte, two_bytes_int, four_bytes_int, utf8_string, utf8_string_pair,
  binary, get_property_data_type,
}
use lmqtt_cpp.Property.{
  PropertyValue, value_u8, value_u16, value_u32, value_string, value_binary, value_pair, view_bytes,
  get_string, get_string_pair, get_binary, get_value, get_property_data,
}
use lmqtt_cpp.Property.Print.{print_u16, print_block, print_value, IsText, IsValue, property}

abbrev pub view_at : ℕ → ℕ → StringView
view_at p n = record { start = p; size = n }

-- A text that stands at `p`.
pub check_view_text :
    (mem : List ℕ) (p : ℕ) (s rest : List ℕ)
    → drop p mem ≡ s ++ rest
    → IsText s
    → check_view mem (view_at p (length s)) ≡ ok true
unfolding check_view is_valid_length
check_view_text mem p s rest d (cs, sc, na, e, l) =
    let after = sym (drop_past mem p s rest d) in
    let d' = d ∙ ap (λ r. s ++ r) after ∙ ap (λ t. t ++ drop (p + length s) mem) e in
    let holds =
      is_valid_content-encode_text mem p (p + length s) cs (sc, d', omega (arith, ap length e)) in
    ground (arith, holds, na)

-- A block at `p`: its length, and the bytes behind that.
block_length :
    (mem : List ℕ) (p : ℕ) (s rest : List ℕ)
    → drop p mem ≡ print_block s ++ rest
    → load_u16 mem p ≡ ok (length s)
block_length mem p s rest d = load_u16_at mem p _ _ (s ++ rest) d ∙ ap ok (omega arith)

block_bytes :
    (mem : List ℕ) (p : ℕ) (s rest : List ℕ)
    → drop p mem ≡ print_block s ++ rest
    → drop (p + 2) mem ≡ s ++ rest
block_bytes mem p s rest d = drop_past mem p (print_u16 (length s)) (s ++ rest) d

pub block_read :
    (mem : List ℕ) (p : ℕ) (s rest : List ℕ)
    → drop p mem ≡ print_block s ++ rest
    → read_bytes mem (p + 2) (length s) ≡ ok s
block_read mem p s rest d =
    read_bytes_at mem (p + 2) s rest (block_bytes mem p s rest d)
      (omega (arith, length-drop p mem, ap length d))

pub decode_utf8_str_block :
    (mem : List ℕ) (p o : ℕ) (s rest : List ℕ)
    → drop p mem ≡ print_block s ++ rest
    → IsText s
    → decode_utf8_str mem p o
      ≡ ok (record {
        good = true;
        decoded_string = view_at (p + 2) (length s);
        offset = o + (2 + length s);
      })
unfolding decode_utf8_str
decode_utf8_str_block mem p o s rest d t =
    rw (
      block_length mem p s rest d,
      check_view_text mem (p + 2) s rest (block_bytes mem p s rest d) t,
    )

-- An encoded string is read back, whatever follows it.
pub get_string_block :
    (mem : List ℕ) (p remaining : ℕ) (s rest : List ℕ)
    → drop p mem ≡ print_block s ++ rest
    → IsText s
    → 2 + length s ≤ remaining
    → get_string mem p remaining ≡ ok (s, 2 + length s)
unfolding get_string view_bytes
get_string_block mem p remaining s rest d t h = ground (
  arith,
  block_length mem p s rest d,
  decode_utf8_str_block mem p 0 s rest d t,
  block_read mem p s rest d,
)

pub get_binary_block :
    (mem : List ℕ) (p remaining : ℕ) (s rest : List ℕ)
    → drop p mem ≡ print_block s ++ rest
    → 2 + length s ≤ remaining
    → get_binary mem p remaining ≡ ok (s, 2 + length s)
unfolding get_binary
get_binary_block mem p remaining s rest d h =
    ground (arith, block_length mem p s rest d, block_read mem p s rest d)

get_string_pair_block :
    (mem : List ℕ) (p remaining : ℕ) (s t rest : List ℕ)
    → drop p mem ≡ print_block s ++ (print_block t ++ rest)
    → IsText s
    → IsText t
    → 4 + length s + length t ≤ remaining
    → get_string_pair mem p remaining ≡ ok ((s, t), 4 + length s + length t)
unfolding get_string_pair view_bytes
get_string_pair_block mem p remaining s t rest d hs ht h =
    let o = 0 + (2 + length s) in
    let size : p + length (print_block s) ≡ p + o = omega arith in
    let next : drop (p + o) mem ≡ print_block t ++ rest =
      ap (λ q. drop q mem) (sym size) ∙ drop_past mem p (print_block s) (print_block t ++ rest) d in
    ground (
      arith,
      block_length mem p s (print_block t ++ rest) d,
      decode_utf8_str_block mem p 0 s (print_block t ++ rest) d hs,
      block_read mem p s (print_block t ++ rest) d,
      block_length mem (p + o) t rest next,
      decode_utf8_str_block mem (p + o) o t rest next ht,
      block_read mem (p + o) t rest next,
    )

get_value-print_value :
    (dt : DataType) (v : PropertyValue) (mem : List ℕ) (p remaining : ℕ) (rest : List ℕ)
    → IsValue dt v
    → drop p mem ≡ print_value v ++ rest
    → length (print_value v) ≤ remaining
    → get_value dt mem p remaining ≡ ok (v, length (print_value v))
unfolding get_value print_value
get_value-print_value byte (value_u8 n) mem p remaining rest h d l =
    ground (arith, load_at mem p n rest d)
get_value-print_value two_bytes_int (value_u16 n) mem p remaining rest h d l =
    ground (arith, load_u16_at mem p (n / 256) (n % 256) rest d)
get_value-print_value four_bytes_int (value_u32 n) mem p remaining rest h d l =
    ground
      (arith, load_u32_at mem p (n / 16777216) (n / 65536 % 256) (n / 256 % 256) (n % 256) rest d)
get_value-print_value utf8_string (value_string s) mem p remaining rest h d l =
    ground (arith, get_string_block mem p remaining s rest d h)
get_value-print_value utf8_string_pair (value_pair s t) mem p remaining rest h d l =
    let size = length-append s (print_block t) in
    let d' = d ∙ append_assoc (print_block s) (print_block t) rest in
    ground
      (arith, size, get_string_pair_block mem p remaining s t rest d' h.0 h.1 (omega (arith, size)))
get_value-print_value binary (value_binary s) mem p remaining rest h d l =
    ground (arith, get_binary_block mem p remaining s rest d)
get_value-print_value dt v mem p remaining rest h d l = absurd h

-- On the encoding of a value of the property's data type in its range, whatever follows it,
-- with at least its size as the remaining size, get_property_data gives back the property with
-- this value, and its size.
pub get_property_data-print_value :
    (t : PropertyType) (v : PropertyValue) (mem : List ℕ) (p remaining : ℕ) (rest : List ℕ)
    → IsValue (get_property_data_type t) v
    → drop p mem ≡ print_value v ++ rest
    → length (print_value v) ≤ remaining
    → get_property_data t mem p remaining ≡ ok (property t v, length (print_value v))
unfolding get_property_data
get_property_data-print_value t v mem p remaining rest h d l =
    rw (get_value-print_value (get_property_data_type t) v mem p remaining rest h d l)

pub print_value_pos : (v : PropertyValue) → 1 ≤ length (print_value v)
unfolding print_value
print_value_pos (value_u8 n) = omega arith
print_value_pos v = omega arith
