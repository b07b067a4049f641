-- ===== src/Property.antt =====
-- include/lmqtt_properties.h: a decoded property, and get_property_data.
pub mod Print
pub mod RoundTrip
pub mod StringTotal
pub mod Total
pub mod Write
use lmqtt_cpp.Common.{◌>>◌, ◌>>=◌, ℕ, ◌+◌, Bool, not, List, [], leb, ◌==◌, Result, ok, err, require}
use lmqtt_cpp.Common.{malformed_packet}
use lmqtt_cpp.Memory.{load, load_u16, load_u32, read_bytes}
use lmqtt_cpp.Types.Property.{
  PropertyType, DataType, byte, two_bytes_int, four_bytes_int, variable_byte_int, utf8_string,
  utf8_string_alpha_num, utf8_string_pair, binary, unknown_data, get_property_data_type, same_data,
}
use lmqtt_cpp.Strings.{StringView, decode_utf8_str}

-- `T _data` of property_data<T>, with a constructor for each T of the code. A string_view stands
-- here for the bytes that it shows; they are copied out of it when a client is configured.
pub data PropertyValue : Type 0 where
  value_u8 value_u16 value_u32 : ℕ → PropertyValue
  value_string value_binary : List ℕ → PropertyValue
  value_pair : List ℕ → List ℕ → PropertyValue

-- property_data_proxy and property_data<T>.
pub record PropertyData : Type 0 where
  pub property_type : PropertyType
  pub content : PropertyValue
  pub data_type : DataType

-- check_data_type, by the value of return_code::OK.
unfoldable pub check_data_type : PropertyData → PropertyType → Bool
check_data_type d ptype = same_data (get_property_data_type ptype) d.data_type

unfoldable pub view_bytes : List ℕ → StringView → Result (List ℕ)
view_bytes mem view = read_bytes mem view.start view.size

-- The UTF8_STRING case: the length is checked against what remains, then the string is decoded.
unfoldable pub get_string : List ℕ → ℕ → ℕ → Result (List ℕ × ℕ)
get_string mem buff remaining_size = do
  require (leb 2 remaining_size) malformed_packet
  str_len ← load_u16 mem buff
  require (leb (2 + str_len) remaining_size) malformed_packet
  d ← decode_utf8_str mem buff 0
  require d.good malformed_packet
  str ← view_bytes mem d.decoded_string
  ok (str, d.offset)

-- The UTF8_STRING_PAIR case.
unfoldable pub get_string_pair : List ℕ → ℕ → ℕ → Result ((List ℕ × List ℕ) × ℕ)
get_string_pair mem buff remaining_size = do
  require (leb 2 remaining_size) malformed_packet
  str1_len ← load_u16 mem buff
  require (leb (2 + str1_len) remaining_size) malformed_packet
  d1 ← decode_utf8_str mem buff 0
  require d1.good malformed_packet
  require (leb (d1.offset + 2) remaining_size) malformed_packet
  str2_len ← load_u16 mem (buff + d1.offset)
  require (leb (4 + str1_len + str2_len) remaining_size) malformed_packet
  d2 ← decode_utf8_str mem (buff + d1.offset) d1.offset
  require d2.good malformed_packet
  first ← view_bytes mem d1.decoded_string
  second ← view_bytes mem d2.decoded_string
  ok ((first, second), d2.offset)

-- The BINARY case: `data.assign(buff + 2, buff + 2 + dataLen)`.
unfoldable pub get_binary : List ℕ → ℕ → ℕ → Result (List ℕ × ℕ)
get_binary mem buff remaining_size = do
  require (leb 2 remaining_size) malformed_packet
  data_len ← load_u16 mem buff
  require (leb (2 + data_len) remaining_size) malformed_packet
  bytes ← read_bytes mem (buff + 2) data_len
  ok (bytes, data_len + 2)

-- The `switch` on the data type, with the value that is read and `propertySize`.
unfoldable pub get_value : DataType → List ℕ → ℕ → ℕ → Result (PropertyValue × ℕ)
get_value byte mem buff remaining_size = do
  require (not (remaining_size == 0)) malformed_packet
  b ← load mem buff
  ok (value_u8 b, 1)
get_value two_bytes_int mem buff remaining_size = do
  require (leb 2 remaining_size) malformed_packet
  n ← load_u16 mem buff
  ok (value_u16 n, 2)
get_value four_bytes_int mem buff remaining_size = do
  require (leb 4 remaining_size) malformed_packet
  n ← load_u32 mem buff
  ok (value_u32 n, 4)
get_value variable_byte_int mem buff remaining_size = err malformed_packet
get_value utf8_string mem buff remaining_size = do
  (str, size) ← get_string mem buff remaining_size
  ok (value_string str, size)
get_value utf8_string_pair mem buff remaining_size = do
  ((first, second), size) ← get_string_pair mem buff remaining_size
  ok (value_pair first second, size)
get_value binary mem buff remaining_size = do
  (bytes, size) ← get_binary mem buff remaining_size
  ok (value_binary bytes, size)
get_value utf8_string_alpha_num mem buff remaining_size = err malformed_packet
get_value unknown_data mem buff remaining_size = err malformed_packet

unfoldable pub get_property_data : PropertyType → List ℕ → ℕ → ℕ → Result (PropertyData × ℕ)
get_property_data ptype mem buff remaining_size = do
  let dtype = get_property_data_type ptype
  (v, size) ← get_value dtype mem buff remaining_size
  ok (record { property_type = ptype; content = v; data_type = dtype }, size)
