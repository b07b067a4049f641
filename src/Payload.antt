-- ===== src/Payload.antt =====
-- include/lmqtt_payload.h: a part of the payload of a CONNECT packet, and get_payload.
use lmqtt_cpp.Common.{◌>>=◌, ℕ, Bool, List, Result, ok, err}
use lmqtt_cpp.Types.Property.{
  DataType, byte, two_bytes_int, four_bytes_int, variable_byte_int, utf8_string,
  utf8_string_alpha_num, utf8_string_pair, binary, unknown_data, same_data,
}
use lmqtt_cpp.Common.{malformed_packet}
use lmqtt_cpp.Types.Payload.{PayloadType, get_payload_data_type}
use lmqtt_cpp.Property.{get_string, get_binary}

-- `T _data` of payload<T>.
pub data PayloadValue : Type 0 where
  payload_string payload_binary : List ℕ → PayloadValue

-- payload_proxy and payload<T>.
pub record PayloadData : Type 0 where
  pub payload_type : PayloadType
  pub content : PayloadValue
  pub data_type : DataType

unfoldable pub check_payload_type : PayloadData → PayloadType → Bool
check_payload_type d ptype = same_data (get_payload_data_type ptype) d.data_type

-- The `switch` on the data type. The string case is line for line that of get_property_data, and
-- `isAlphaNum` is not used by decode_utf8_str; so is the binary case.
unfoldable pub get_payload_value : DataType → List ℕ → ℕ → ℕ → Result (PayloadValue × ℕ)
get_payload_value utf8_string mem buff remaining_size = do
  (str, size) ← get_string mem buff remaining_size
  ok (payload_string str, size)
get_payload_value utf8_string_alpha_num mem buff remaining_size = do
  (str, size) ← get_string mem buff remaining_size
  ok (payload_string str, size)
get_payload_value binary mem buff remaining_size = do
  (bytes, size) ← get_binary mem buff remaining_size
  ok (payload_binary bytes, size)
get_payload_value byte mem buff remaining_size = err malformed_packet
get_payload_value two_bytes_int mem buff remaining_size = err malformed_packet
get_payload_value four_bytes_int mem buff remaining_size = err malformed_packet
get_payload_value variable_byte_int mem buff remaining_size = err malformed_packet
get_payload_value utf8_string_pair mem buff remaining_size = err malformed_packet
get_payload_value unknown_data mem buff remaining_size = err malformed_packet

unfoldable pub get_payload : PayloadType → List ℕ → ℕ → ℕ → Result (PayloadData × ℕ)
get_payload ptype mem buff remaining_size = do
  let dtype = get_payload_data_type ptype
  (v, size) ← get_payload_value dtype mem buff remaining_size
  ok (record { payload_type = ptype; content = v; data_type = dtype }, size)
