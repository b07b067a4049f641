-- ===== src/Types/Payload.antt =====
-- include/lmqtt_types.h: the parts of the payload of a CONNECT packet.
use lmqtt_cpp.Common.{ℕ}
use lmqtt_cpp.Types.Property.{DataType, utf8_string, utf8_string_alpha_num, binary, unknown_data}

pub data PayloadType : Type 0 where
  client_id will_properties will_topic will_payload user_name password unknown_payload : PayloadType

-- The value of the enumerator, the index into `_payloadFlags`.
unfoldable pub payload_code : PayloadType → ℕ
payload_code client_id = 0
payload_code will_properties = 1
payload_code will_topic = 2
payload_code will_payload = 3
payload_code user_name = 4
payload_code password = 5
payload_code unknown_payload = 6

unfoldable pub get_payload_data_type : PayloadType → DataType
get_payload_data_type client_id = utf8_string_alpha_num
get_payload_data_type will_properties = unknown_data
get_payload_data_type will_topic = utf8_string
get_payload_data_type user_name = utf8_string
get_payload_data_type password = binary
get_payload_data_type will_payload = binary
get_payload_data_type unknown_payload = unknown_data
