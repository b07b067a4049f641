-- ===== src/Types/Property.antt =====
-- include/lmqtt_types.h: the property types, what data each has and which packets carry it.
use lmqtt_cpp.Common.{◌||◌, ℕ, Bool, true, false, List, [], ◌∷◌, leb, ◌==◌, if◌then◌else◌}
use lmqtt_cpp.Types.Packet.{
  PacketType, connect, connack, publish, puback, pubrec, pubrel, pubcomp, subscribe, suback,
  unsubscribe, unsuback, disconnect, auth, same_packet,
}

pub data DataType : Type 0 where
  byte two_bytes_int four_bytes_int variable_byte_int utf8_string : DataType
  utf8_string_alpha_num utf8_string_pair binary unknown_data : DataType

-- The value of the enumerator.
unfoldable pub data_code : DataType → ℕ
data_code byte = 1
data_code two_bytes_int = 2
data_code four_bytes_int = 4
data_code variable_byte_int = 5
data_code utf8_string = 6
data_code utf8_string_alpha_num = 7
data_code utf8_string_pair = 8
data_code binary = 9
data_code unknown_data = 15

unfoldable pub same_data : DataType → DataType → Bool
unfolding data_code
same_data a b = data_code a == data_code b

-- The enumerators of `property_type`, and the bytes that are none of them.
pub data PropertyType : Type 0 where
  payload_format_indicator message_expiry_interval content_type response_topic : PropertyType
  correlation_data subscription_id session_expiry_interval assigned_client_id : PropertyType
  server_keep_alive authentication_method authentication_data request_problem_information :
      PropertyType
  will_delay_interval request_response_information response_information server_reference :
      PropertyType
  reason_string receive_maximum topic_alias_maximum topic_alias maximum_qos : PropertyType
  retain_available user_property maximum_packet_size wildcard_subscription_available : PropertyType
  subscription_id_available shared_subscription_available unknown_property : PropertyType
  other_property : ℕ → PropertyType

unfoldable pub property_code : PropertyType → ℕ
property_code payload_format_indicator = 1
property_code message_expiry_interval = 2
property_code content_type = 3
property_code response_topic = 8
property_code correlation_data = 9
property_code subscription_id = 11
property_code session_expiry_interval = 17
property_code assigned_client_id = 18
property_code server_keep_alive = 19
property_code authentication_method = 21
property_code authentication_data = 22
property_code request_problem_information = 23
property_code will_delay_interval = 24
property_code request_response_information = 25
property_code response_information = 26
property_code server_reference = 28
property_code reason_string = 31
property_code receive_maximum = 33
property_code topic_alias_maximum = 34
property_code topic_alias = 35
property_code maximum_qos = 36
property_code retain_available = 37
property_code user_property = 38
property_code maximum_packet_size = 39
property_code wildcard_subscription_available = 40
property_code subscription_id_available = 41
property_code shared_subscription_available = 42
property_code unknown_property = 43
property_code (other_property n) = n

-- `static_cast<property_type>(byte)`.
unfoldable pub property_of_code : ℕ → PropertyType
property_of_code n =
    if n == 1
    then payload_format_indicator
    else if n == 2
    then message_expiry_interval
    else if n == 3
    then content_type
    else if n == 8
    then response_topic
    else if n == 9
    then correlation_data
    else if n == 11
    then subscription_id
    else if n == 17
    then session_expiry_interval
    else if n == 18
    then assigned_client_id
    else if n == 19
    then server_keep_alive
    else if n == 21
    then authentication_method
    else if n == 22
    then authentication_data
    else if n == 23
    then request_problem_information
    else if n == 24
    then will_delay_interval
    else if n == 25
    then request_response_information
    else if n == 26
    then response_information
    else if n == 28
    then server_reference
    else if n == 31
    then reason_string
    else if n == 33
    then receive_maximum
    else if n == 34
    then topic_alias_maximum
    else if n == 35
    then topic_alias
    else if n == 36
    then maximum_qos
    else if n == 37
    then retain_available
    else if n == 38
    then user_property
    else if n == 39
    then maximum_packet_size
    else if n == 40
    then wildcard_subscription_available
    else if n == 41
    then subscription_id_available
    else if n == 42
    then shared_subscription_available
    else if n == 43
    then unknown_property
    else other_property n

unfoldable pub same_property : PropertyType → PropertyType → Bool
unfolding property_code
same_property a b = property_code a == property_code b

unfoldable pub is_property_unique : PropertyType → Bool
is_property_unique payload_format_indicator = true
is_property_unique message_expiry_interval = true
is_property_unique content_type = true
is_property_unique response_topic = true
is_property_unique correlation_data = true
is_property_unique subscription_id = true
is_property_unique session_expiry_interval = true
is_property_unique assigned_client_id = true
is_property_unique server_keep_alive = true
is_property_unique authentication_method = true
is_property_unique authentication_data = true
is_property_unique request_problem_information = true
is_property_unique will_delay_interval = true
is_property_unique request_response_information = true
is_property_unique response_information = true
is_property_unique server_reference = true
is_property_unique reason_string = true
is_property_unique receive_maximum = true
is_property_unique topic_alias_maximum = true
is_property_unique topic_alias = true
is_property_unique maximum_qos = true
is_property_unique retain_available = true
is_property_unique user_property = false
is_property_unique maximum_packet_size = true
is_property_unique wildcard_subscription_available = true
is_property_unique subscription_id_available = true
is_property_unique shared_subscription_available = true
is_property_unique unknown_property = true
is_property_unique (other_property n) = true

unfoldable pub get_property_data_type : PropertyType → DataType
get_property_data_type payload_format_indicator = byte
get_property_data_type message_expiry_interval = four_bytes_int
get_property_data_type content_type = utf8_string
get_property_data_type response_topic = utf8_string
get_property_data_type correlation_data = binary
get_property_data_type subscription_id = variable_byte_int
get_property_data_type session_expiry_interval = four_bytes_int
get_property_data_type assigned_client_id = utf8_string
get_property_data_type server_keep_alive = two_bytes_int
get_property_data_type authentication_method = utf8_string
get_property_data_type authentication_data = binary
get_property_data_type request_problem_information = byte
get_property_data_type will_delay_interval = four_bytes_int
get_property_data_type request_response_information = byte
get_property_data_type response_information = utf8_string
get_property_data_type server_reference = utf8_string
get_property_data_type reason_string = utf8_string
get_property_data_type receive_maximum = two_bytes_int
get_property_data_type topic_alias_maximum = two_bytes_int
get_property_data_type topic_alias = two_bytes_int
get_property_data_type maximum_qos = byte
get_property_data_type retain_available = byte
get_property_data_type user_property = utf8_string_pair
get_property_data_type maximum_packet_size = four_bytes_int
get_property_data_type wildcard_subscription_available = byte
get_property_data_type subscription_id_available = byte
get_property_data_type shared_subscription_available = byte
get_property_data_type unknown_property = unknown_data
get_property_data_type (other_property n) = unknown_data

unfoldable pub is_property_fixed : PropertyType → Bool
unfolding data_code get_property_data_type
is_property_fixed property =
    leb (data_code (get_property_data_type property)) (data_code four_bytes_int)

-- Whether a packet of this type may carry the property.
unfoldable pub validate_packet_property_type : PropertyType → PacketType → Bool
unfolding same_packet
validate_packet_property_type payload_format_indicator packet = same_packet packet publish
validate_packet_property_type message_expiry_interval packet = same_packet packet publish
validate_packet_property_type content_type packet = same_packet packet publish
validate_packet_property_type response_topic packet = same_packet packet publish
validate_packet_property_type correlation_data packet = same_packet packet publish
validate_packet_property_type subscription_id packet =
    same_packet packet publish || same_packet packet subscribe
validate_packet_property_type session_expiry_interval packet =
    same_packet packet connect || (same_packet packet connack || same_packet packet disconnect)
validate_packet_property_type assigned_client_id packet = same_packet packet connack
validate_packet_property_type server_keep_alive packet = same_packet packet connack
validate_packet_property_type authentication_method packet =
    same_packet packet connect || (same_packet packet connack || same_packet packet auth)
validate_packet_property_type authentication_data packet =
    same_packet packet connect || (same_packet packet connack || same_packet packet auth)
validate_packet_property_type request_problem_information packet = same_packet packet connect
validate_packet_property_type will_delay_interval packet = false
validate_packet_property_type request_response_information packet = same_packet packet connect
validate_packet_property_type response_information packet = same_packet packet connack
validate_packet_property_type server_reference packet =
    same_packet packet connack || same_packet packet disconnect
validate_packet_property_type reason_string packet =
    same_packet packet connack
    || (same_packet packet puback
        || (same_packet packet pubrec
            || (same_packet packet pubrel
                || (same_packet packet pubcomp
                    || (same_packet packet suback
                        || (same_packet packet unsuback
                            || (same_packet packet disconnect || same_packet packet auth)))))))
validate_packet_property_type receive_maximum packet =
    same_packet packet connect || same_packet packet connack
validate_packet_property_type topic_alias_maximum packet =
    same_packet packet connect || same_packet packet connack
validate_packet_property_type topic_alias packet = same_packet packet publish
validate_packet_property_type maximum_qos packet = same_packet packet connack
validate_packet_property_type retain_available packet = same_packet packet connack
validate_packet_property_type user_property packet =
    same_packet packet connect
    || (same_packet packet connack
        || (same_packet packet publish
            || (same_packet packet puback
                || (same_packet packet pubrec
                    || (same_packet packet pubrel
                        || (same_packet packet pubcomp
                            || (same_packet packet subscribe
                                || (same_packet packet suback
                                    || (same_packet packet unsubscribe
                                        || (same_packet packet unsuback
                                            || (same_packet packet disconnect
                                                || same_packet packet auth)))))))))))
validate_packet_property_type maximum_packet_size packet =
    same_packet packet connect || same_packet packet connack
validate_packet_property_type wildcard_subscription_available packet = same_packet packet connack
validate_packet_property_type subscription_id_available packet = same_packet packet connack
validate_packet_property_type shared_subscription_available packet = same_packet packet connack
validate_packet_property_type unknown_property packet = false
validate_packet_property_type (other_property n) packet = false

-- The order in which create_connack_packet writes its properties.
abbrev pub connack_properties : List PropertyType
connack_properties =
    session_expiry_interval ∷ receive_maximum ∷ maximum_qos ∷ retain_available ∷ maximum_packet_size
    ∷ assigned_client_id ∷ topic_alias_maximum ∷ reason_string ∷ user_property
    ∷ wildcard_subscription_available ∷ subscription_id_available ∷ shared_subscription_available
    ∷ server_keep_alive ∷ response_information ∷ server_reference ∷ authentication_method
    ∷ authentication_data ∷ []
