-- ===== src/Config.antt =====
-- include/lmqtt_client_config.h and include/lmqtt_will_config.h: the state of a client, and the
-- functions that set it from decoded properties and payload parts.
pub mod Will
pub mod Payload
pub mod Total
pub mod Fill
pub mod FillPrint
use lmqtt_cpp.Common.{
  ℕ, Bool, true, false, not, Option, none, some, List, [], ◌∷◌, ◌++◌, ltb, ◌==◌, if◌then◌else◌,
  Result, ok, err, fault, no_fuel, require,
}
use lmqtt_cpp.Common.{protocol_error}
use lmqtt_cpp.Types.Property.{
  PropertyType, payload_format_indicator, message_expiry_interval, content_type, response_topic,
  correlation_data, session_expiry_interval, authentication_method, authentication_data,
  request_problem_information, will_delay_interval, request_response_information, receive_maximum,
  topic_alias_maximum, user_property, maximum_packet_size,
}
use lmqtt_cpp.Property.{
  PropertyValue, PropertyData, value_u8, value_u16, value_u32, value_string, value_binary,
  value_pair, check_data_type,
}

-- will_config. A std::string is a list of bytes.
pub record WillConfig : Type 0 where
  pub will_delay_interval : ℕ
  pub payload_format_indicator : ℕ
  pub message_expiry_interval : ℕ
  pub content_type : List ℕ
  pub response_topic : List ℕ
  pub correlation_data : List ℕ
  pub user_proprieties : List (List ℕ × List ℕ)
  pub topic : List ℕ
  pub will_payload : List ℕ

abbrev pub new_will_config : WillConfig
new_will_config = record {
  will_delay_interval = 0;
  payload_format_indicator = 0;
  message_expiry_interval = 0;
  content_type = [];
  response_topic = [];
  correlation_data = [];
  user_proprieties = [];
  topic = [];
  will_payload = [];
}

-- client_config, its fields in the source's order. `_willCfg` is a pointer, null at first.
pub record ClientConfig : Type 0 where
  pub session_expiry_interval : ℕ
  pub receive_maximum : ℕ
  pub maximum_qos : ℕ
  pub retain_available : ℕ
  pub maximum_packet_size : ℕ
  pub topic_alias_maximum : ℕ
  pub request_response_information : ℕ
  pub request_problem_information : ℕ
  pub user_proprieties : List (List ℕ × List ℕ)
  pub last_topic : List ℕ
  pub auth_method : List ℕ
  pub auth_data : List ℕ
  pub user_name : List ℕ
  pub password : List ℕ
  pub wildcard_subscription : ℕ
  pub client_id : List ℕ
  pub assigned_client_id : Bool
  pub reason_string : List ℕ
  pub qos : ℕ
  pub clean_start : ℕ
  pub will_flag : ℕ
  pub will_qos : ℕ
  pub will_retain : ℕ
  pub password_flag : ℕ
  pub user_name_flag : ℕ
  pub keep_alive : ℕ
  pub will_cfg : Option WillConfig

-- "Unspecified Error"
abbrev unspecified_error_text : List ℕ
unspecified_error_text =
    b'U' ∷ b'n' ∷ b's' ∷ b'p' ∷ b'e' ∷ b'c' ∷ b'i' ∷ b'f' ∷ b'i' ∷ b'e' ∷ b'd' ∷ b' ' ∷ b'E' ∷ b'r'
    ∷ b'r' ∷ b'o' ∷ b'r' ∷ []

abbrev pub new_client_config : ClientConfig
new_client_config = record {
  session_expiry_interval = 0xaabbccdd;
  receive_maximum = 0xffff;
  maximum_qos = 1;
  retain_available = 1;
  maximum_packet_size = 0xffffffff;
  topic_alias_maximum = 0;
  request_response_information = 0;
  request_problem_information = 0;
  user_proprieties = [];
  last_topic = [];
  auth_method = [];
  auth_data = [];
  user_name = [];
  password = [];
  wildcard_subscription = 1;
  client_id = [];
  assigned_client_id = false;
  reason_string = unspecified_error_text;
  qos = 0;
  clean_start = 0;
  will_flag = 0;
  will_qos = 0;
  will_retain = 0;
  password_flag = 0;
  user_name_flag = 0;
  keep_alive = 0;
  will_cfg = none;
}

-- A method of client_config gives back the object, which also an error may leave changed.
abbrev pub Configured : Type 0
Configured = ClientConfig × Result (Unit {0})

-- `static_cast<property_data<T>*>(property.get())` and `get_data`. A T that is not the object's own
-- would be undefined behaviour.
abbrev pub as_u8 : PropertyValue → Result ℕ
as_u8 (value_u8 n) = ok n
as_u8 v = fault

abbrev pub as_u16 : PropertyValue → Result ℕ
as_u16 (value_u16 n) = ok n
as_u16 v = fault

abbrev pub as_u32 : PropertyValue → Result ℕ
as_u32 (value_u32 n) = ok n
as_u32 v = fault

abbrev pub as_string : PropertyValue → Result (List ℕ)
as_string (value_string s) = ok s
as_string v = fault

abbrev pub as_binary : PropertyValue → Result (List ℕ)
as_binary (value_binary s) = ok s
as_binary v = fault

abbrev pub as_pair : PropertyValue → Result (List ℕ × List ℕ)
as_pair (value_pair s t) = ok (s, t)
as_pair v = fault

-- The cast, the check of the data type, and then the data.
abbrev pub data_of :
    {A : Type 0} → (PropertyValue → Result A) → PropertyData → PropertyType → Result A
data_of cast d ptype = if check_data_type d ptype then cast d.content else err protocol_error

-- Go on with the data, or leave the object as it is.
abbrev pub given {ℓ} :
    {S : Type ℓ} {A : Type 0} → S → Result A → (A → S × Result (Unit {0})) → S × Result (Unit {0})
given s (ok a) k = k a
given s (err e) k = (s, err e)
given s fault k = (s, fault)
given s no_fuel k = (s, no_fuel)

abbrev is_empty : List ℕ → Bool
is_empty [] = true
is_empty (x ∷ xs) = false

-- The `switch` of configure_propriety.
unfoldable pub configure : PropertyType → ClientConfig → PropertyData → Configured
configure session_expiry_interval c d =
    given c (data_of as_u32 d session_expiry_interval)
      λ n. (record c { session_expiry_interval = n }, ok tt)
configure receive_maximum c d =
    given c (data_of as_u16 d receive_maximum)
      λ n. (record c { receive_maximum = n }, require (not (n == 0)) protocol_error)
configure maximum_packet_size c d =
    given c (data_of as_u32 d maximum_packet_size)
      λ n. (record c { maximum_packet_size = n }, require (not (n == 0)) protocol_error)
configure topic_alias_maximum c d =
    given c (data_of as_u16 d topic_alias_maximum)
      λ n. (record c { topic_alias_maximum = n }, ok tt)
configure request_response_information c d =
    given c (data_of as_u8 d request_response_information)
      λ n. (record c { request_response_information = n }, require (not (ltb 1 n)) protocol_error)
configure request_problem_information c d =
    given c (data_of as_u8 d request_problem_information)
      λ n. (record c { request_problem_information = n }, require (not (ltb 1 n)) protocol_error)
configure user_property c d =
    given c (data_of as_pair d user_property)
      λ p. (record c { user_proprieties = c.user_proprieties ++ p ∷ [] }, ok tt)
configure authentication_method c d =
    given c (data_of as_string d authentication_method) λ s. (record c { auth_method = s }, ok tt)
configure authentication_data c d = given c (data_of as_binary d authentication_data) λ s.
    if is_empty c.auth_method then (c, err protocol_error) else (record c { auth_data = s }, ok tt)
configure other c d = (c, err protocol_error)

unfoldable pub configure_propriety : ClientConfig → PropertyData → Configured
configure_propriety c d = configure d.property_type c d

unfoldable pub init_will_cfg : ClientConfig → ClientConfig
init_will_cfg c = record c { will_cfg = some new_will_config }

unfoldable pub set_client_id : ClientConfig → List ℕ → ClientConfig
set_client_id c s = record c { client_id = s }
