-- ===== src/Tests/Packets.antt =====
-- The decoders of include/lmqtt_packet.h on small packets.
use lmqtt_cpp.Types.Packet.{publish}
use lmqtt_cpp.Utf8.{has_wildcard}
use lmqtt_cpp.Types.Packet.{connack}
use lmqtt_cpp.Property.Write.{check_string, store, store_all}
use lmqtt_cpp.Config.FillPrint.{IsPlain}
use lmqtt_cpp.Packet.Connack.{create_connack_packet, create_short_packet}
use lmqtt_cpp.Packet.ConnackPrint.{connack_packet, create_connack_packet-print}
use lmqtt_cpp.Common.{
  ℕ, ◌≡◌, refl, ◌≢◌, true, false, none, some, List, [], ◌∷◌, take, ok, fault, Returns, arith,
}
use lmqtt_cpp.Utf8.Spec.{encode_text, encode_char, any_nochar, is_nochar}
use lmqtt_cpp.VarInt.Spec.{var_bytes}
use lmqtt_cpp.Types.Packet.{connect, same_packet, packet_code}
use lmqtt_cpp.Types.Property
use lmqtt_cpp.Types.Property.{
  property_code, is_property_unique, validate_packet_property_type, get_property_data_type,
}
use lmqtt_cpp.Property.{value_u16}
use lmqtt_cpp.Property.Print.{print_value, print_property, print_properties}
use lmqtt_cpp.Config.{ClientConfig, new_client_config, new_will_config}
use lmqtt_cpp.Types.Payload
use lmqtt_cpp.Packet.Payload.{payload_loop}
use lmqtt_cpp.Packet.WillRead.{payload_loop-lost_topic}
use lmqtt_cpp.Config.Total.{IsSafe}
use lmqtt_cpp.Packet.{LmqttPacket, new_packet}
use lmqtt_cpp.Packet.Header.{IsHeaderRead, create_fixed_header-IsHeaderRead}
use lmqtt_cpp.Packet.Properties.{and_then, contains, decode_properties}
use lmqtt_cpp.Packet.PropertyList.{apply_all, decode_properties-print}
use lmqtt_cpp.Packet.PropertiesTotal.{decode_properties-IsSafe}
use lmqtt_cpp.Packet.Connect.{decode_connect_packet_body, with_cfg}
use lmqtt_cpp.Packet.ConnectPrint.{
  ConnectMessage, print_connect, IsMessage, flagged, identified, expected_flags,
}
use lmqtt_cpp.Packet.ConnectRead.{received, decode_connect_packet_body-print}
use lmqtt_cpp.Packet.ConnectTotal.{
  decode_connect_packet_body-Returns, decode_connect_packet_body-will_cfg,
  decode_connect_packet_body-take,
}

abbrev packet : List ℕ → LmqttPacket
packet bytes = record (new_packet new_client_config) { body = bytes; packet_type = connect }

-- Client "ab", user "u", keep alive 60, receive maximum 10.
abbrev pub message : ConnectMessage
message = record {
  clean_start = true;
  keep_alive = 60;
  properties = (Property.receive_maximum, value_u16 10) ∷ [];
  client_id = b'a' ∷ b'b' ∷ [];
  user_name = some (b'u' ∷ []);
}

abbrev message_bytes : List ℕ
message_bytes =
    0 ∷ 4 ∷ b'M' ∷ b'Q' ∷ b'T' ∷ b'T' ∷ 5 ∷ 0x82 ∷ 0 ∷ 60 ∷ 3 ∷ 0x21 ∷ 0 ∷ 10 ∷ 0 ∷ 2 ∷ b'a' ∷ b'b'
    ∷ 0 ∷ 1 ∷ b'u' ∷ []

pub print_connect_run : print_connect message ≡ message_bytes
unfolding print_connect var_bytes print_properties print_property print_value property_code
print_connect_run = refl

pub message-IsMessage : IsMessage message
unfolding print_connect var_bytes print_properties print_property print_value property_code
    validate_packet_property_type same_packet packet_code is_property_unique contains
    get_property_data_type encode_text encode_char any_nochar is_nochar
message-IsMessage = record {
  times = omega arith;
  carried = (refl, refl, omega arith, tt);
  short = omega arith;
  named = (b'a' ∷ b'b' ∷ [], ground arith, refl, refl, omega arith);
  users = (b'u' ∷ [], ground arith, refl, refl, omega arith);
}

decode_connect_packet_body-print_example :
    decode_connect_packet_body (received (new_packet new_client_config) message)
    ≡ with_cfg
        (record (received (new_packet new_client_config) message) {
          payload_flags = expected_flags message.user_name;
        })
        (and_then
          (apply_all false (flagged message new_client_config) message.properties)
          λ c' u. (identified message c', ok tt))
decode_connect_packet_body-print_example =
    decode_connect_packet_body-print (new_packet new_client_config) message message-IsMessage

decode_connect_packet_body-Returns_example :
    Returns (decode_connect_packet_body (packet message_bytes)).1
decode_connect_packet_body-Returns_example =
    decode_connect_packet_body-Returns (packet message_bytes) (ground arith) (omega arith)
      (omega arith)

decode_connect_packet_body-take_example :
    (decode_connect_packet_body
      (record (new_packet new_client_config) { body = take 9 (print_connect message) })).1
    ≡ fault
decode_connect_packet_body-take_example =
    decode_connect_packet_body-take (new_packet new_client_config) message 9 (omega arith)

create_fixed_header-IsHeaderRead_example : IsHeaderRead (record (new_packet new_client_config) {
  header = record { control_field = 0xc0; packet_len = 0 };
})
create_fixed_header-IsHeaderRead_example =
    create_fixed_header-IsHeaderRead
      (record (new_packet new_client_config) {
        header = record { control_field = 0xc0; packet_len = 0 };
      })
      (omega arith)

decode_properties-print_example :
    decode_properties connect (0x21 ∷ 0 ∷ 10 ∷ 7 ∷ []) 0 3 false new_client_config
    ≡ apply_all false new_client_config message.properties
unfolding print_properties print_property print_value property_code validate_packet_property_type
    same_packet packet_code is_property_unique contains get_property_data_type
decode_properties-print_example =
    decode_properties-print connect (0x21 ∷ 0 ∷ 10 ∷ 7 ∷ []) 0 false new_client_config
      message.properties (7 ∷ []) (refl, refl, omega arith, tt) refl (omega arith) (omega arith)

decode_properties-IsSafe_example :
    IsSafe (decode_properties connect (0x21 ∷ 0 ∷ 10 ∷ 7 ∷ []) 0 3 false new_client_config)
decode_properties-IsSafe_example =
    decode_properties-IsSafe (0x21 ∷ 0 ∷ 10 ∷ 7 ∷ []) (ground arith) connect 0 3 false
      new_client_config (λ e. absurd (omega arith)) (omega arith)

-- A will with no properties, no topic and the payload "p".
abbrev will_bytes : List ℕ
will_bytes =
    0 ∷ 4 ∷ b'M' ∷ b'Q' ∷ b'T' ∷ b'T' ∷ 5 ∷ 0x06 ∷ 0 ∷ 60 ∷ 0 ∷ 0 ∷ 2 ∷ b'a' ∷ b'b' ∷ 0 ∷ 0 ∷ 0 ∷ 0
    ∷ 1 ∷ b'p' ∷ []

decode_connect_packet_body-will_cfg_example :
    (decode_connect_packet_body (packet will_bytes)).0.client_cfg.will_cfg ≢ none
unfolding decode_connect_packet_body lmqtt_cpp.Packet.Connect.check_protocol lmqtt_cpp.Memory.load
    lmqtt_cpp.Memory.read_bytes lmqtt_cpp.Packet.Connect.read_connect_flags
    lmqtt_cpp.Packet.Connect.read_will_flags lmqtt_cpp.Packet.Connect.decode_after_flags
    lmqtt_cpp.Memory.load_u16 lmqtt_cpp.Packet.Connect.decode_rest
    lmqtt_cpp.VarInt.decode_variable_int lmqtt_cpp.VarInt.decode_loop decode_properties
    lmqtt_cpp.Packet.Properties.properties_loop lmqtt_cpp.Packet.Payload.decode_payload
    lmqtt_cpp.Packet.Payload.payload_loop lmqtt_cpp.Packet.Connect.read_user_flags
    lmqtt_cpp.Packet.Payload.payload_step lmqtt_cpp.Packet.Payload.payload_part
    lmqtt_cpp.Config.Payload.configure_part lmqtt_cpp.Config.Payload.configure_payload
    lmqtt_cpp.Config.init_will_cfg lmqtt_cpp.Packet.Payload.will_properties_part
    lmqtt_cpp.Payload.check_payload_type lmqtt_cpp.Payload.get_payload
    lmqtt_cpp.Payload.get_payload_value lmqtt_cpp.Property.get_binary lmqtt_cpp.Property.get_string
    lmqtt_cpp.Property.view_bytes lmqtt_cpp.Strings.check_view lmqtt_cpp.Strings.decode_utf8_str
    lmqtt_cpp.Types.Payload.get_payload_data_type lmqtt_cpp.Types.Payload.payload_code
    Property.data_code Property.same_data lmqtt_cpp.Utf8.check_char lmqtt_cpp.Utf8.check_lead
    lmqtt_cpp.Utf8.check_one lmqtt_cpp.Utf8.is_valid_content lmqtt_cpp.Utf8.is_valid_length
    lmqtt_cpp.Utf8.scan
decode_connect_packet_body-will_cfg_example =
    decode_connect_packet_body-will_cfg (packet will_bytes) (ground arith) (omega arith)
      (omega arith) refl refl

-- A client with a will that is not set yet.
abbrev with_will : ClientConfig
with_will = record new_client_config { will_flag = 1; will_cfg = some new_will_config }

payload_loop-lost_topic_example :
    payload_loop
      (Payload.will_properties ∷ Payload.will_topic ∷ Payload.will_payload ∷ [])
      connect
      (0 ∷ 0 ∷ 1 ∷ b't' ∷ 0 ∷ 1 ∷ b'p' ∷ [])
      0
      with_will
    ≡ payload_loop
        (Payload.will_payload ∷ [])
        connect
        (0 ∷ 0 ∷ 1 ∷ b't' ∷ 0 ∷ 1 ∷ b'p' ∷ [])
        2
        (record with_will { will_cfg = some (record new_will_config { topic = [] }) })
payload_loop-lost_topic_example =
    payload_loop-lost_topic (Payload.will_payload ∷ []) connect
      (0 ∷ 0 ∷ 1 ∷ b't' ∷ 0 ∷ 1 ∷ b'p' ∷ []) 0 with_will new_will_config (b't' ∷ [])
      (0 ∷ 1 ∷ b'p' ∷ []) refl (omega arith) (omega arith) refl refl

-- A client with an identifier and the default configuration.
abbrev plain_client : ClientConfig
plain_client = record new_client_config { client_id = b'a' ∷ b'b' ∷ [] }

plain_client-IsPlain : IsPlain plain_client
unfolding check_string lmqtt_cpp.Utf8.is_valid_content lmqtt_cpp.Utf8.scan lmqtt_cpp.Utf8.check_char
    lmqtt_cpp.Utf8.check_lead lmqtt_cpp.Utf8.check_one lmqtt_cpp.Memory.load
plain_client-IsPlain = record {
  named = λ e. cc;
  unassigned = refl;
  no_users = refl;
  text = refl;
  short = omega arith;
}

create_connack_packet-print_example :
    create_connack_packet (new_packet plain_client) connack 0
    ≡ (record (new_packet plain_client) { body = connack_packet plain_client 0 }, ok tt)
create_connack_packet-print_example =
    create_connack_packet-print (new_packet plain_client) 0 plain_client-IsPlain (omega arith)

create_short_packet_run :
    create_short_packet (new_packet plain_client)
    ≡ (record (new_packet plain_client) { body = 0x20 ∷ 2 ∷ 0 ∷ 0 ∷ [] }, ok tt)
unfolding create_short_packet store_all store
create_short_packet_run = refl

-- Topic "t", message "hi".
abbrev publish_packet : LmqttPacket
publish_packet = record (new_packet new_client_config) {
  body = 0 ∷ 1 ∷ b't' ∷ 0 ∷ b'h' ∷ b'i' ∷ [];
  packet_type = publish;
}

-- A message with a number sign is refused.
has_wildcard_run : has_wildcard (b'a' ∷ b'#' ∷ []) ≡ true
unfolding has_wildcard
has_wildcard_run = refl
