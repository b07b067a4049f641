-- ===== src/Packet.antt =====
-- include/lmqtt_packet.h: a packet, its fixed header, and the parts that the decoders share.
pub mod Properties
pub mod Header
pub mod Payload
pub mod Connect
pub mod PropertyList
pub mod ConnectPrint
pub mod ConnectRead
pub mod PropertiesTotal
pub mod PayloadTotal
pub mod ConnectTotal
pub mod WillRead
pub mod Publish
pub mod PublishRead
pub mod Connack
pub mod FillLoop
pub mod ConnackPrint
use Prim.Native.String.{String}
use lmqtt_cpp.Common.{
  ℕ, ◌+◌, ◌/◌, Bool, true, false, ◌&&◌, Option, none, some, List, [], ◌∷◌, bit_and, ltb, leb, ◌==◌,
  if◌then◌else◌, length, replicate, Result, ok, err, require,
}
use lmqtt_cpp.Common.{malformed_packet}
use lmqtt_cpp.Types.Packet.{
  PacketType, reserved, connect, connack, publish, puback, pubrec, pubrel, pubcomp, subscribe,
  suback, unsubscribe, unsuback, pingreq, pingresp, disconnect, auth, unknown_packet,
  packet_of_code, connect_flag, connack_flag, disconnect_flag, to_string,
}
use lmqtt_cpp.Types.Payload.{PayloadType, client_id, unknown_payload}
use lmqtt_cpp.Config.{ClientConfig}

-- fixed_header.
pub record FixedHeader : Type 0 where
  pub control_field : ℕ
  pub packet_len : ℕ

unfoldable pub header_size : FixedHeader → ℕ
header_size h =
    if leb 0x200000 h.packet_len
    then 5
    else if leb 0x4000 h.packet_len
    then 4
    else if leb 0x80 h.packet_len
    then 3
    else 2

-- lmqtt_packet, with the client configuration that it shares with its connection.
pub record LmqttPacket : Type 0 where
  pub header : FixedHeader
  pub body : List ℕ
  pub packet_type : PacketType
  pub client_cfg : ClientConfig
  pub payload_flags : List PayloadType

abbrev pub new_packet : ClientConfig → LmqttPacket
new_packet c = record {
  header = record { control_field = 0; packet_len = 0 };
  body = [];
  packet_type = unknown_packet;
  client_cfg = c;
  payload_flags =
      client_id ∷ unknown_payload ∷ unknown_payload ∷ unknown_payload ∷ unknown_payload
      ∷ unknown_payload ∷ [];
}

-- `reset`: the body keeps its size, and the payload flags stay as they are.
unfoldable pub reset : LmqttPacket → LmqttPacket
reset p = record p {
  header = record { control_field = 0; packet_len = 0 };
  packet_type = unknown_packet;
  body = replicate (length p.body) 0;
}

unfoldable pub packet_size : LmqttPacket → ℕ
packet_size p = header_size p.header + length p.body

-- The `switch` of create_fixed_header over the upper four bits, with the lower four: the type that
-- is stored, if any is, and the code. The cases from PUBACK to DISCONNECT share one body.
abbrev pub Typed : Type 0
Typed = Option PacketType × Result (Unit {0})

abbrev pub as_disconnect : ℕ → Typed
as_disconnect pflag =
    if pflag == disconnect_flag then (some disconnect, ok tt) else (none, err malformed_packet)

unfoldable pub header_case : PacketType → ℕ → Typed
header_case reserved pflag = (none, err malformed_packet)
header_case connect pflag = (some connect, require (pflag == connect_flag) malformed_packet)
header_case connack pflag = (some connack, require (pflag == connack_flag) malformed_packet)
header_case publish pflag =
    (some publish, require (bit_and (pflag / 2) 0x3 == 0 && pflag / 8 == 0) malformed_packet)
header_case puback pflag = as_disconnect pflag
header_case pubrec pflag = as_disconnect pflag
header_case pubrel pflag = as_disconnect pflag
header_case pubcomp pflag = as_disconnect pflag
header_case subscribe pflag = as_disconnect pflag
header_case suback pflag = as_disconnect pflag
header_case unsubscribe pflag = as_disconnect pflag
header_case unsuback pflag = as_disconnect pflag
header_case pingreq pflag = as_disconnect pflag
header_case pingresp pflag = as_disconnect pflag
header_case disconnect pflag = as_disconnect pflag
header_case auth pflag = (none, err malformed_packet)
header_case unknown_packet pflag = (none, err malformed_packet)

abbrev pub stored : LmqttPacket → Typed → LmqttPacket × Result (Unit {0})
stored p (none, r) = (p, r)
stored p (some t, r) = (record p { packet_type = t }, r)

unfoldable pub create_fixed_header : LmqttPacket → LmqttPacket × Result (Unit {0})
create_fixed_header p =
    let field = p.header.control_field in
    stored p (header_case (packet_of_code (field / 16)) (bit_and field 0xf))

unfoldable pub has_packet_id : LmqttPacket → Bool
has_packet_id p = elim p.packet_type [
  | connect ↦ false
  | connack ↦ false
  | publish ↦ ltb 0 p.client_cfg.qos
  | puback ↦ true
  | pubrec ↦ true
  | pubrel ↦ true
  | pubcomp ↦ true
  | subscribe ↦ true
  | suback ↦ true
  | unsubscribe ↦ true
  | unsuback ↦ true
  | _ ↦ false
]

-- Its `switch` has the same cases as that of to_string.
unfoldable pub get_type_string : LmqttPacket → String
get_type_string p = to_string p.packet_type
