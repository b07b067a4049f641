-- ===== src/Types/Packet.antt =====
-- include/lmqtt_types.h: the packet types, and who may send them.
use Prim.Native.String.{String}
use lmqtt_cpp.Common.{◌||◌, ℕ, Bool, true, false, ◌==◌, if◌then◌else◌}

-- The enumerators of `packet_type`, UNKNOWN last.
pub data PacketType : Type 0 where
  reserved connect connack publish puback pubrec pubrel pubcomp subscribe suback : PacketType
  unsubscribe unsuback pingreq pingresp disconnect auth unknown_packet : PacketType

-- The value of the enumerator.
unfoldable pub packet_code : PacketType → ℕ
packet_code reserved = 0
packet_code connect = 1
packet_code connack = 2
packet_code publish = 3
packet_code puback = 4
packet_code pubrec = 5
packet_code pubrel = 6
packet_code pubcomp = 7
packet_code subscribe = 8
packet_code suback = 9
packet_code unsubscribe = 10
packet_code unsuback = 11
packet_code pingreq = 12
packet_code pingresp = 13
packet_code disconnect = 14
packet_code auth = 15
packet_code unknown_packet = 16

-- `static_cast<packet_type>(ptype)`, for a `ptype` of four bits.
unfoldable pub packet_of_code : ℕ → PacketType
packet_of_code n =
    if n == 0
    then reserved
    else if n == 1
    then connect
    else if n == 2
    then connack
    else if n == 3
    then publish
    else if n == 4
    then puback
    else if n == 5
    then pubrec
    else if n == 6
    then pubrel
    else if n == 7
    then pubcomp
    else if n == 8
    then subscribe
    else if n == 9
    then suback
    else if n == 10
    then unsubscribe
    else if n == 11
    then unsuback
    else if n == 12
    then pingreq
    else if n == 13
    then pingresp
    else if n == 14
    then disconnect
    else if n == 15
    then auth
    else unknown_packet

-- `==` on the enumeration.
unfoldable pub same_packet : PacketType → PacketType → Bool
unfolding packet_code
same_packet a b = packet_code a == packet_code b

pub data PacketOwner : Type 0 where
  server client both none_owner : PacketOwner

unfoldable pub get_packet_owner : PacketType → PacketOwner
get_packet_owner reserved = none_owner
get_packet_owner connect = client
get_packet_owner connack = server
get_packet_owner publish = both
get_packet_owner puback = both
get_packet_owner pubrec = both
get_packet_owner pubrel = both
get_packet_owner pubcomp = both
get_packet_owner subscribe = client
get_packet_owner suback = both
get_packet_owner unsubscribe = client
get_packet_owner unsuback = server
get_packet_owner pingreq = client
get_packet_owner pingresp = server
get_packet_owner disconnect = both
get_packet_owner auth = both
get_packet_owner unknown_packet = none_owner

abbrev is_owner : PacketOwner → PacketOwner → Bool
is_owner server server = true
is_owner client client = true
is_owner both both = true
is_owner none_owner none_owner = true
is_owner a b = false

unfoldable pub is_server_packet : PacketType → Bool
unfolding get_packet_owner
is_server_packet ptype =
    is_owner (get_packet_owner ptype) server || is_owner (get_packet_owner ptype) both

unfoldable pub is_client_packet : PacketType → Bool
unfolding get_packet_owner
is_client_packet ptype =
    is_owner (get_packet_owner ptype) client || is_owner (get_packet_owner ptype) both

-- The enumerators of `packet_flag` that the code uses.
abbrev pub connect_flag : ℕ
connect_flag = 0

abbrev pub connack_flag : ℕ
connack_flag = 0

abbrev pub disconnect_flag : ℕ
disconnect_flag = 0

-- The names in the log.
unfoldable pub to_string : PacketType → String
to_string reserved = "RESERVED"
to_string connect = "CONNECT"
to_string connack = "CONNACK"
to_string publish = "PUBLISH"
to_string puback = "PUBACK"
to_string pubrec = "PUBREC"
to_string pubrel = "PUBREL"
to_string pubcomp = "PUBCOMP"
to_string subscribe = "SUBSCRIBE"
to_string suback = "SUBACK"
to_string unsubscribe = "UNSUBSCRIBE"
to_string unsuback = "UNSUBACK"
to_string pingreq = "PINGREQ"
to_string pingresp = "PINGRESP"
to_string disconnect = "DISCONNECT"
to_string auth = "AUTH"
to_string unknown_packet = "UNKNOWN"
