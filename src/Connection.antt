-- ===== src/Connection.antt =====
-- connection of include/lmqtt_connection.h: its state, and the handlers that asio calls when an
-- operation on the socket has ended. What asio hands to a handler is an argument here.
pub mod Length
pub mod Steps
pub mod Refused
pub mod Handshake
pub mod Ending
pub mod Header
pub mod Invariant
pub mod Stranded
pub mod Runs
pub mod TooLong
use lmqtt_cpp.Common.{
  ℕ, zero, suc, ◌+◌, ◌-◌, ◌*◌, ◌/◌, ◌%◌, ◌^◌, ◌≤◌, ◌<◌, ◌≡◌, refl, sym, ap, ◌∙◌, subst, ◌≢◌, ◌↔◌,
  ◌⊎◌, inl, inr, Bool, true, false, not, ◌&&◌, ◌||◌, Option, none, some, List, [], ◌∷◌, ◌++◌, map,
  bit_and, bit_or, ltb, leb, ◌==◌, if◌then◌else◌, ltb→lt, lt→ltb, le→ltb, ==_iff, ne→==, Bool-cases,
  length, get_elem?, take, drop, set, replicate, All, length-append, length-take, length-drop,
  length-set, get_elem?-set_ne, get_elem?-set_self, take-append, drop-append, drop_nil, drop-drop,
  All-append, All-drop, Result, ok, err, fault, no_fuel, ◌>>=◌, ◌>>◌, require, Returns,
  Returns-bind, >>=-ok, arith,
}
use lmqtt_cpp.Common.{ReasonCode, malformed_packet, protocol_error}
use lmqtt_cpp.Common.Eq.{Eq}
use lmqtt_cpp.VarInt.{add_group, next_mul}
use lmqtt_cpp.Types.Packet.{PacketType, connect, connack, publish, disconnect, same_packet}
use lmqtt_cpp.Config.{ClientConfig}
use lmqtt_cpp.Packet.{LmqttPacket, new_packet, create_fixed_header, reset}
use lmqtt_cpp.Packet.Connect.{decode_connect_packet_body}
use lmqtt_cpp.Packet.Publish.{decode_publish_packet_body, decode_disconnect_packet_body}
use lmqtt_cpp.Packet.Connack.{resize, create_connack_packet}
use lmqtt_cpp.TsQueue.{push_back}

-- What has been started, or posted, and has not called its handler yet.
pub data Operation : Type 0 where
  reading_header reading_body write_posted writing : Operation

abbrev pub same_operation : Operation → Operation → Bool
same_operation reading_header reading_header = true
same_operation reading_body reading_body = true
same_operation write_posted write_posted = true
same_operation writing writing = true
same_operation a b = false

pub same_operation_iff : (a b : Operation) → (same_operation a b ≡ true) ↔ (a ≡ b)
same_operation_iff reading_header reading_header = ((λ e. refl), (λ e. refl))
same_operation_iff reading_body reading_body = ((λ e. refl), (λ e. refl))
same_operation_iff write_posted write_posted = ((λ e. refl), (λ e. refl))
same_operation_iff writing writing = ((λ e. refl), (λ e. refl))
same_operation_iff a b = ((λ e. cc), (λ e. cc))

instance abbrev pub operation_eq : Eq Operation
operation_eq = record { beq = same_operation; beq_iff = same_operation_iff }

-- `self` is the address of the object, and `posted_closes` counts the closes that `disconnect` has
-- posted. Both packets share one client configuration, which `in_packet` holds.
pub record Connection : Type 0 where
  pub self : ℕ
  pub is_open : Bool
  pub is_shut : Bool
  pub has_timer : Bool
  pub is_first_packet : Bool
  pub received_data : Bool
  pub in_packet : LmqttPacket
  pub out_packet : LmqttPacket
  pub pending : List Operation
  pub posted_closes : ℕ

unfoldable pub new_connection : ℕ → ClientConfig → Bool → Connection
new_connection self cfg socket_open = record {
  self = self;
  is_open = socket_open;
  is_shut = false;
  has_timer = false;
  is_first_packet = true;
  received_data = false;
  in_packet = new_packet cfg;
  out_packet = new_packet cfg;
  pending = [];
  posted_closes = 0;
}

-- A connection, and the queue of the server that it puts itself in.
pub record Session : Type 0 where
  pub conn : Connection
  pub deletion_queue : List ℕ

-- `thrown`: an exception leaves the handler, and with it io_context::run on the server's thread.
-- `broken` is undefined behaviour. `unfinished` is no C++ outcome: a loop used up its rounds.
pub data Handled : Type 0 where
  returned : Session → Handled
  thrown broken unfinished : Handled

abbrev with_conn : (Connection → Connection) → Session → Session
with_conn f s = record s { conn = f s.conn }

abbrev pub with_in_packet : LmqttPacket → Session → Session
with_in_packet p = with_conn λ c. record c { in_packet = p }

abbrev pub with_packet_len : ℕ → LmqttPacket → LmqttPacket
with_packet_len n p = record p { header = record p.header { packet_len = n } }

abbrev pub with_control_field : ℕ → LmqttPacket → LmqttPacket
with_control_field b p = record p { header = record p.header { control_field = b } }

-- An operation is started; it is not looked at whether another one is.
abbrev pub start : Operation → Session → Session
start op = with_conn λ c. record c { pending = op ∷ c.pending }

abbrev pub close : Session → Session
close = with_conn λ c. record c { is_open = false }

unfoldable pub is_connected : Session → Bool
is_connected s = s.conn.is_open

unfoldable pub schedule_for_deletion : Session → Session
schedule_for_deletion s = record s { deletion_queue = push_back s.conn.self s.deletion_queue }

-- `_socket.close(); schedule_for_deletion();`
abbrev pub leave : Session → Session
leave s = schedule_for_deletion (close s)

abbrev pub read_fixed_header : Session → Session
read_fixed_header = start reading_header

unfoldable pub shutdown : Session → Session
unfolding is_connected
shutdown s = if is_connected s then with_conn (λ c. record c { is_shut = true }) s else s

unfoldable pub disconnect_client : Session → Session
unfolding is_connected
disconnect_client s =
    if is_connected s
    then with_conn (λ c. record c { posted_closes = c.posted_closes + 1 }) s
    else s

unfoldable pub on_close_posted : Session → Session
on_close_posted s = close (with_conn (λ c. record c { posted_closes = c.posted_closes - 1 }) s)

-- The timer's function.
unfoldable pub on_timeout : Session → Session
on_timeout s = if s.conn.received_data then s else schedule_for_deletion (shutdown s)

unfoldable pub connect_to_client : Session → Session
connect_to_client s =
    if s.conn.is_open
    then read_fixed_header (with_conn (λ c. record c { has_timer = true }) s)
    else s

-- The byte that `_socket.read_some` waits for; `none` where it throws, as it does when the socket is
-- closed, and when the peer, whose bytes to come are `stream`, has closed its end.
unfoldable pub read_some : Bool → List ℕ → Option (ℕ × List ℕ)
read_some false stream = none
read_some true [] = none
read_some true (byte ∷ stream) = some (byte, stream)

-- The `for` loop over `offset`: whether rCode is SUCCESS, and `_packetLen`.
unfoldable pub length_loop : ℕ → Bool → List ℕ → ℕ → ℕ → Option (Bool × ℕ)
length_loop zero socket_open stream packet_len mul = some (true, packet_len)
length_loop (suc rounds) socket_open stream packet_len mul = elim (read_some socket_open stream) [
  | none ↦ none
  | some (byte, rest) ↦
      let packet_len' = add_group packet_len byte mul in
      let more = length_loop rounds socket_open rest packet_len' (next_mul mul) in
      if ltb 0x200000 mul
      then some (false, packet_len')
      else if bit_and byte 0x80 == 0
      then some (true, packet_len')
      else more
]

abbrev pub packet_size_limit : ℕ
packet_size_limit = 2 ^ 10

abbrev pub with_body_size : ℕ → LmqttPacket → LmqttPacket
with_body_size n p = record p { body = resize n p.body }

-- Behind the loop.
unfoldable pub check_length : Bool → ℕ → Session → Handled
check_length good packet_len s =
    let p = with_packet_len packet_len s.conn.in_packet in
    if not good
    then returned (close (with_in_packet p s))
    else if ltb packet_size_limit packet_len
    then returned (close (with_in_packet p s))
    else returned (start reading_body (with_in_packet (with_body_size packet_len p) s))

abbrev pub after_loop : Session → Option (Bool × ℕ) → Handled
after_loop s none = thrown
after_loop s (some (good, packet_len)) = check_length good packet_len s

unfoldable pub read_length : List ℕ → Session → Handled
read_length stream s =
    after_loop s (length_loop 4 s.conn.is_open stream s.conn.in_packet.header.packet_len 1)

-- `if (_isFirstPacket)`, and what follows.
unfoldable pub check_first : List ℕ → Session → Handled
check_first stream s =
    if s.conn.is_first_packet
    then if not (same_packet s.conn.in_packet.packet_type connect)
      then returned (leave s)
      else read_length stream (with_conn (λ c. record c { is_first_packet = false }) s)
    else read_length stream s

abbrev pub is_refusal : ReasonCode → Bool
is_refusal malformed_packet = true
is_refusal protocol_error = true
is_refusal e = false

-- After create_fixed_header. A refused header closes the socket, and the handler goes on.
unfoldable pub check_header : List ℕ → Session → LmqttPacket × Result (Unit {0}) → Handled
check_header stream s (p, ok u) = check_first stream (with_in_packet p s)
check_header stream s (p, err e) =
    let s' = with_in_packet p s in check_first stream (if is_refusal e then close s' else s')
check_header stream s (p, fault) = broken
check_header stream s (p, no_fuel) = unfinished

abbrev pub got_byte : ℕ → Session → Session
got_byte byte =
    with_conn
      λ c. record c { received_data = true; in_packet = with_control_field byte c.in_packet }

-- The handler of read_fixed_header: the control byte, or none where `ec` is set, and the bytes that
-- come behind it.
unfoldable pub on_header : Option ℕ → List ℕ → Session → Handled
on_header none stream s = returned (leave s)
on_header (some byte) stream s =
    let s' = got_byte byte s in check_header stream s' (create_fixed_header s'.conn.in_packet)

-- A decoder's outcome: any code but SUCCESS leaves.
abbrev pub and_handle : LmqttPacket × Result (Unit {0}) → Session → (Session → Handled) → Handled
and_handle (p, ok u) s next = next (with_in_packet p s)
and_handle (p, err e) s next = returned (leave (with_in_packet p s))
and_handle (p, fault) s next = broken
and_handle (p, no_fuel) s next = unfinished

abbrev pub with_out_packet : LmqttPacket → Session → Session
with_out_packet p = with_conn λ c. record c { out_packet = p }

abbrev pub and_send : LmqttPacket × Result (Unit {0}) → Session → Handled
and_send (p, ok u) s = returned (start write_posted (with_out_packet p s))
and_send (p, err e) s = returned (leave (with_out_packet p s))
and_send (p, fault) s = broken
and_send (p, no_fuel) s = unfinished

-- `_outPacket`, which sees the configuration as `_inPacket` has left it.
abbrev pub shared_out : Session → LmqttPacket
shared_out s = record s.conn.out_packet { client_cfg = s.conn.in_packet.client_cfg }

abbrev pub reset_in : Session → Session
reset_in s = with_in_packet (reset s.conn.in_packet) s

-- Behind decode_connect_packet_body, decode_publish_packet_body and decode_disconnect_packet_body.
abbrev pub send_connack : Session → Handled
send_connack s = and_send (create_connack_packet (shared_out s) connack 0) (reset_in s)

abbrev pub read_on : Session → Handled
read_on s = returned (read_fixed_header (reset_in s))

abbrev pub leave_now : Session → Handled
leave_now s = returned (leave s)

unfoldable pub on_connect : Session → Handled
on_connect s = and_handle (decode_connect_packet_body s.conn.in_packet) s send_connack

unfoldable pub on_publish : Session → Handled
on_publish s = and_handle (decode_publish_packet_body s.conn.in_packet) s read_on

unfoldable pub on_disconnect : Session → Handled
on_disconnect s = and_handle (decode_disconnect_packet_body s.conn.in_packet) s leave_now

abbrev pub got_body : List ℕ → Session → Session
got_body bytes = with_conn λ c. record c { in_packet = record c.in_packet { body = bytes } }

-- The `switch` of the handler of read_packet_body. Other types have no case.
unfoldable pub body_case : PacketType → Session → Handled
body_case connect s = on_connect s
body_case publish s = on_publish s
body_case disconnect s = on_disconnect s
body_case t s = returned s

unfoldable pub handle_body : Session → Handled
handle_body s = body_case s.conn.in_packet.packet_type s

-- The handler of read_packet_body: the body, or none where `ec` is set.
unfoldable pub on_body : Option (List ℕ) → Session → Handled
on_body none s = returned (close s)
on_body (some bytes) s = handle_body (got_body bytes s)

-- The posted function of send_packet, which calls write_packet.
unfoldable pub on_write_posted : Session → Handled
on_write_posted s = returned (start writing s)

-- The handler of write_packet.
unfoldable pub on_written : Bool → Session → Handled
on_written true s = returned (read_fixed_header s)
on_written false s = returned (close s)

-- Never called. `read_byte` hands the address of its own variable to an operation that ends when it
-- has returned, and returns the variable, which nobody has set.
unfoldable pub read_byte : Session → Handled
read_byte s = broken

-- Never called; the body of configure_client is a comment.
unfoldable pub configure_client : Session → Session
configure_client s = s

unfoldable pub read_packet : Session → Session
read_packet s = elim s.conn.in_packet.packet_type [
  | connect ↦ read_fixed_header (configure_client s)
  | _ ↦ read_fixed_header s
]
