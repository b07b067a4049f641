-- ===== src/Connection/Refused.antt =====
-- Control bytes that create_fixed_header refuses, in the handler of read_fixed_header
-- (include/lmqtt_connection.h), which closes the socket and reads on from it.
use lmqtt_cpp.Common.{
  if_either, ℕ, ◌/◌, ◌%◌, ◌<◌, ◌≡◌, refl, sym, ap, ◌∙◌, subst, ◌≢◌, inl, inr, Bool, true, false,
  not, none, some, List, bit_and, ◌==◌, Result, ok, err, fault, no_fuel, require, arith,
}
use lmqtt_cpp.Common.{malformed_packet}
use lmqtt_cpp.TsQueue.{push_back}
use lmqtt_cpp.Types.Packet
use lmqtt_cpp.Types.Packet.{
  PacketType, connect, connack, publish, disconnect, unknown_packet, packet_of_code, packet_code,
  same_packet,
}
use lmqtt_cpp.Packet.{LmqttPacket, Typed, create_fixed_header, header_case, as_disconnect, stored}
use native.Mathlib.Decide.{ℕ_discrete}
use lmqtt_cpp.Packet.Header.{
  low_bits, packet_code_of_code, IsTaken, create_fixed_header-IsHeaderRead,
}
use lmqtt_cpp.Connection.{
  Session, Handled, returned, thrown, on_header, check_header, check_first, read_length, got_byte,
  leave, schedule_for_deletion,
}
use lmqtt_cpp.Connection.Header.{
  read_length-closed, IsHeaderCase, good, refused, header_case-IsHeaderCase,
}

check_header-refused :
    (s : Session) (stream : List ℕ) (m : LmqttPacket × Result (Unit {0}))
    → m.1 ≡ err malformed_packet
    → s.conn.is_first_packet ≡ false
    → check_header stream s m ≡ thrown
unfolding check_header check_first
check_header-refused s stream (p, ok u) e f = cc
check_header-refused s stream (p, fault) e f = cc
check_header-refused s stream (p, no_fuel) e f = cc
check_header-refused s stream (p, err c) e f =
    let k : c ≡ malformed_packet = cc in rw (k, f) (read_length-closed _ stream refl)

-- After the first packet, on every control byte that create_fixed_header does not take,
-- whatever follows it, an exception leaves the handler of read_fixed_header: it closes the
-- socket, goes on, and reads the length from the closed socket.
pub on_header-refused :
    (s : Session) (byte : ℕ) (stream : List ℕ)
    → s.conn.is_first_packet ≡ false
    → byte < 256
    → ((t : PacketType) → ¬ (IsTaken byte t))
    → on_header (some byte) stream s ≡ thrown
unfolding on_header
on_header-refused s byte stream f h n =
    elim (create_fixed_header-IsHeaderRead (got_byte byte s).conn.in_packet h) [
      | inl (t, k, e) ↦ absurd (n t k)
      | inr (k, e) ↦ check_header-refused (got_byte byte s) stream _ e f
    ]

-- A header with CONNECT in the upper half, whose flags are 0.
abbrev pub as_connect : ℕ → Session → Session
as_connect byte s =
    let s' = got_byte byte s in
    record s' {
      conn = record s'.conn {
        is_first_packet = false;
        in_packet = record s'.conn.in_packet { packet_type = connect };
      };
    }

-- What comes of the first control byte.
pub data FirstHeader (s : Session) (byte : ℕ) (stream : List ℕ) : Handled → Type 0 where
  connects : byte ≡ 0x10 → FirstHeader s byte stream (read_length stream (as_connect byte s))
  dies : byte / 16 ≡ 1 → byte ≢ 0x10 → FirstHeader s byte stream thrown
  is_left :
      (s' : Session)
      → byte / 16 ≢ 1
      → s'.conn.is_open ≡ false
      → s'.conn.pending ≡ s.conn.pending
      → s'.deletion_queue ≡ push_back s.conn.self s.deletion_queue
      → FirstHeader s byte stream (returned s')

not_connect : (t : PacketType) → t ≢ connect → same_packet t connect ≡ false
unfolding same_packet packet_code
not_connect connect n = absurd (n refl)
not_connect t n = refl

module _ (s : Session) (byte : ℕ) (stream : List ℕ) (f : s.conn.is_first_packet ≡ true) where
  left_by :
      (s1 : Session)
      → s1.conn.is_first_packet ≡ true
      → s1.conn.self ≡ s.conn.self
      → s1.conn.pending ≡ s.conn.pending
      → s1.deletion_queue ≡ s.deletion_queue
      → s1.conn.in_packet.packet_type ≢ connect
      → byte / 16 ≢ 1
      → FirstHeader s byte stream (check_first stream s1)
  unfolding check_first schedule_for_deletion
  left_by s1 g e p q n u =
      if_either (FirstHeader s byte stream) s1.conn.is_first_packet
        (λ t.
          if_either (FirstHeader s byte stream)
            (not (same_packet s1.conn.in_packet.packet_type connect))
            (λ y. is_left (leave s1) u refl p (rw (e, q) refl))
            (λ y. let z = not_connect _ n in absurd cc))
        (λ h. cc)

  other_header :
      (m : Typed)
      → s.conn.in_packet.packet_type ≢ connect
      → m.0 ≢ some connect
      → IsHeaderCase m
      → byte / 16 ≢ 1
      → FirstHeader s byte stream
          (check_header stream (got_byte byte s) (stored (got_byte byte s).conn.in_packet m))
  unfolding check_header
  other_header m n k (good t a) u = left_by _ f refl refl refl (λ e. k (ap some e)) u
  other_header m n k (refused none) u = left_by _ f refl refl refl n u
  other_header m n k (refused (some t)) u = left_by _ f refl refl refl (λ e. k (ap some e)) u

  connect_header :
      (b : Bool)
      → byte / 16 ≡ 1
      → (b ≡ true → byte ≡ 0x10)
      → (b ≡ false → byte ≢ 0x10)
      → FirstHeader s byte stream (
          check_header stream
            (got_byte byte s)
            (stored (got_byte byte s).conn.in_packet (some connect, require b malformed_packet)))
  unfolding check_header check_first same_packet packet_code
  connect_header true e y n =
      if_either (FirstHeader s byte stream) s.conn.is_first_packet (λ t. connects (y refl))
        (λ u. absurd cc)
  connect_header false e y n =
      if_either (FirstHeader s byte stream) s.conn.is_first_packet
        (λ t.
          subst (FirstHeader s byte stream) (sym (read_length-closed _ stream refl))
            (dies e (n refl)))
        (λ u. absurd cc)

as_disconnect-ne : (pflag : ℕ) → (as_disconnect pflag).0 ≢ some connect
as_disconnect-ne pflag =
    if_either {A = Typed} (λ m. m.0 ≢ some connect) (pflag == 0)
      (λ a (e : some disconnect ≡ some connect). cc) (λ a (e : none ≡ some connect). cc)

not_one : (n : ℕ) → n < 16 → n ≢ 1 → packet_of_code n ≢ connect
unfolding packet_code
not_one n h u e = absurd (u (sym (packet_code_of_code n h) ∙ ap packet_code e))

case_not_connect :
    (t : PacketType) (pflag : ℕ) → t ≢ connect → (header_case t pflag).0 ≢ some connect
unfolding header_case
case_not_connect connect pflag n e = n refl
case_not_connect Packet.reserved pflag n e = cc
case_not_connect connack pflag n e = cc
case_not_connect publish pflag n e = cc
case_not_connect Packet.auth pflag n e = cc
case_not_connect unknown_packet pflag n e = cc
case_not_connect t pflag n e = as_disconnect-ne pflag e

-- On the first packet, while its type is still unknown, the handler of read_fixed_header goes
-- on to the length, with CONNECT as the type, exactly for the control byte 0x10; for any other
-- byte from 0x11 to 0x1f an exception leaves it; and for every other byte it returns with the
-- socket closed, the pending operations as they were and the connection put last in the
-- deletion queue.
pub on_header-FirstHeader :
    (s : Session) (byte : ℕ) (stream : List ℕ)
    → s.conn.is_first_packet ≡ true
    → s.conn.in_packet.packet_type ≡ unknown_packet
    → byte < 256
    → FirstHeader s byte stream (on_header (some byte) stream s)
unfolding on_header create_fixed_header packet_of_code header_case
on_header-FirstHeader s byte stream f k h = elim (ℕ_discrete (byte / 16) 1) [
  | yes e ↦
      let flags = low_bits byte h in
      rw (e, flags)
        (connect_header s byte stream f (byte % 16 == 0) e (λ t. ground arith) (λ t. ground arith))
  | no n ↦
      other_header s byte stream f _ (λ c. cc)
        (case_not_connect (packet_of_code (byte / 16)) (bit_and byte 0xf)
          (not_one (byte / 16) (omega arith) n))
        (header_case-IsHeaderCase (packet_of_code (byte / 16)) (bit_and byte 0xf)) n
]
