-- ===== src/Connection/Ending.antt =====
-- How the handlers of a connection (include/lmqtt_connection.h) end.
use lmqtt_cpp.Connection.Steps.{
  Event, header_came, header_lost, body_came, body_lost, write_ready, written, write_lost,
}
use lmqtt_cpp.Common.{true, ◌<◌, ℕ, ◌≤◌, ◌≡◌, refl, Bool, false, List, [], ◌∷◌, ltb, length, arith}
use lmqtt_cpp.TsQueue.{push_back}
use lmqtt_cpp.Types.Packet.{PacketType, connect, connack, publish, disconnect}
use lmqtt_cpp.Connection.{
  Operation, reading_header, reading_body, write_posted, writing, operation_eq, Session, Handled,
  returned, thrown, broken, unfinished, leave, schedule_for_deletion, packet_size_limit,
}

abbrev pub packet_len : Session → ℕ
packet_len s = s.conn.in_packet.header.packet_len

-- The types that create_fixed_header takes.
abbrev pub IsAccepted : PacketType → Type 0
IsAccepted connect = Unit {0}
IsAccepted connack = Unit {0}
IsAccepted publish = Unit {0}
IsAccepted disconnect = Unit {0}
IsAccepted t = ⊥

-- The peer has sent a CONNECT header.
abbrev pub HasConnect : Session → Type 0
HasConnect s = (s.conn.is_first_packet ≡ false) × (s.conn.received_data ≡ true)

-- What the handler of an operation may rely on.
abbrev pub IsReady : Operation → Session → Type 0
IsReady reading_header s =
    (packet_len s ≡ 0) × (s.conn.is_first_packet ≡ false → s.conn.received_data ≡ true)
IsReady reading_body s =
    (length s.conn.in_packet.body ≡ packet_len s)
    × (packet_len s ≤ 1024)
    × IsAccepted s.conn.in_packet.packet_type
    × HasConnect s
IsReady write_posted s = (packet_len s ≡ 0) × HasConnect s
IsReady writing s = (packet_len s ≡ 0) × HasConnect s

-- One operation is pending, or none is left.
pub data IsSound (s : Session) : Type 0 where
  waits : (op : Operation) → s.conn.pending ≡ op ∷ [] → IsReady op s → IsSound s
  done : s.conn.pending ≡ [] → IsSound s

-- The operation that the handler of an event starts, where it starts one.
abbrev pub Starts : Event → Operation → Type 0
Starts header_came reading_body = Unit {0}
Starts body_came write_posted = Unit {0}
Starts body_came reading_header = Unit {0}
Starts write_ready writing = Unit {0}
Starts written reading_header = Unit {0}
Starts e op = ⊥

-- The events on which a connection may schedule itself for deletion.
abbrev pub MayLeave : Event → Type 0
MayLeave header_came = Unit {0}
MayLeave header_lost = Unit {0}
MayLeave body_came = Unit {0}
MayLeave e = ⊥

-- Why a connection has nothing pending and is not scheduled: its packet is too long, it has no case
-- for it, or a body read or a write has failed.
abbrev pub StrandsOn : Event → Bool → Session → Type 0
StrandsOn header_came was_open s = (s.conn.is_open ≡ false) × (1024 < packet_len s)
StrandsOn body_came was_open s =
    (s.conn.is_open ≡ was_open) × (s.conn.in_packet.packet_type ≡ connack)
StrandsOn body_lost was_open s = s.conn.is_open ≡ false
StrandsOn write_lost was_open s = s.conn.is_open ≡ false
StrandsOn e was_open s = ⊥

-- How a handler ends that was called for an event when the connection `self` had an open socket or
-- not, with its operation no longer pending.
pub data Ending (self : ℕ) (was_open : Bool) (queue : List ℕ) (e : Event) : Handled → Type 0 where
  goes_on :
      (s' : Session) (op : Operation)
      → Starts e op
      → s'.conn.pending ≡ op ∷ []
      → IsReady op s'
      → s'.conn.is_open ≡ was_open
      → s'.deletion_queue ≡ queue
      → s'.conn.self ≡ self
      → Ending self was_open queue e (returned s')
  leaves :
      (s' : Session)
      → MayLeave e
      → s'.conn.pending ≡ []
      → s'.conn.is_open ≡ false
      → s'.deletion_queue ≡ push_back self queue
      → s'.conn.self ≡ self
      → Ending self was_open queue e (returned s')
  strands :
      (s' : Session)
      → StrandsOn e was_open s'
      → s'.conn.pending ≡ []
      → s'.conn.received_data ≡ true
      → s'.deletion_queue ≡ queue
      → s'.conn.self ≡ self
      → Ending self was_open queue e (returned s')
  throws : e ≡ header_came → Ending self was_open queue e thrown
  breaks : e ≡ body_came → Ending self was_open queue e broken
  hangs : e ≡ body_came → Ending self was_open queue e unfinished

abbrev pub Outcome : Event → Session → Handled → Type 0
Outcome e s h = Ending s.conn.self s.conn.is_open s.deletion_queue e h

-- `s1` is `s` as far as its place in the server goes, and nothing is pending.
pub record IsSame (s s1 : Session) : Type 0 where
  pub idle : s1.conn.pending ≡ []
  pub queue : s1.deletion_queue ≡ s.deletion_queue
  pub named : s1.conn.self ≡ s.conn.self

-- The header has been taken, and the socket left as it was.
abbrev pub IsTyped : Session → Session → Type 0
IsTyped s s1 = IsAccepted s1.conn.in_packet.packet_type × (s1.conn.is_open ≡ s.conn.is_open)

pub lt_limit : (n : ℕ) → ltb packet_size_limit n ≡ true → 1024 < n
lt_limit n e = ground arith

pub le_limit : (n : ℕ) → ltb packet_size_limit n ≡ false → n ≤ 1024
le_limit n e = ground arith

pub left :
    (e : Event) (s s1 : Session) → MayLeave e → IsSame s s1 → Outcome e s (returned (leave s1))
unfolding schedule_for_deletion
left e s s1 m v = leaves (leave s1) m v.idle refl (rw (v.named, v.queue) refl) v.named
