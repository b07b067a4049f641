-- ===== src/Tests/Sessions.antt =====
-- A connection of include/lmqtt_connection.h, the server and its queues on small runs.
use lmqtt_cpp.Common.{
  ℕ, ◌≡◌, refl, inl, inr, true, false, none, some, List, [], ◌∷◌, ◌++◌, length, ok, arith,
}
use lmqtt_cpp.Common.Eq.{address_eq}
use lmqtt_cpp.VarInt.Spec.{var_bytes}
use lmqtt_cpp.VarInt.{decode_variable_int}
use lmqtt_cpp.Types.Property
use lmqtt_cpp.Types.Packet.{PacketType, connect, connack, publish, disconnect}
use lmqtt_cpp.Config.{ClientConfig, new_client_config, configure_propriety}
use lmqtt_cpp.Config.FillPrint.{IsPlain}
use lmqtt_cpp.Property.Write.{check_string}
use lmqtt_cpp.Property.{value_u16}
use lmqtt_cpp.Packet.Properties.{apply_property}
use lmqtt_cpp.Packet.PropertyList.{apply_all}
use lmqtt_cpp.Packet.Header.{IsTaken}
use lmqtt_cpp.Packet.ConnectPrint.{print_connect, flagged, identified}
use lmqtt_cpp.Tests.Packets.{message, print_connect_run, message-IsMessage}
use lmqtt_cpp.TsQueue.{push_back, pop_front, find_and_erase}
use lmqtt_cpp.TsQueue.Order.{Call, pushed, popped, run_calls, pushes, run_calls-fifo}
use lmqtt_cpp.Connection.{
  Connection, Session, returned, thrown, new_connection, schedule_for_deletion, reading_header,
  on_header, on_close_posted, connect_to_client, length_loop,
}
use lmqtt_cpp.Connection.Length.{value_of, length_loop-decode_variable_int}
use lmqtt_cpp.Connection.Ending.{IsSound, done, Outcome}
use lmqtt_cpp.Connection.Steps.{
  ended, Completion, header_came, header_read, completes, close_run, Reached, accepted, next,
}
use lmqtt_cpp.Connection.Invariant.{Reached-IsSound, Completion-Outcome}
use lmqtt_cpp.Connection.Stranded.{StaysStranded, Step-StaysStranded}
use lmqtt_cpp.Connection.Refused.{FirstHeader, on_header-FirstHeader, on_header-refused}
use lmqtt_cpp.Connection.Handshake.{handshake, fresh, greeted, handshake-greeted}
use lmqtt_cpp.Server.{
  Server, IsFresh, new_server, on_accept, on_client_connection, accepts, now, after_step,
}
use lmqtt_cpp.Server.Bound.{IsBounded, Later-IsBounded}
use lmqtt_cpp.Server.Drain.{drain, IsDrained, drain-IsDrained}
use lmqtt_cpp.Server.Blocked.{IsBlocked, IsObject, Later-denies}

abbrev two_pushes : List (Call ℕ)
two_pushes = pushed 8 ∷ popped ∷ pushed 9 ∷ popped ∷ []

abbrev before : List ℕ
before = 7 ∷ []

abbrev out : List ℕ
out = 7 ∷ 8 ∷ []

abbrev left : List ℕ
left = 9 ∷ []

run_calls-fifo_run : run_calls two_pushes before ≡ ok (out, left)
unfolding run_calls push_back pop_front
run_calls-fifo_run = refl

run_calls-fifo_example : out ++ left ≡ before ++ pushes two_pushes
run_calls-fifo_example = run_calls-fifo two_pushes before out left run_calls-fifo_run

-- After the properties of the message.
abbrev configured : ClientConfig
configured = record (flagged message new_client_config) { receive_maximum = 10 }

configured_run :
    apply_all false (flagged message new_client_config) message.properties ≡ (configured, ok tt)
unfolding apply_all apply_property configure_propriety lmqtt_cpp.Config.configure
    lmqtt_cpp.Property.check_data_type Property.same_data Property.get_property_data_type
configured_run = refl

configured-IsPlain : IsPlain (identified message configured)
unfolding check_string lmqtt_cpp.Utf8.is_valid_content lmqtt_cpp.Utf8.scan lmqtt_cpp.Utf8.check_char
    lmqtt_cpp.Utf8.check_lead lmqtt_cpp.Utf8.check_one lmqtt_cpp.Memory.load
configured-IsPlain = record {
  named = λ e. cc;
  unassigned = refl;
  no_users = refl;
  text = refl;
  short = omega arith;
}

handshake-greeted_example :
    handshake
      (var_bytes (length (print_connect message)) ++ print_connect message)
      (print_connect message)
      (fresh 1 new_client_config [])
    ≡ returned (greeted message (identified message configured) (fresh 1 new_client_config []))
handshake-greeted_example =
    handshake-greeted 1 new_client_config [] message configured message-IsMessage
      (rw print_connect_run (omega arith)) configured_run configured-IsPlain (omega arith)

length_loop-decode_variable_int_example :
    length_loop 4 true (0x80 ∷ 1 ∷ []) 0 1 ≡ value_of (decode_variable_int (0x80 ∷ 1 ∷ []) 0 2)
length_loop-decode_variable_int_example = length_loop-decode_variable_int (0x80 ∷ 1 ∷ [])

abbrev first : Session
first = fresh 1 new_client_config []

first_run : Reached 1 new_client_config first
first_run = accepted true []

-- The client sends the control byte of a CONNECT packet and the length 12.
header_arrives : Completion first (on_header (some 0x10) (12 ∷ []) (ended reading_header first))
unfolding connect_to_client new_connection
header_arrives = header_read (some 0x10) (12 ∷ []) ([], [], refl)

Completion-Outcome_example :
    Outcome header_came first (on_header (some 0x10) (12 ∷ []) (ended reading_header first))
unfolding header_arrives
Completion-Outcome_example =
    Completion-Outcome first (on_header (some 0x10) (12 ∷ []) (ended reading_header first))
      (Reached-IsSound 1 new_client_config first first_run) header_arrives

-- The client has gone before it has sent a byte.
abbrev gone : Session
gone = record first {
  conn = record first.conn { is_open = false; pending = [] };
  deletion_queue = 1 ∷ [];
}

gone_run : Reached 1 new_client_config gone
unfolding on_header schedule_for_deletion push_back find_and_erase connect_to_client new_connection
gone_run =
    next first gone first_run (completes (returned gone) (header_read none [] ([], [], refl)))

Reached-IsSound_example : IsSound gone
Reached-IsSound_example = Reached-IsSound 1 new_client_config gone gone_run

on_header-FirstHeader_example : FirstHeader first 0x30 [] (on_header (some 0x30) [] first)
unfolding connect_to_client new_connection
on_header-FirstHeader_example = on_header-FirstHeader first 0x30 [] refl refl (omega arith)

-- A SUBSCRIBE packet begins with 0x82.
subscribe_refused : (t : PacketType) → ¬ (IsTaken 0x82 t)
subscribe_refused connect e = absurd (omega arith)
subscribe_refused connack e = absurd (omega arith)
subscribe_refused publish (inl e) = absurd (omega arith)
subscribe_refused publish (inr e) = absurd (omega arith)
subscribe_refused disconnect e = absurd (omega arith)
subscribe_refused t e = e

abbrev second : Session
second = record first { conn = record first.conn { is_first_packet = false; received_data = true } }

on_header-refused_example : on_header (some 0x82) (5 ∷ []) second ≡ thrown
on_header-refused_example =
    on_header-refused second 0x82 (5 ∷ []) refl (omega arith) subscribe_refused

-- A client that has sent a CONNECT packet that is too long.
abbrev stranded : ℕ → Connection
stranded self = record (new_connection self new_client_config true) {
  is_open = false;
  is_first_packet = false;
  received_data = true;
  posted_closes = 1;
}

abbrev stranded_session : Session
stranded_session = record { conn = stranded 1; deletion_queue = [] }

Step-StaysStranded_example : StaysStranded stranded_session (on_close_posted stranded_session)
unfolding new_connection
Step-StaysStranded_example =
    Step-StaysStranded stranded_session (on_close_posted stranded_session) (refl, refl)
      (close_run (omega arith))

Later-IsBounded_example : IsBounded (on_accept 7 new_client_config true new_server)
Later-IsBounded_example = Later-IsBounded (on_accept 7 new_client_config true new_server) (
    after_step new_server (on_accept 7 new_client_config true new_server) now
      (accepts 7 new_client_config true (tt, tt, tt)))

abbrev busy : Server
busy = record {
  active_sessions = 1 ∷ 2 ∷ [];
  deletion_queue = 2 ∷ 5 ∷ [];
  connections = stranded 1 ∷ stranded 2 ∷ stranded 5 ∷ [];
}

drain-IsDrained_example : IsDrained busy (2 ∷ 5 ∷ []) (drain 2 busy)
drain-IsDrained_example = drain-IsDrained busy (((λ e. absurd (omega arith)), tt), (tt, tt))

abbrev stuck : Server
stuck = record busy { deletion_queue = []; connections = stranded 1 ∷ stranded 2 ∷ [] }

stranded-IsObject : (self : ℕ) → IsObject 1 2 (stranded self)
unfolding new_connection
stranded-IsObject self = record { sound = done refl; stranded = λ e. (refl, refl) }

stuck-IsBlocked : IsBlocked 1 2 stuck
unfolding new_connection
stuck-IsBlocked = record {
  full = refl;
  unscheduled = tt;
  objects = (stranded-IsObject 1, (stranded-IsObject 2, tt));
}

three-IsFresh : IsFresh 3 stuck
unfolding new_connection
three-IsFresh = (
  ((λ e. absurd (omega arith)), ((λ e. absurd (omega arith)), tt)),
  tt,
  ((λ e. absurd (omega arith)), ((λ e. absurd (omega arith)), tt)),
)

Later-denies_example :
    ((on_accept 3 new_client_config true stuck).active_sessions ≡ 1 ∷ 2 ∷ [])
    × (on_client_connection (on_accept 3 new_client_config true stuck) ≡ false)
Later-denies_example =
    Later-denies 1 2 stuck (on_accept 3 new_client_config true stuck) stuck-IsBlocked (
      after_step stuck (on_accept 3 new_client_config true stuck) now
        (accepts 3 new_client_config true three-IsFresh))
