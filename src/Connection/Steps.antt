-- ===== src/Connection/Steps.antt =====
-- The life of a connection (include/lmqtt_connection.h): the steps that asio, the timer and the
-- owner can make it take. asio calls one handler at a time, on the server's one thread.
use lmqtt_cpp.Common.{ℕ, ◌≤◌, ◌≡◌, Bool, true, false, Option, none, some, List, ◌∷◌, ◌++◌, length}
use lmqtt_cpp.TsQueue.{find_and_erase}
use lmqtt_cpp.Config.{ClientConfig}
use lmqtt_cpp.Connection.{
  Operation, reading_header, reading_body, write_posted, writing, operation_eq, new_connection,
  Session, Handled, returned, on_header, on_body, on_write_posted, on_written, on_timeout,
  on_close_posted, shutdown, disconnect_client, connect_to_client,
}

-- The operation has been started, and its handler not been called.
abbrev pub IsPending : Operation → Session → Type 0
IsPending op s =
    (before : List Operation) × (after : List Operation) × (s.conn.pending ≡ before ++ op ∷ after)

-- The session when asio calls the handler.
abbrev pub ended : Operation → Session → Session
ended op s = record s { conn = record s.conn { pending = find_and_erase op s.conn.pending } }

abbrev pub timer_off : Session → Session
timer_off s = record s { conn = record s.conn { has_timer = false } }

-- asio calls a handler whose operation has ended.
pub data Completion (s : Session) : Handled → Type 0 where
  header_read :
      (byte : Option ℕ) (stream : List ℕ)
      → IsPending reading_header s
      → Completion s (on_header byte stream (ended reading_header s))
  body_read :
      (bytes : List ℕ)
      → IsPending reading_body s
      → length bytes ≡ length s.conn.in_packet.body
      → Completion s (on_body (some bytes) (ended reading_body s))
  body_failed : IsPending reading_body s → Completion s (on_body none (ended reading_body s))
  write_run : IsPending write_posted s → Completion s (on_write_posted (ended write_posted s))
  write_done :
      (fine : Bool) → IsPending writing s → Completion s (on_written fine (ended writing s))

-- What has ended an operation: a control byte or none, a body or none, a posted write or one that
-- went well or not.
pub data Event : Type 0 where
  header_came header_lost body_came body_lost write_ready written write_lost : Event

abbrev pub header_event : Option ℕ → Event
header_event none = header_lost
header_event (some byte) = header_came

abbrev pub write_event : Bool → Event
write_event true = written
write_event false = write_lost

abbrev pub event_of : (s : Session) (h : Handled) → Completion s h → Event
event_of s h (header_read byte stream p) = header_event byte
event_of s h (body_read bytes p l) = body_came
event_of s h (body_failed p) = body_lost
event_of s h (write_run p) = write_ready
event_of s h (write_done fine p) = write_event fine

pub data Step (s : Session) : Handled → Type 0 where
  completes : (h : Handled) → Completion s h → Step s h
  timer_run : s.conn.has_timer ≡ true → Step s (returned (on_timeout (timer_off s)))
  disconnect_called : Step s (returned (disconnect_client s))
  shutdown_called : Step s (returned (shutdown s))
  close_run : 1 ≤ s.conn.posted_closes → Step s (returned (on_close_posted s))

-- What a connection can come to, once the server has called connect_to_client.
pub data Reached (self : ℕ) (cfg : ClientConfig) : Session → Type 0 where
  accepted :
      (socket_open : Bool) (queue : List ℕ)
      → Reached self cfg (
          connect_to_client
            (record { conn = new_connection self cfg socket_open; deletion_queue = queue }))
  next : (s s' : Session) → Reached self cfg s → Step s (returned s') → Reached self cfg s'
