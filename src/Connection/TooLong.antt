-- ===== src/Connection/TooLong.antt =====
-- A packet above PACKET_SIZE_LIMIT in the handler of read_fixed_header
-- (include/lmqtt_connection.h).
use lmqtt_cpp.Common.{ℕ, ◌%◌, ◌^◌, ◌<◌, ◌≡◌, refl, inl, inr, false, some, List, [], ◌++◌, lt→ltb}
use lmqtt_cpp.TsQueue.{find_and_erase}
use lmqtt_cpp.VarInt.Spec.{var_bytes}
use lmqtt_cpp.Types.Packet.{PacketType}
use lmqtt_cpp.Packet.Header.{IsTaken, create_fixed_header-IsHeaderRead}
use lmqtt_cpp.Connection.{
  reading_header, Session, Handled, returned, on_header, check_header, check_first, read_length,
  check_length, got_byte,
}
use lmqtt_cpp.Connection.Length.{length_loop-var_bytes}
use lmqtt_cpp.Connection.Steps.{ended}
use lmqtt_cpp.Connection.Stranded.{StepsTo, StepsTo-StaysStranded, IsStranded}
use lmqtt_cpp.Connection.Runs.{listening, HeaderOf}

-- No step of the connection schedules it.
abbrev pub NeverScheduled : Session → Type 0
NeverScheduled s = (s' : Session) → StepsTo s s' → s'.deletion_queue ≡ s.deletion_queue

-- The handler has returned, with the connection closed and stranded, and not scheduled, then or later.
abbrev pub Strands : Session → Handled → Type 0
Strands s h =
    (s' : Session) × (h ≡ returned s')
    × IsStranded s'.conn
    × (s'.conn.is_open ≡ false)
    × (s'.deletion_queue ≡ s.deletion_queue)
    × NeverScheduled s'

abbrev closed_at : PacketType → ℕ → ℕ → Session → Session
closed_at t byte n s =
    let l = listening s in
    record l {
      conn = record l.conn {
        is_open = false;
        pending = [];
        in_packet = record l.conn.in_packet {
          header = record { control_field = byte; packet_len = n };
          packet_type = t;
        };
      };
    }

HeaderOf-Strands :
    (s : Session) (byte n : ℕ) (t : PacketType) (rest : List ℕ)
    → HeaderOf t byte s
    → n < 2 ^ 28
    → 1024 < n % 16384
    → Strands s (on_header (some byte) (var_bytes n ++ rest) (ended reading_header (listening s)))
unfolding on_header check_header check_first read_length check_length find_and_erase
HeaderOf-Strands s byte n t rest e hi lo = (
  closed_at t byte (n % 16384) s,
  rw e (rw (length_loop-var_bytes n rest hi, lt→ltb 1024 (n % 16384) lo) refl),
  (refl, refl),
  refl,
  refl,
  λ s' r. (StepsTo-StaysStranded (closed_at t byte (n % 16384) s) s' (refl, refl) r).0,
)

-- On a connection whose first packet is behind it and which awaits a header, for every control
-- byte that create_fixed_header takes and the encoding of a remaining length below 2 ^ 28 whose
-- rest modulo 16384, which is what the handler makes of it, is above 1024, whatever follows,
-- the handler of read_fixed_header returns with the socket closed, nothing pending and data
-- received, and has not put the connection in the deletion queue; nor does any later handler,
-- timer or call of its owner.
pub on_header-Strands :
    (s : Session) (byte n : ℕ) (t : PacketType) (rest : List ℕ)
    → byte < 256
    → IsTaken byte t
    → n < 2 ^ 28
    → 1024 < n % 16384
    → Strands s (on_header (some byte) (var_bytes n ++ rest) (ended reading_header (listening s)))
on_header-Strands s byte n t rest b k hi lo =
    elim (create_fixed_header-IsHeaderRead
      (got_byte byte (ended reading_header (listening s))).conn.in_packet b) [
        | inl (u, j, e) ↦ HeaderOf-Strands s byte n u rest e hi lo
        | inr (f, e) ↦ absurd (f t k)
      ]
