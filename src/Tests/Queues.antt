-- ===== src/Tests/Queues.antt =====
-- The waiting of include/lmqtt_tsqueue.h, the deleter of include/lmqtt_server.h and whole packets
-- on small runs.
use lmqtt_cpp.Common.{
  replicate, some, inl, ◌++◌, true, false, ℕ, ◌≡◌, refl, List, [], ◌∷◌, ok, arith,
}
use lmqtt_cpp.Utf8.{has_wildcard}
use lmqtt_cpp.Utf8.Spec.{encode_text, encode_char, any_nochar, is_nochar}
use lmqtt_cpp.Config.{new_client_config}
use lmqtt_cpp.Packet.PublishRead.{print_publish}
use lmqtt_cpp.TsQueue.{push_back, empty}
use lmqtt_cpp.TsQueue.Wait.{
  Waiting, asleep, awake, testing, found_empty, test_empty, go_to_sleep, notify_one,
  push_and_notify, take_front, tests, sleeps, pushes, WaitReached, begins, goes, TimelyReached,
  begins_timely, goes_timely, new_waiting, WaitReached-takes, lost_wakeup, TimelyReached-nil,
}
use lmqtt_cpp.TimerQueue.{Move, inserting, polling, started, emplace, insert_next, poll, move, run}
use lmqtt_cpp.TimerQueue.Order.{IsOrdered, slept_out, run-slept_out}
use lmqtt_cpp.Connection.{Session, returned}
use lmqtt_cpp.Connection.Handshake.{fresh}
use lmqtt_cpp.Connection.Runs.{
  listening, packet_run, after_publish, after_disconnect, packet_run-publish, packet_run-disconnect,
}
use lmqtt_cpp.Server.{Server, on_client_connection}
use lmqtt_cpp.Server.Drain.{drain, drain-admits}
use lmqtt_cpp.Types.Packet.{publish}
use lmqtt_cpp.VarInt.Spec.{var_bytes}
use lmqtt_cpp.Connection.{reading_header, on_header}
use lmqtt_cpp.Connection.Steps.{ended}
use lmqtt_cpp.Connection.TooLong.{Strands, on_header-Strands}
use lmqtt_cpp.Server.Stop.{
  Cleanup, in_body, stop_cleanup, CleanupLater, same, then_step, stops, CleanupLater-in_body,
}

-- A push, and an `empty()` that finds it.
abbrev ready : Waiting ℕ
ready = record { deq = 4 ∷ []; phase = awake }

ready_run : WaitReached ready
unfolding test_empty push_and_notify notify_one push_back empty
ready_run =
    goes (record { deq = 4 ∷ []; phase = testing }) ready
      (goes new_waiting (record { deq = 4 ∷ []; phase = testing }) begins (pushes 4)) (tests refl)

WaitReached-takes_example : (item : ℕ) × (w : Waiting ℕ) × (take_front ready ≡ ok (item, w))
WaitReached-takes_example = WaitReached-takes ready ready_run refl

abbrev fresh_queue : Waiting ℕ
fresh_queue = new_waiting

abbrev item : ℕ
item = 4

lost_wakeup_example :
    (test_empty (push_and_notify item fresh_queue) ≡ ready)
    × (push_and_notify item (test_empty fresh_queue) ≡ record { deq = 4 ∷ []; phase = found_empty })
    × (go_to_sleep (push_and_notify item (test_empty fresh_queue))
        ≡ record { deq = 4 ∷ []; phase = asleep })
    × (push_and_notify item (go_to_sleep (test_empty fresh_queue))
        ≡ record { deq = 4 ∷ []; phase = testing })
lost_wakeup_example = lost_wakeup fresh_queue item refl refl

abbrev sleeping : Waiting ℕ
sleeping = record { deq = []; phase = asleep }

abbrev tested : Waiting ℕ
tested = record { deq = []; phase = found_empty }

sleeping_run : TimelyReached sleeping
unfolding test_empty go_to_sleep empty
sleeping_run =
    goes_timely tested sleeping (sleeps refl)
      (goes_timely new_waiting tested (tests refl) begins_timely tt) tt

TimelyReached-nil_example : sleeping.deq ≡ []
TimelyReached-nil_example = TimelyReached-nil sleeping sleeping_run refl

abbrev known : Session
known = fresh 1 new_client_config []

packet_run-publish_example :
    packet_run 0x30 (print_publish (b't' ∷ []) (b'h' ∷ b'i' ∷ [])) (listening known)
    ≡ returned
        (after_publish (b't' ∷ []) (b'h' ∷ b'i' ∷ []) known (has_wildcard (b'h' ∷ b'i' ∷ [])))
unfolding encode_text encode_char any_nochar is_nochar
packet_run-publish_example =
    packet_run-publish known (b't' ∷ []) (b'h' ∷ b'i' ∷ [])
      (b't' ∷ [], ground arith, refl, refl, omega arith)
      (b'h' ∷ b'i' ∷ [], ground arith, refl, refl, omega arith) (omega arith) (omega arith)
      (omega arith)

-- A PINGREQ packet.
packet_run-disconnect_example :
    packet_run 0xc0 [] (listening known) ≡ returned (after_disconnect known 0xc0 [])
packet_run-disconnect_example =
    packet_run-disconnect known 0xc0 [] (omega arith) (omega arith, omega arith, omega arith)
      (omega arith)

abbrev full : Server
full = record { active_sessions = 1 ∷ 2 ∷ []; deletion_queue = 2 ∷ []; connections = [] }

drain-admits_example :
    (v : Server) × (drain 1 full ≡ ok v) × (v.deletion_queue ≡ []) × (on_client_connection v ≡ true)
drain-admits_example =
    drain-admits full 2 (1 ∷ []) [] [] []
      (record { few = omega arith; distinct = (((λ e. absurd (omega arith)), tt), (tt, tt)) }) refl
      refl

abbrev times : List ℕ
times = 5000 ∷ 3000 ∷ 6000 ∷ 9000 ∷ []

-- The thread takes the first time before the constructor has put in the other three.
abbrev moves : List Move
moves = polling ∷ inserting ∷ polling ∷ inserting ∷ inserting ∷ inserting ∷ []

early_run :
    run moves (started times)
    ≡ record { pending = []; queue = 9000 ∷ 6000 ∷ 3000 ∷ []; slept = 5000 ∷ [] }
unfolding run move poll insert_next emplace started
early_run = refl

run-slept_out_example :
    (run (replicate 3 polling) (run moves (started times)) ≡ slept_out (run moves (started times)))
    × IsOrdered times (run moves (started times))
run-slept_out_example = run-slept_out times moves 3 (rw early_run (omega arith))

-- The thread sleeps, and `stop` is called.
abbrev idle : Cleanup
idle = record { waiting = sleeping; place = in_body; exit_cleanup_thread = false }

abbrev stopped : Cleanup
stopped = record idle { exit_cleanup_thread = true }

stopped_run : CleanupLater idle stopped
unfolding stop_cleanup
stopped_run = then_step idle stopped same stops

CleanupLater-in_body_example : stopped.place ≡ in_body
CleanupLater-in_body_example =
    CleanupLater-in_body idle stopped
      (record { inside = refl; nothing = refl; not_back = λ (e : asleep ≡ awake). cc }) stopped_run

on_header-Strands_example :
    Strands known
      (on_header (some 0x30) (var_bytes 2000 ++ []) (ended reading_header (listening known)))
on_header-Strands_example =
    on_header-Strands known 0x30 2000 publish [] (omega arith) (inl refl) (omega arith)
      (omega arith)
