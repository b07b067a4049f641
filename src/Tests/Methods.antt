-- ===== src/Tests/Methods.antt =====
-- The methods of include/lmqtt_tsqueue.h, include/lmqtt_timer.h and include/lmqtt_connection.h that
-- no theorem is about, on small inputs.
use lmqtt_cpp.Common.{replicate, ℕ, suc, ◌≡◌, refl, true, false, List, [], ◌∷◌, ok, fault}
use lmqtt_cpp.Types.Packet.{pingreq, to_string}
use lmqtt_cpp.Config.{new_client_config}
use lmqtt_cpp.Types.Packet.{publish}
use lmqtt_cpp.Property.Write.{write_binary, write_pair, store_all, store, check_string}
use lmqtt_cpp.Packet.Connect.{decode_packet_body}
use lmqtt_cpp.Packet.{
  LmqttPacket, header_size, packet_size, has_packet_id, new_packet, get_type_string,
}
use lmqtt_cpp.TsQueue.{front, push_front, at, back, pop_back, push_back, clear, size}
use lmqtt_cpp.TimerQueue.{
  new_timer, reset_time, get_time, exit_timer, resume, stop, run_once, run_timer, emplace,
  insert_next, move, run, started, timer_queue, inserting,
}
use lmqtt_cpp.Config.{set_client_id}
use lmqtt_cpp.Connection.{
  configure_client, broken, read_byte, read_packet, read_fixed_header, new_connection,
  connect_to_client,
}
use lmqtt_cpp.Connection.Handshake.{fresh}

abbrev three : List ℕ
three = 1 ∷ 2 ∷ 3 ∷ []

front-push_front_run : front (push_front 0 three) ≡ ok 0
unfolding front push_front
front-push_front_run = refl

back-push_back_run : back (push_back 4 three) ≡ ok 4
unfolding back push_back
back-push_back_run = refl

pop_back-push_back_run : pop_back (push_back 4 three) ≡ ok (4, three)
unfolding pop_back push_back
pop_back-push_back_run = refl

at_run : at three 2 ≡ ok 3
unfolding at
at_run = refl

at_out_run : at three 3 ≡ fault
unfolding at
at_out_run = refl

size-clear_run : size (clear three) ≡ 0
unfolding size clear
size-clear_run = refl

to_string_run : to_string pingreq ≡ "PINGREQ"
unfolding to_string
to_string_run = refl

get_type_string_run : get_type_string (new_packet new_client_config) ≡ "UNKNOWN"
unfolding get_type_string to_string
get_type_string_run = refl

four_inserted :
    run (replicate 4 inserting) timer_queue
    ≡ record { pending = []; queue = 9000 ∷ 6000 ∷ 5000 ∷ 3000 ∷ []; slept = [] }
unfolding run move insert_next emplace started
four_inserted = refl

get_time-reset_time_run : get_time (reset_time 200 (new_timer 100)) ≡ 200
unfolding get_time reset_time new_timer
get_time-reset_time_run = refl

resume-stop_run : resume (stop (new_timer 100)) ≡ new_timer 100
unfolding resume stop new_timer
resume-stop_run = refl

exit_timer_run : (exit_timer (new_timer 100)).exits ≡ true
unfolding exit_timer
exit_timer_run = refl

-- Two waits end before the flag is set.
run_timer_run : run_timer suc (false ∷ false ∷ true ∷ false ∷ []) 0 ≡ 2
unfolding run_timer
run_timer_run = refl

run_once_run : run_once suc 0 ≡ 1
unfolding run_once
run_once_run = refl

read_packet_run :
    read_packet (fresh 1 new_client_config []) ≡ read_fixed_header (fresh 1 new_client_config [])
unfolding read_packet connect_to_client new_connection
read_packet_run = refl

read_byte_run : read_byte (fresh 1 new_client_config []) ≡ broken
unfolding read_byte
read_byte_run = refl

abbrev bare_publish : LmqttPacket
bare_publish = record (new_packet new_client_config) {
  packet_type = publish;
  body = 0 ∷ 0 ∷ 7 ∷ [];
}

packet_size_run : packet_size bare_publish ≡ 5
unfolding packet_size header_size
packet_size_run = refl

-- With QoS 0 there is none.
has_packet_id_run : has_packet_id bare_publish ≡ false
unfolding has_packet_id
has_packet_id_run = refl

-- Only a CONNECT packet is decoded.
decode_packet_body_run : decode_packet_body bare_publish ≡ (bare_publish, ok tt)
unfolding decode_packet_body
decode_packet_body_run = refl

write_binary_run : write_binary (0 ∷ 0 ∷ 0 ∷ 0 ∷ []) 1 3 (7 ∷ []) ≡ (0 ∷ 0 ∷ 1 ∷ 7 ∷ [], ok tt)
unfolding write_binary store_all store
write_binary_run = refl

configure_client_run :
    configure_client (fresh 1 new_client_config []) ≡ fresh 1 new_client_config []
unfolding configure_client
configure_client_run = refl

set_client_id_run : (set_client_id new_client_config (b'a' ∷ [])).client_id ≡ b'a' ∷ []
unfolding set_client_id
set_client_id_run = refl

write_pair_run : write_pair (0 ∷ 0 ∷ 0 ∷ 0 ∷ 0 ∷ []) 1 4 ([], []) ≡ (0 ∷ 0 ∷ 0 ∷ 0 ∷ 0 ∷ [], ok tt)
unfolding write_pair check_string store_all store lmqtt_cpp.Utf8.is_valid_content
    lmqtt_cpp.Utf8.scan
write_pair_run = refl
