-- ===== src/Connection/Handshake.antt =====
-- A client that connects to include/lmqtt_connection.h, from the first byte to the CONNACK packet.
use lmqtt_cpp.Common.{
  ℕ, ◌%◌, ◌≤◌, ◌≡◌, refl, ap, ◌∙◌, true, false, some, List, [], ◌∷◌, ◌++◌, le→ltb, length, ok,
  arith,
}
use lmqtt_cpp.TsQueue.{find_and_erase}
use lmqtt_cpp.VarInt.Spec.{var_bytes}
use lmqtt_cpp.Types.Packet.{connect, packet_of_code, same_packet, packet_code}
use lmqtt_cpp.Config.{ClientConfig}
use lmqtt_cpp.Config.FillPrint.{IsPlain}
use lmqtt_cpp.Packet.{LmqttPacket, create_fixed_header, header_case, reset}
use lmqtt_cpp.Packet.Connect.{decode_connect_packet_body}
use lmqtt_cpp.Packet.Connack.{resize}
use lmqtt_cpp.Packet.PropertyList.{apply_all}
use lmqtt_cpp.Packet.ConnectPrint.{
  ConnectMessage, IsMessage, print_connect, flagged, identified, expected_flags,
}
use lmqtt_cpp.Packet.ConnectRead.{decode_connect_packet_body-print}
use lmqtt_cpp.Packet.ConnackPrint.{connack_packet, create_connack_packet-print}
use lmqtt_cpp.Connection.{
  reading_header, reading_body, write_posted, writing, Session, Handled, returned, thrown, broken,
  unfinished, new_connection, connect_to_client, on_header, on_body, on_write_posted, on_written,
  check_header, check_first, read_length, check_length, handle_body, body_case, on_connect,
  and_handle, send_connack, and_send, got_body, with_in_packet, reset_in, shared_out,
}
use lmqtt_cpp.Connection.Length.{length_loop-var_bytes}
use lmqtt_cpp.Connection.Steps.{ended}

abbrev pub and_next : Handled → (Session → Handled) → Handled
and_next (returned s) k = k s
and_next thrown k = thrown
and_next broken k = broken
and_next unfinished k = unfinished

abbrev after_body : Session → Handled
after_body s =
    and_next (on_write_posted (ended write_posted s)) λ s1. on_written true (ended writing s1)

abbrev after_header : List ℕ → Session → Handled
after_header body s = and_next (on_body (some body) (ended reading_body s)) after_body

-- asio calls the four handlers: the control byte 0x10 has come, with `stream` behind it, then the
-- `body`, the write has been posted, and it is done.
abbrev pub handshake : List ℕ → List ℕ → Session → Handled
handshake stream body s =
    and_next (on_header (some 0x10) stream (ended reading_header s)) (after_header body)

-- A connection that the server has just accepted.
abbrev pub fresh : ℕ → ClientConfig → List ℕ → Session
fresh self cfg queue =
    connect_to_client (record { conn = new_connection self cfg true; deletion_queue = queue })

-- `in_packet` when the message has been decoded.
abbrev decoded : ConnectMessage → ClientConfig → LmqttPacket
decoded m cfg = record {
  header = record { control_field = 0x10; packet_len = length (print_connect m) };
  body = print_connect m;
  packet_type = connect;
  client_cfg = cfg;
  payload_flags = expected_flags m.user_name;
}

-- The client is known, the CONNACK packet is in `out_packet`, and the next header is read.
pub greeted : ConnectMessage → ClientConfig → Session → Session
unfolding reset
greeted m cfg s = record s {
  conn = record s.conn {
    is_first_packet = false;
    received_data = true;
    in_packet = reset (decoded m cfg);
    out_packet = record s.conn.out_packet { client_cfg = cfg; body = connack_packet cfg 0 };
  };
}

asked : ℕ → Session → Session
asked n s = record s {
  conn = record s.conn {
    is_first_packet = false;
    received_data = true;
    in_packet = record s.conn.in_packet {
      header = record { control_field = 0x10; packet_len = n };
      packet_type = connect;
      body = resize n s.conn.in_packet.body;
    };
    pending = reading_body ∷ [];
  };
}

module _ (self : ℕ) (cfg : ClientConfig) (queue : List ℕ) where
  header_step :
      (n : ℕ) (rest : List ℕ)
      → n ≤ 1024
      → on_header (some 0x10) (var_bytes n ++ rest) (ended reading_header (fresh self cfg queue))
        ≡ returned (asked n (fresh self cfg queue))
  unfolding on_header check_header check_first read_length check_length create_fixed_header
      header_case packet_of_code same_packet packet_code connect_to_client new_connection
      find_and_erase asked
  header_step n rest h =
      let m : n % 16384 ≡ n = omega arith in
      rw (length_loop-var_bytes n rest (omega arith), m, le→ltb 1024 n h) refl

  -- The message is taken, and the CONNACK packet made.
  body_step :
      (m : ConnectMessage) (cfg' : ClientConfig)
      → IsMessage m
      → apply_all false (flagged m cfg) m.properties ≡ (cfg', ok tt)
      → IsPlain (identified m cfg')
      → length (identified m cfg').reason_string ≤ 90
      → on_body
          (some (print_connect m))
          (ended reading_body (asked (length (print_connect m)) (fresh self cfg queue)))
        ≡ returned (record (greeted m (identified m cfg') (fresh self cfg queue)) {
          conn = record (greeted m (identified m cfg') (fresh self cfg queue)).conn {
            pending = write_posted ∷ [];
          };
        })
  unfolding on_body handle_body body_case on_connect connect_to_client new_connection find_and_erase
      asked reset greeted
  body_step m cfg' v a p l =
      let s1 =
        got_body (print_connect m)
          (ended reading_body (asked (length (print_connect m)) (fresh self cfg queue))) in
      let s2 = with_in_packet (decoded m (identified m cfg')) s1 in
      let d : decode_connect_packet_body s1.conn.in_packet
          ≡ (decoded m (identified m cfg'), ok tt) =
        decode_connect_packet_body-print s1.conn.in_packet m v ∙ rw a refl in
      ap (λ r. and_handle r s1 send_connack) d
      ∙ ap (λ r. and_send r (reset_in s2)) (create_connack_packet-print (shared_out s2) 0 p l)

  -- On a connection that the server has just accepted, for a CONNECT message as
  -- decode_connect_packet_body-print takes it, of at most 1024 bytes, none of whose properties
  -- is refused, which leaves a client with an identifier, no assigned one, no user properties
  -- and a reason string of accepted text of at most 90 bytes, the handlers that asio calls for
  -- the control byte, the length bytes, the body and the write all return: the CONNACK packet
  -- for this client has been written, both packets have the configuration that the message asks
  -- for, the incoming packet is reset, one header read is pending, the socket is open, and
  -- nothing has been put in the deletion queue.
  pub handshake-greeted :
      (m : ConnectMessage) (cfg' : ClientConfig)
      → IsMessage m
      → length (print_connect m) ≤ 1024
      → apply_all false (flagged m cfg) m.properties ≡ (cfg', ok tt)
      → IsPlain (identified m cfg')
      → length (identified m cfg').reason_string ≤ 90
      → handshake
          (var_bytes (length (print_connect m)) ++ print_connect m)
          (print_connect m)
          (fresh self cfg queue)
        ≡ returned (greeted m (identified m cfg') (fresh self cfg queue))
  unfolding on_write_posted on_written connect_to_client new_connection find_and_erase greeted
  handshake-greeted m cfg' v s a p l =
      ap (λ h. and_next h (after_header (print_connect m)))
        (header_step (length (print_connect m)) (print_connect m) s)
      ∙ ap (λ h. and_next h after_body) (body_step m cfg' v a p l)
