-- ===== src/Connection/Runs.antt =====
-- Whole packets through the handlers of include/lmqtt_connection.h, on a connection whose client is
-- known.
use lmqtt_cpp.Common.{
  ℕ, ◌%◌, ◌≤◌, ◌<◌, ◌≡◌, refl, ap, ◌∙◌, inl, inr, Bool, true, false, not, some, List, [], ◌∷◌, ◌++◌,
  le→ltb, length, ok, require, arith,
}
use lmqtt_cpp.TsQueue.{find_and_erase}
use lmqtt_cpp.Utf8.{has_wildcard}
use lmqtt_cpp.VarInt.Spec.{var_bytes}
use lmqtt_cpp.Common.{malformed_packet}
use lmqtt_cpp.Types.Packet.{PacketType, connect, connack, publish, disconnect, packet_of_code}
use lmqtt_cpp.Property.Print.{IsText}
use lmqtt_cpp.Packet.{LmqttPacket, create_fixed_header, header_case, reset}
use lmqtt_cpp.Packet.Header.{IsTaken, create_fixed_header-IsHeaderRead}
use lmqtt_cpp.Packet.Publish.{decode_disconnect_packet_body}
use lmqtt_cpp.Packet.PublishRead.{print_publish, decode_publish_packet_body-print}
use lmqtt_cpp.Packet.Connack.{resize}
use lmqtt_cpp.Connection.{
  reading_header, reading_body, Session, Handled, returned, on_header, on_body, check_header,
  check_first, read_length, check_length, handle_body, body_case, on_publish, on_disconnect,
  and_handle, read_on, got_body, leave, got_byte,
}
use lmqtt_cpp.Connection.Length.{length_loop-var_bytes}
use lmqtt_cpp.Connection.Steps.{ended}
use lmqtt_cpp.Connection.Handshake.{and_next}

-- The session `s`, with its first packet behind it, its socket open and the next header awaited.
abbrev pub listening : Session → Session
listening s = record s {
  conn = record s.conn {
    is_open = true;
    is_first_packet = false;
    received_data = true;
    pending = reading_header ∷ [];
    in_packet = record s.conn.in_packet {
      header = record s.conn.in_packet.header { packet_len = 0 };
    };
  };
}

-- asio calls the two handlers for a packet: the control byte has come, with the remaining length and
-- the body behind it, and then the body.
abbrev pub packet_run : ℕ → List ℕ → Session → Handled
packet_run byte body s =
    and_next (on_header (some byte) (var_bytes (length body) ++ body) (ended reading_header s))
      λ s1. on_body (some body) (ended reading_body s1)

-- A header of `n` bytes of the given type has been read.
asked_for : PacketType → ℕ → ℕ → Session → Session
asked_for t byte n s =
    let l = listening s in
    record l {
      conn = record l.conn {
        in_packet = record l.conn.in_packet {
          header = record { control_field = byte; packet_len = n };
          packet_type = t;
          body = resize n l.conn.in_packet.body;
        };
        pending = reading_body ∷ [];
      };
    }

module _ (t : PacketType) (byte : ℕ) (s : Session) where
  abbrev pub HeaderOf : Type 0
  HeaderOf =
      let p = (got_byte byte (ended reading_header (listening s))).conn.in_packet in
      create_fixed_header p ≡ (record p { packet_type = t }, ok tt)

  header_read :
      (n : ℕ) (rest : List ℕ)
      → n ≤ 1024
      → HeaderOf
      → on_header (some byte) (var_bytes n ++ rest) (ended reading_header (listening s))
        ≡ returned (asked_for t byte n s)
  unfolding on_header check_header check_first read_length check_length find_and_erase asked_for
  header_read n rest h e =
      let m : n % 16384 ≡ n = omega arith in
      rw e (rw (length_loop-var_bytes n rest (omega arith), m, le→ltb 1024 n h) refl)

-- `in_packet` when the PUBLISH packet has been decoded.
abbrev published : List ℕ → List ℕ → LmqttPacket → LmqttPacket
published topic message p = record p {
  header = record { control_field = 0x30; packet_len = length (print_publish topic message) };
  packet_type = publish;
  body = print_publish topic message;
  client_cfg = record p.client_cfg { last_topic = topic };
}

-- The session when the packet has been taken, and when it has been refused.
pub after_publish : List ℕ → List ℕ → Session → Bool → Session
unfolding reset
after_publish topic message s false =
    let l = listening s in
    record l {
      conn = record l.conn { in_packet = reset (published topic message l.conn.in_packet) };
    }
after_publish topic message s true =
    let l = listening s in
    leave (record l {
      conn = record l.conn { pending = []; in_packet = published topic message l.conn.in_packet };
    })

module _ (s : Session) where
  publish_header : HeaderOf publish 0x30 s
  unfolding create_fixed_header header_case packet_of_code
  publish_header = refl

  publish_handled :
      (topic message : List ℕ) (b : Bool)
      → (let s1 = got_body (print_publish topic message) (
            ended reading_body (asked_for publish 0x30 (length (print_publish topic message)) s)) in
          and_handle
            (
              record s1.conn.in_packet {
                client_cfg = record s1.conn.in_packet.client_cfg { last_topic = topic };
              },
              require (not b) malformed_packet,
            )
            s1
            read_on)
        ≡ returned (after_publish topic message s b)
  unfolding find_and_erase asked_for after_publish reset
  publish_handled topic message true = refl
  publish_handled topic message false = refl

  publish_body :
      (topic message : List ℕ)
      → IsText topic
      → IsText message
      → 0 < length message
      → length message < 256
      → on_body
          (some (print_publish topic message))
          (ended reading_body (asked_for publish 0x30 (length (print_publish topic message)) s))
        ≡ returned (after_publish topic message s (has_wildcard message))
  unfolding on_body handle_body body_case on_publish find_and_erase asked_for
  publish_body topic message t m lo hi =
      let s1 =
        got_body (print_publish topic message)
          (ended reading_body (asked_for publish 0x30 (length (print_publish topic message)) s)) in
      ap (λ r. and_handle r s1 read_on)
        (decode_publish_packet_body-print s1.conn.in_packet topic message refl t m lo hi)
      ∙ publish_handled topic message (has_wildcard message)

  -- On a connection whose first packet is behind it and which awaits a header, for a PUBLISH
  -- packet with QoS 0 and no properties, of at most 1024 bytes, with a topic of accepted text
  -- and a message of accepted text of 1 to 255 bytes, both handlers return: without a number
  -- sign in the message the topic is stored, the incoming packet is reset and the next header
  -- awaited; with one the socket is closed, nothing is pending, and the connection is put last
  -- in the deletion queue.
  pub packet_run-publish :
      (topic message : List ℕ)
      → IsText topic
      → IsText message
      → 0 < length message
      → length message < 256
      → length (print_publish topic message) ≤ 1024
      → packet_run 0x30 (print_publish topic message) (listening s)
        ≡ returned (after_publish topic message s (has_wildcard message))
  packet_run-publish topic message t m lo hi h =
      let body = print_publish topic message in
      ap (λ r. and_next r (λ s1. on_body (some body) (ended reading_body s1)))
        (header_read publish 0x30 s (length body) body h publish_header)
      ∙ publish_body topic message t m lo hi

  -- The session when the packet has been taken as a DISCONNECT.
  pub after_disconnect : ℕ → List ℕ → Session
  after_disconnect byte body =
      let l = listening s in
      leave (record l {
        conn = record l.conn {
          pending = [];
          in_packet = record l.conn.in_packet {
            header = record { control_field = byte; packet_len = length body };
            packet_type = disconnect;
            body = body;
          };
        };
      })

  disconnect_header : (byte : ℕ) → byte < 256 → IsTaken byte disconnect → HeaderOf disconnect byte s
  disconnect_header byte h k =
      let p = (got_byte byte (ended reading_header (listening s))).conn.in_packet in
      elim (create_fixed_header-IsHeaderRead p h) [
        | inl (t, j, e) ↦ e ∙ ap (λ u. (record p { packet_type = u }, ok tt)) (same t j k)
        | inr (n, e) ↦ absurd (n disconnect k)
      ]
    where
      same : (t : PacketType) → IsTaken byte t → IsTaken byte disconnect → t ≡ disconnect
      same connect j k = absurd (omega arith)
      same connack j k = absurd (omega arith)
      same publish (inl j) k = absurd (omega arith)
      same publish (inr j) k = absurd (omega arith)
      same disconnect j k = refl
      same t j k = absurd j

  disconnect_body :
      (byte : ℕ) (body : List ℕ)
      → on_body (some body) (ended reading_body (asked_for disconnect byte (length body) s))
        ≡ returned (after_disconnect byte body)
  unfolding on_body handle_body body_case on_disconnect decode_disconnect_packet_body find_and_erase
      asked_for after_disconnect
  disconnect_body byte [] = refl
  disconnect_body byte (x ∷ xs) = refl

  -- On a connection whose first packet is behind it and which awaits a header, for every
  -- control byte that create_fixed_header takes as a DISCONNECT, which are 0x40, 0x50 up to
  -- 0xe0, and any body of at most 1024 bytes, both handlers return, with the socket closed,
  -- nothing pending, and the connection put last in the deletion queue.
  pub packet_run-disconnect :
      (byte : ℕ) (body : List ℕ)
      → byte < 256
      → IsTaken byte disconnect
      → length body ≤ 1024
      → packet_run byte body (listening s) ≡ returned (after_disconnect byte body)
  packet_run-disconnect byte body h k l =
      ap (λ r. and_next r (λ s1. on_body (some body) (ended reading_body s1)))
        (header_read disconnect byte s (length body) body l (disconnect_header byte h k))
      ∙ disconnect_body byte body
