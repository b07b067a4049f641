-- ===== src/Packet/PublishRead.antt =====
-- decode_publish_packet_body (include/lmqtt_packet.h) on the encoding of a PUBLISH packet.
use lmqtt_cpp.Common.{
  ℕ, ◌+◌, ◌-◌, ◌^◌, ◌<◌, ◌≡◌, refl, sym, ap, ◌∙◌, false, not, List, [], ◌∷◌, ◌++◌, le→ltb, ne→==,
  length, drop, length-append, length-drop, drop-append, ok, require, arith,
}
use mathlib.Core.List.{append-nil}
use lmqtt_cpp.Common.{malformed_packet}
use lmqtt_cpp.Memory.{read_bytes_at, drop_next, drop_inside}
use lmqtt_cpp.Utf8.{has_wildcard}
use lmqtt_cpp.VarInt.Spec.{var_bytes}
use lmqtt_cpp.VarInt.Decode.{decode_variable_int-var_bytes}
use lmqtt_cpp.Types.Packet.{PacketType}
use lmqtt_cpp.Strings.{decode_utf8_str_fixed}
use lmqtt_cpp.Property.{view_bytes}
use lmqtt_cpp.Property.Print.{print_block, print_properties, IsText}
use lmqtt_cpp.Property.RoundTrip.{check_view_text, block_read, decode_utf8_str_block}
use lmqtt_cpp.Config.{ClientConfig}
use lmqtt_cpp.Packet.{LmqttPacket}
use lmqtt_cpp.Packet.PropertyList.{apply_all, decode_properties-print}
use lmqtt_cpp.Packet.Publish.{
  distance, read_topic, read_message, decode_publish_rest, decode_publish_packet_body,
}

-- The body of a PUBLISH packet with QoS 0 and no properties.
abbrev pub print_publish : List ℕ → List ℕ → List ℕ
print_publish topic message = print_block topic ++ 0 ∷ message

read_topic-print :
    (topic message : List ℕ)
    → IsText topic
    → read_topic (print_publish topic message) ≡ ok (topic, 2 + length topic)
unfolding read_topic view_bytes
read_topic-print topic message t =
    rw
      (
        decode_utf8_str_block (print_publish topic message) 0 0 topic (0 ∷ message) refl t,
        block_read (print_publish topic message) 0 topic (0 ∷ message) refl,
      )
      (ap (λ n. ok (topic, n)) (omega arith))

read_message-print :
    (mem : List ℕ) (it : ℕ) (message : List ℕ)
    → drop it mem ≡ message
    → IsText message
    → 0 < length message
    → length message < 256
    → it < 2 ^ 31
    → read_message mem it ≡ require (not (has_wildcard message)) malformed_packet
unfolding read_message decode_utf8_str_fixed view_bytes
read_message-print mem it message d t h0 h l =
    let d' : drop it mem ≡ message ++ [] = d ∙ sym (append-nil message) in
    let size : distance mem it ≡ length message = omega (arith, length-drop it mem, ap length d) in
    rw (
      size,
      ne→== (length message) 0 (omega arith),
      le→ltb 0xff (length message) (omega arith),
      check_view_text mem it message [] d' t,
      read_bytes_at mem it message [] d' (omega (arith, length-drop it mem, ap length d)),
    )

rest_print :
    (packet : PacketType) (mem : List ℕ) (it : ℕ) (c : ClientConfig) (message : List ℕ)
    → drop it mem ≡ 0 ∷ message
    → IsText message
    → 0 < length message
    → length message < 256
    → length mem < 2 ^ 31
    → decode_publish_rest packet mem it c
      ≡ (c, require (not (has_wildcard message)) malformed_packet)
unfolding decode_publish_rest var_bytes print_properties apply_all
rest_print packet mem it c message d t h0 h l =
    let inside = drop_inside mem it 0 message d in
    let size : distance mem it ≡ length mem - it = omega arith in
    let zero_moved : it + 0 ≡ it = omega arith in
    rw (
      size,
      decode_variable_int-var_bytes mem it (length mem - it) 0 message d (omega arith)
          (omega arith),
      zero_moved,
      decode_properties-print packet mem it false c [] (0 ∷ message) tt d (omega arith)
          (omega arith),
      read_message-print mem (it + 1) message (drop_next mem it 0 message d) t h0 h (omega arith),
    )

pub decode_publish_packet_body-print :
    (p : LmqttPacket) (topic message : List ℕ)
    → p.body ≡ print_publish topic message
    → IsText topic
    → IsText message
    → 0 < length message
    → length message < 256
    → decode_publish_packet_body p ≡ (
      record p { client_cfg = record p.client_cfg { last_topic = topic } },
      require (not (has_wildcard message)) malformed_packet,
    )
unfolding decode_publish_packet_body
decode_publish_packet_body-print p topic message b t tm h0 h =
    let short = t.4 in
    let len = length-append (print_block topic) (0 ∷ message) in
    let size : length (print_block topic) ≡ 2 + length topic = omega arith in
    let d : drop (2 + length topic) p.body ≡ 0 ∷ message =
      ap (λ m. drop (2 + length topic) m) b
      ∙ ap (λ n. drop n (print_publish topic message)) (sym size)
      ∙ drop-append (print_block topic) (0 ∷ message) in
    rw (
      ap read_topic b ∙ read_topic-print topic message t,
      rest_print p.packet_type p.body (2 + length topic)
          (record p.client_cfg { last_topic = topic }) message d tm h0 h
          (omega (arith, len, ap length b)),
    )
