-- ===== src/Packet/WillRead.antt =====
-- The will in a CONNECT packet: the payload loop of include/lmqtt_packet.h on the will properties and
-- the will topic.
use lmqtt_cpp.Common.{
  ℕ, ◌+◌, ◌-◌, ◌/◌, ◌%◌, ◌^◌, ◌<◌, ◌≡◌, refl, ap, ◌∙◌, true, some, List, [], ◌∷◌, ◌++◌, length,
  drop, length-append, length-drop, ok, arith,
}
use lmqtt_cpp.Memory.{drop_inside}
use lmqtt_cpp.Utf8.Spec.{any_nochar, encode_text}
use lmqtt_cpp.VarInt.Spec.{var_bytes}
use lmqtt_cpp.VarInt.Decode.{decode_variable_int-var_bytes}
use lmqtt_cpp.Types.Packet.{PacketType}
use lmqtt_cpp.Types.Property.{same_data}
use lmqtt_cpp.Types.Payload
use lmqtt_cpp.Types.Payload.{PayloadType, get_payload_data_type}
use lmqtt_cpp.Property.Print.{print_block, print_properties, IsText}
use lmqtt_cpp.Property.RoundTrip.{get_string_block}
use lmqtt_cpp.Payload.{get_payload, get_payload_value, check_payload_type}
use lmqtt_cpp.Config.{ClientConfig, WillConfig}
use lmqtt_cpp.Config.Payload.{configure_payload, configure_part}
use lmqtt_cpp.Packet.PropertyList.{apply_all, decode_properties-print}
use lmqtt_cpp.Packet.Payload.{
  will_properties_part, payload_part, payload_step, payload_loop, loop_next,
}

-- With no will properties, `buff` stays on their length byte.
will_properties_step :
    (packet : PacketType) (mem : List ℕ) (buff : ℕ) (c : ClientConfig) (rest : List ℕ)
    → drop buff mem ≡ 0 ∷ rest
    → length mem < 2 ^ 32
    → payload_step Payload.will_properties packet mem buff c ≡ (c, ok buff)
unfolding payload_step will_properties_part var_bytes print_properties apply_all
will_properties_step packet mem buff c rest d l =
    let here = drop_inside mem buff 0 rest d in
    let zero_moved : buff + 0 ≡ buff = omega arith in
    rw (
      decode_variable_int-var_bytes mem buff (length mem - buff) 0 rest d (omega arith)
          (omega arith),
      zero_moved,
      decode_properties-print packet mem buff true c [] (0 ∷ rest) tt d (omega arith) l,
      zero_moved,
    )

will_topic_step :
    (packet : PacketType) (mem : List ℕ) (buff : ℕ) (c : ClientConfig) (w : WillConfig)
    (s rest : List ℕ)
    → drop buff mem ≡ print_block s ++ rest
    → IsText s
    → c.will_flag ≡ 1
    → c.will_cfg ≡ some w
    → payload_step Payload.will_topic packet mem buff c
      ≡ (record c { will_cfg = some (record w { topic = s }) }, ok (buff + (2 + length s)))
unfolding payload_step payload_part get_payload get_payload_value get_payload_data_type
    configure_payload configure_part check_payload_type same_data
will_topic_step packet mem buff c w s rest d t f g =
    rw
      (get_string_block mem buff (length mem - buff) s rest d t
        (omega (arith, length-drop buff mem, ap length d, length-append s rest)))
      (rw (f, g))

no-IsText : IsText []
unfolding any_nochar encode_text
no-IsText = ([], tt, refl, refl, omega arith)

-- When the payload loop stands on the encoding of no will properties and of a topic shorter
-- than 256 bytes, in a body of less than 2 ^ 32, with the will flag 1 and the will's
-- configuration there, it takes the two bytes of zero for an empty topic, and goes on two bytes
-- further, at the low byte of the topic's length.
pub payload_loop-lost_topic :
    (rest : List PayloadType) (packet : PacketType) (mem : List ℕ) (buff : ℕ) (c : ClientConfig)
    (w : WillConfig) (topic more : List ℕ)
    → drop buff mem ≡ 0 ∷ (print_block topic ++ more)
    → length topic < 256
    → length mem < 2 ^ 32
    → c.will_flag ≡ 1
    → c.will_cfg ≡ some w
    → payload_loop (Payload.will_properties ∷ Payload.will_topic ∷ rest) packet mem buff c
      ≡ payload_loop rest packet mem
          (buff + 2)
          (record c { will_cfg = some (record w { topic = [] }) })
payload_loop-lost_topic rest packet mem buff c w topic more d ht l f g =
    let here = drop_inside mem buff 0 _ d in
    let high : length topic / 256 ≡ 0 = omega arith in
    let zeros : drop buff mem ≡ print_block [] ++ (length topic % 256 ∷ (topic ++ more)) =
      d ∙ rw high refl in
    loop_next Payload.will_properties _ packet mem buff c here
    ∙ rw (will_properties_step packet mem buff c _ d l) (
        loop_next Payload.will_topic rest packet mem buff c here
        ∙ rw (will_topic_step packet mem buff c w [] _ zeros no-IsText f g))
