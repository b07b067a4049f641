-- ===== src/Packet/Publish.antt =====
-- decode_publish_packet_body and decode_disconnect_packet_body of include/lmqtt_packet.h.
use lmqtt_cpp.Common.{
  ℕ, ◌+◌, ◌-◌, ◌%◌, ◌^◌, false, not, ◌||◌, List, [], ◌∷◌, ltb, ◌==◌, length, Result, ok, err, fault,
  no_fuel, ◌>>=◌, ◌>>◌, require,
}
use lmqtt_cpp.Common.{malformed_packet}
use lmqtt_cpp.Utf8.{has_wildcard}
use lmqtt_cpp.VarInt.{decode_variable_int}
use lmqtt_cpp.Types.Packet.{PacketType}
use lmqtt_cpp.Strings.{decode_utf8_str, decode_utf8_str_fixed}
use lmqtt_cpp.Property.{view_bytes}
use lmqtt_cpp.Config.{ClientConfig, Configured}
use lmqtt_cpp.Packet.{LmqttPacket}
use lmqtt_cpp.Packet.Properties.{and_then, decode_properties}
use lmqtt_cpp.Packet.Payload.{or_malformed}
use lmqtt_cpp.Packet.Connect.{with_cfg}

-- A uint32_t of std::distance(it, _body.end()).
abbrev pub distance : List ℕ → ℕ → ℕ
distance mem it = (length mem + 2 ^ 32 - it) % 2 ^ 32

-- The topic and the offset; the code of decode_utf8_str is not looked at.
unfoldable pub read_topic : List ℕ → Result (List ℕ × ℕ)
read_topic mem = do
  d ← decode_utf8_str mem 0 0
  topic ← view_bytes mem d.decoded_string
  ok (topic, d.offset)

-- From `it` on: the message, to the end of the body.
unfoldable pub read_message : List ℕ → ℕ → Result (Unit {0})
read_message mem it = do
  let message_length = distance mem it
  require (not (message_length == 0 || ltb 0xff message_length)) malformed_packet
  (good, message) ← decode_utf8_str_fixed mem it message_length
  require good malformed_packet
  text ← view_bytes mem message
  require (not (has_wildcard text)) malformed_packet

-- The outcome of decode_properties, whose code is not looked at.
abbrev pub ignore_code : Configured → Configured
ignore_code (c, ok u) = (c, ok tt)
ignore_code (c, err e) = (c, ok tt)
ignore_code (c, fault) = (c, fault)
ignore_code (c, no_fuel) = (c, no_fuel)

-- Behind the topic, at `it`.
unfoldable pub decode_publish_rest : PacketType → List ℕ → ℕ → ClientConfig → Configured
decode_publish_rest packet mem it c =
    and_then (c, or_malformed (decode_variable_int mem it (distance mem it)))
      λ c' r.
        and_then (ignore_code (decode_properties packet mem (it + r.1) r.0 false c'))
          λ c'' u. (c'', read_message mem (it + r.1 + 1))

unfoldable pub decode_publish_packet_body : LmqttPacket → LmqttPacket × Result (Unit {0})
decode_publish_packet_body p = with_cfg p (
    and_then (p.client_cfg, read_topic p.body)
      λ c r. decode_publish_rest p.packet_type p.body r.1 (record c { last_topic = r.0 }))

-- Every reason code is a SUCCESS; it is only logged.
unfoldable pub decode_disconnect_packet_body : LmqttPacket → LmqttPacket × Result (Unit {0})
decode_disconnect_packet_body p = elim p.body [ [] ↦ (p, ok tt) | reason ∷ rest ↦ (p, ok tt) ]
