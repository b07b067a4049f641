-- ===== src/Packet/Connect.antt =====
-- decode_connect_packet_body of include/lmqtt_packet.h.
use lmqtt_cpp.Common.{
  ◌>>◌, ◌>>=◌, ℕ, ◌+◌, ◌-◌, ◌/◌, ◌%◌, Bool, true, false, not, ◌&&◌, List, [], ◌∷◌, bit_and, ltb,
  ◌==◌, if◌then◌else◌, length, set, Result, ok, err, fault, no_fuel, require,
}
use lmqtt_cpp.Common.{malformed_packet, unsupported_protocol_version}
use lmqtt_cpp.Memory.{load, load_u16, read_bytes}
use lmqtt_cpp.VarInt.{decode_variable_int}
use lmqtt_cpp.Types.Packet.{PacketType, connect}
use lmqtt_cpp.Types.Payload.{
  PayloadType, will_properties, will_topic, will_payload, user_name, password, payload_code,
}
use lmqtt_cpp.Config.{ClientConfig, Configured, init_will_cfg}
use lmqtt_cpp.Packet.{LmqttPacket}
use lmqtt_cpp.Packet.Properties.{and_then, decode_properties}
use lmqtt_cpp.Packet.Payload.{or_malformed, decode_payload}

abbrev pub mqtt : List ℕ
mqtt = b'M' ∷ b'Q' ∷ b'T' ∷ b'T' ∷ []

abbrev pub same_bytes : List ℕ → List ℕ → Bool
same_bytes [] [] = true
same_bytes [] (y ∷ ys) = false
same_bytes (x ∷ xs) [] = false
same_bytes (x ∷ xs) (y ∷ ys) = x == y && same_bytes xs ys

-- Bytes 0 to 6: the protocol's name and version. The two bytes of the length are added, in a uint8_t.
unfoldable pub check_protocol : List ℕ → Result (Unit {0})
check_protocol mem = do
  lsb ← load mem 1
  msb ← load mem 0
  require ((lsb + msb) % 256 == 4) malformed_packet
  name ← read_bytes mem 2 4
  require (same_bytes name mqtt) unsupported_protocol_version
  version ← load mem 6
  require (version == 5) unsupported_protocol_version

-- `_payloadFlags[to_underlying(ptype)] = ptype`.
abbrev pub expect : PayloadType → List PayloadType → List PayloadType
expect ptype flags = set flags (payload_code ptype) ptype

-- The client configuration and the payload flags, which byte 7 sets.
abbrev pub Flagged : Type 0
Flagged = ClientConfig × List PayloadType

-- Bits 2 to 4, under `if (_clientCfg->_willFlag)` and its `else`.
unfoldable pub read_will_flags : ℕ → Flagged → Flagged × Result (Unit {0})
unfolding payload_code
read_will_flags flags (c, fs) =
    let c1 = record c { will_flag = bit_and flags 0x4 / 4 } in
    let fs1 = expect will_payload (expect will_topic (expect will_properties fs)) in
    let c2 = record c1 { will_qos = bit_and flags 0x18 / 8 } in
    if c1.will_flag == 0
    then ((record c1 { will_qos = 0 }, fs), ok tt)
    else if c2.will_qos == 3
    then ((c2, fs1), err malformed_packet)
    else ((init_will_cfg c2, fs1), ok tt)

-- Bits 5 to 7.
unfoldable pub read_user_flags : ℕ → Flagged → Flagged
unfolding payload_code
read_user_flags flags (c, fs) =
    let c1 = record c {
      will_retain = bit_and flags 0x20 / 32;
      password_flag = bit_and flags 0x40 / 64;
      user_name_flag = bit_and flags 0x80 / 128;
    } in
    let fs1 = if c1.password_flag == 0 then fs else expect password fs in
    (c1, if c1.user_name_flag == 0 then fs1 else expect user_name fs1)

abbrev after_will : ℕ → Flagged × Result (Unit {0}) → Flagged × Result (Unit {0})
after_will flags (s, ok u) = (read_user_flags flags s, ok tt)
after_will flags (s, err e) = (s, err e)
after_will flags (s, fault) = (s, fault)
after_will flags (s, no_fuel) = (s, no_fuel)

-- Byte 7.
unfoldable pub read_connect_flags : ℕ → Flagged → Flagged × Result (Unit {0})
read_connect_flags flags (c, fs) =
    if not (bit_and flags 0x1 == 0)
    then ((c, fs), err malformed_packet)
    else after_will flags
        (read_will_flags flags (record c { clean_start = bit_and flags 0x2 / 2 }, fs))

-- From byte 10 on: the properties and the payload.
unfoldable pub decode_rest : List PayloadType → PacketType → List ℕ → ClientConfig → Configured
decode_rest flags packet mem c =
    if ltb (length mem) 13
    then (c, err malformed_packet)
    else and_then (c, or_malformed (decode_variable_int mem 10 (length mem - 10)))
        λ c' r.
          and_then (decode_properties packet mem (10 + r.1 + 1) r.0 false c')
            λ c'' u. decode_payload flags packet mem (10 + r.1 + 1 + r.0) c''

abbrev with_flags : LmqttPacket → Flagged → LmqttPacket
with_flags p (c, fs) = record p { client_cfg = c; payload_flags = fs }

abbrev pub with_cfg : LmqttPacket → Configured → LmqttPacket × Result (Unit {0})
with_cfg p (c, r) = (record p { client_cfg = c }, r)

-- Bytes 8 and 9, the keep alive time, and what follows.
unfoldable pub decode_after_flags : LmqttPacket → LmqttPacket × Result (Unit {0})
decode_after_flags p = with_cfg p (
    and_then (p.client_cfg, load_u16 p.body 8)
      λ c n. decode_rest p.payload_flags p.packet_type p.body (record c { keep_alive = n }))

abbrev after_flags : LmqttPacket → Flagged × Result (Unit {0}) → LmqttPacket × Result (Unit {0})
after_flags p (s, ok u) = decode_after_flags (with_flags p s)
after_flags p (s, err e) = (with_flags p s, err e)
after_flags p (s, fault) = (with_flags p s, fault)
after_flags p (s, no_fuel) = (with_flags p s, no_fuel)

abbrev flags_of : LmqttPacket → Result ℕ → LmqttPacket × Result (Unit {0})
flags_of p (ok flags) = after_flags p (read_connect_flags flags (p.client_cfg, p.payload_flags))
flags_of p (err e) = (p, err e)
flags_of p fault = (p, fault)
flags_of p no_fuel = (p, no_fuel)

unfoldable pub decode_connect_packet_body : LmqttPacket → LmqttPacket × Result (Unit {0})
decode_connect_packet_body p = flags_of p do check_protocol p.body; load p.body 7

-- decode_packet_body: only a CONNECT packet is decoded.
unfoldable pub decode_packet_body : LmqttPacket → LmqttPacket × Result (Unit {0})
decode_packet_body p = elim p.packet_type [
  | connect ↦ decode_connect_packet_body p
  | _ ↦ (p, ok tt)
]
