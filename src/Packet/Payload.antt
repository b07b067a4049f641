-- ===== src/Packet/Payload.antt =====
-- decode_payload of include/lmqtt_packet.h.
use lmqtt_cpp.Common.{
  ℕ, ◌+◌, ◌-◌, ◌<◌, ◌≡◌, refl, true, List, [], ◌∷◌, ltb, ◌==◌, if◌then◌else◌, le→ltb, ne→==, length,
  Result, ok, err, fault, no_fuel, arith,
}
use lmqtt_cpp.Common.{malformed_packet}
use lmqtt_cpp.VarInt.{decode_variable_int}
use lmqtt_cpp.Types.Packet.{PacketType}
use lmqtt_cpp.Types.Payload.{PayloadType, will_properties, unknown_payload}
use lmqtt_cpp.Payload.{get_payload}
use lmqtt_cpp.Config.{ClientConfig, Configured}
use lmqtt_cpp.Config.Payload.{configure_payload}
use lmqtt_cpp.Packet.Properties.{and_then, decode_properties}

-- A FAIL of the callee, whatever its code, is a MALFORMED_PACKET.
abbrev pub or_malformed {ℓ} : {A : Type ℓ} → Result A → Result A
or_malformed (ok a) = ok a
or_malformed (err e) = err malformed_packet
or_malformed fault = fault
or_malformed no_fuel = no_fuel

-- The WILL_PROPERTIES branch: `buff` moves by `varSize`, which is one less than the bytes read.
unfoldable pub will_properties_part :
    PacketType → List ℕ → ℕ → ℕ → ClientConfig → ClientConfig × Result ℕ
will_properties_part packet mem buff remaining_size c =
    and_then (c, or_malformed (decode_variable_int mem buff remaining_size))
      λ c' r.
        and_then (decode_properties packet mem (buff + r.1) r.0 true c')
          λ c'' u. (c'', ok (buff + r.1 + r.0))

-- The other branch.
unfoldable pub payload_part : PayloadType → List ℕ → ℕ → ℕ → ClientConfig → ClientConfig × Result ℕ
payload_part ptype mem buff remaining_size c =
    and_then (c, get_payload ptype mem buff remaining_size)
      λ c' r. and_then (configure_payload c' r.0) λ c'' u. (c'', ok (buff + r.1))

-- The body of the `for` loop behind the two tests of `buff`: the next `buff`.
unfoldable pub payload_step :
    PayloadType → PacketType → List ℕ → ℕ → ClientConfig → ClientConfig × Result ℕ
payload_step unknown_payload packet mem buff c = (c, ok buff)
payload_step will_properties packet mem buff c =
    will_properties_part packet mem buff (length mem - buff) c
payload_step ptype packet mem buff c = payload_part ptype mem buff (length mem - buff) c

-- `for (const auto ptype : _payloadFlags)`; `buffEnd` is the end of the body.
unfoldable pub payload_loop : List PayloadType → PacketType → List ℕ → ℕ → ClientConfig → Configured
payload_loop [] packet mem buff c = (c, ok tt)
payload_loop (ptype ∷ rest) packet mem buff c =
    if buff == length mem
    then (c, ok tt)
    else if ltb (length mem) buff
    then (c, err malformed_packet)
    else and_then (payload_step ptype packet mem buff c)
        λ c' buff'. payload_loop rest packet mem buff' c'

unfoldable pub decode_payload :
    List PayloadType → PacketType → List ℕ → ℕ → ClientConfig → Configured
decode_payload flags packet mem start c =
    if ltb (length mem) start
    then (c, err malformed_packet)
    else payload_loop flags packet mem start c

pub loop_end :
    (flags : List PayloadType) (packet : PacketType) (mem : List ℕ) (buff : ℕ) (c : ClientConfig)
    → buff ≡ length mem
    → payload_loop flags packet mem buff c ≡ (c, ok tt)
unfolding payload_loop
loop_end [] packet mem buff c e = refl
loop_end (t ∷ rest) packet mem buff c e = ground arith

pub loop_next :
    (t : PayloadType) (rest : List PayloadType) (packet : PacketType) (mem : List ℕ) (buff : ℕ)
    (c : ClientConfig)
    → buff < length mem
    → payload_loop (t ∷ rest) packet mem buff c
      ≡ and_then
          (payload_step t packet mem buff c)
          λ c' buff'. payload_loop rest packet mem buff' c'
unfolding payload_loop
loop_next t rest packet mem buff c h =
    rw (ne→== buff (length mem) (omega arith), le→ltb (length mem) buff (omega arith))
