-- ===== src/Packet/Connack.antt =====
-- create_connack_packet and create_short_packet of include/lmqtt_packet.h.
use lmqtt_cpp.Common.{
  ℕ, ◌+◌, ◌-◌, ◌*◌, ◌%◌, ◌^◌, not, List, [], ◌∷◌, ◌++◌, ◌==◌, if◌then◌else◌, length, take,
  replicate, Result, ok, err, fault, no_fuel,
}
use lmqtt_cpp.Common.{unspecified_error}
use lmqtt_cpp.VarInt.{encode_variable_int, get_variable_int_size}
use lmqtt_cpp.Types.Packet.{PacketType, packet_code, is_server_packet}
use lmqtt_cpp.Types.Property.{PropertyType, connack_properties}
use lmqtt_cpp.Property.Write.{Written, and_write, store_all, or_fail}
use lmqtt_cpp.Config.{ClientConfig}
use lmqtt_cpp.Config.Fill.{get_property_size, fill_property}
use lmqtt_cpp.Packet.{LmqttPacket}

-- `_body.resize(n)`: what is added is zero.
abbrev pub resize : ℕ → List ℕ → List ℕ
resize n body = take n body ++ replicate (n - length body) 0

unfoldable pub properties_size : ClientConfig → ℕ → List PropertyType → ℕ
properties_size c total [] = total
properties_size c total (t ∷ ts) = properties_size c ((total + get_property_size c t) % 2 ^ 32) ts

-- encode_variable_int, and FAIL unless it writes `expected` bytes. Where it FAILs itself, the bytes it
-- has stored are not kept.
abbrev pub store_var : List ℕ → ℕ → ℕ → ℕ → ℕ → Written
store_var mem buffer size value expected = elim (encode_variable_int mem buffer size value) [
  | ok (mem', vi_size) ↦ or_fail (vi_size == expected) mem' (mem', ok tt)
  | err e ↦ (mem, err e)
  | fault ↦ (mem, fault)
  | no_fuel ↦ (mem, no_fuel)
]

-- `while (buff != buffEnd)`; `connack_properties[index++]` behind the last is a fault.
unfoldable pub fill_loop : List PropertyType → ClientConfig → List ℕ → ℕ → ℕ → Written
fill_loop [] c mem buff remaining_size = if buff == length mem then (mem, ok tt) else (mem, fault)
fill_loop (t ∷ ts) c mem buff remaining_size =
    if buff == length mem
    then (mem, ok tt)
    else and_write (fill_property c mem buff remaining_size t) λ mem'.
      fill_loop ts c mem' (buff + get_property_size c t)
        ((remaining_size + 2 ^ 32 - get_property_size c t) % 2 ^ 32)

-- What stands behind the two lengths: `start` is variableHeaderStart, `n` propertiesSize and `k`
-- propertiesVarSize. The last argument of the code is the value of its reason code.
unfoldable pub fill_body : ClientConfig → ℕ → ℕ → ℕ → ℕ → List ℕ → Written
fill_body c code start n k mem = and_write (store_all mem start (0 ∷ code ∷ [])) λ mem1.
    and_write (store_var mem1 (start + 2) (length mem1 - 1) n k) λ mem2.
      let remaining_size = length mem2 - (start + 2 + k) in
      or_fail (remaining_size == n) mem2
        (fill_loop connack_properties c mem2 (start + 2 + k) remaining_size)

unfoldable pub fill_connack : ClientConfig → PacketType → ℕ → List ℕ → Written
unfolding packet_code
fill_connack c ptype code body =
    let n = properties_size c 0 connack_properties in
    let k = get_variable_int_size n in
    let size = (2 + n + k) % 2 ^ 32 in
    let m = get_variable_int_size size in
    and_write
      (store_all (resize ((m + size + 1) % 2 ^ 32) body) 0 (packet_code ptype * 16 % 256 ∷ []))
      λ mem1.
        and_write (store_var mem1 1 (length mem1 - 1) size m)
          λ mem2. fill_body c code (1 + m) n k mem2

abbrev with_body : LmqttPacket → Written → LmqttPacket × Result (Unit {0})
with_body p (mem, r) = (record p { body = mem }, r)

unfoldable pub create_connack_packet :
    LmqttPacket → PacketType → ℕ → LmqttPacket × Result (Unit {0})
create_connack_packet p ptype code =
    if not (is_server_packet ptype)
    then (p, err unspecified_error)
    else with_body p (fill_connack p.client_cfg ptype code p.body)

unfoldable pub create_short_packet : LmqttPacket → LmqttPacket × Result (Unit {0})
create_short_packet p = with_body p (store_all (resize 4 p.body) 0 (32 ∷ 2 ∷ 0 ∷ 0 ∷ []))
