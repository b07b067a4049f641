-- ===== src/VarInt.antt =====
-- include/lmqtt_utils.h: the variable byte integers and the strings with a length in front.
pub mod Spec
pub mod Decode
pub mod Encode
use lmqtt_cpp.Common.{
  ◌>>◌, ◌>>=◌, ℕ, zero, suc, ◌+◌, ◌*◌, ◌/◌, ◌%◌, ◌^◌, true, false, List, [], bit_and, bit_or, ltb,
  leb, ◌==◌, if◌then◌else◌, Result, ok, err, fault, no_fuel, length, set,
}
use lmqtt_cpp.Common.{unspecified_error}
use lmqtt_cpp.Memory.{load}

-- return_code::FAIL carries no reason.
abbrev pub fail {ℓ} : {A : Type ℓ} → Result A
fail = err unspecified_error

-- One `decodedValue += (byte & 0x7f) * mul; mul *= 0x80`. `mul` is a uint8_t.
abbrev pub add_group : ℕ → ℕ → ℕ → ℕ
add_group value byte mul = (value + bit_and byte 0x7f * mul) % 2 ^ 32

abbrev pub next_mul : ℕ → ℕ
next_mul mul = mul * 0x80 % 256

-- The rounds of the `for` loop that are left, `offset`, `decodedValue` and `mul`. It gives back
-- `decodedValue` and `offset`; `++offset` is skipped by the `break`.
unfoldable pub decode_loop : ℕ → List ℕ → ℕ → ℕ → ℕ → ℕ → ℕ → Result (ℕ × ℕ)
decode_loop zero mem buffer size offset value mul = ok (value, offset)
decode_loop (suc rounds) mem buffer size offset value mul = elim (leb size offset) [
  | true ↦ fail
  | false ↦ do
    byte ← load mem (buffer + offset)
    let value' = add_group value byte mul
    let more = decode_loop rounds mem buffer size (offset + 1) value' (next_mul mul)
    if ltb 0x200000 mul then fail else if bit_and byte 0x80 == 0 then ok (value', offset) else more
]

unfoldable pub decode_variable_int : List ℕ → ℕ → ℕ → Result (ℕ × ℕ)
decode_variable_int mem buffer size = decode_loop 4 mem buffer size 0 0 1

unfoldable pub get_variable_int_size : ℕ → ℕ
get_variable_int_size value =
    if leb 0x200000 value
    then 4
    else if leb 0x4000 value
    then 3
    else if leb 0x80 value
    then 2
    else 1

-- `while (valueToEncode)`: the bytes are stored from `buffer + offset` on.
unfoldable pub encode_loop : ℕ → List ℕ → ℕ → ℕ → ℕ → Result (List ℕ × ℕ)
encode_loop zero mem buffer value offset = no_fuel
encode_loop (suc fuel) mem buffer value offset = elim (value == 0) [
  | true ↦ ok (mem, offset)
  | false ↦
      let rest = value / 0x7f in
      let byte = if rest == 0 then value % 0x7f else bit_or (value % 0x7f) 0x7f in
      if ltb (buffer + offset) (length mem)
      then if ltb 4 (offset + 1)
        then fail
        else encode_loop fuel (set mem (buffer + offset) byte) buffer rest (offset + 1)
      else fault
]

-- A uint32_t has at most five digits in base 127, so six rounds are enough.
unfoldable pub encode_variable_int : List ℕ → ℕ → ℕ → ℕ → Result (List ℕ × ℕ)
encode_variable_int mem buffer size value =
    if ltb size 4 then fail else encode_loop 6 mem buffer value 0
