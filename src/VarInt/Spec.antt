-- ===== src/VarInt/Spec.antt =====
-- The variable byte integers of the MQTT standard (its table of the size of the encoding), which
-- include/lmqtt_utils.h means to read and write.
use lmqtt_cpp.Common.{
  ℕ, ◌+◌, ◌/◌, ◌%◌, ◌^◌, ◌≤◌, ◌<◌, List, [], ◌∷◌, ltb, if◌then◌else◌, length, All, arith,
}

-- Seven bits a byte, lowest first, with the top bit set on every byte but the last.
unfoldable pub var_bytes : ℕ → List ℕ
var_bytes v =
    if ltb v 128
    then v ∷ []
    else if ltb v 16384
    then (v % 128 + 128) ∷ v / 128 ∷ []
    else if ltb v 2097152
    then (v % 128 + 128) ∷ (v / 128 % 128 + 128) ∷ v / 16384 ∷ []
    else (v % 128 + 128) ∷ (v / 128 % 128 + 128) ∷ (v / 16384 % 128 + 128) ∷ v / 2097152 ∷ []

pub var_bytes-IsByte : (v : ℕ) → v < 2 ^ 28 → All (λ b. b < 256) (var_bytes v)
unfolding var_bytes
var_bytes-IsByte v h = ground arith

pub length-var_bytes : (v : ℕ) → (1 ≤ length (var_bytes v)) × (length (var_bytes v) ≤ 4)
unfolding var_bytes
length-var_bytes v = ground arith
