-- ===== src/Utf8/Spec.antt =====
-- UTF-8 by code points: what the check of include/lmqtt_utf8_string.h is held against.
use lmqtt_cpp.Common.{
  ◌||◌, ℕ, ◌+◌, ◌/◌, ◌%◌, ◌≤◌, ◌<◌, ◌⊎◌, Bool, false, List, [], ◌∷◌, ◌++◌, ltb, leb, ◌==◌,
  if◌then◌else◌, length, All, arith,
}

-- A Unicode scalar value other than U+0000, which no MQTT string holds.
abbrev pub IsScalar : ℕ → Type 0
IsScalar c = (0 < c) × (c < 0x110000) × ((c < 0xd800) ⊎ (0xe000 ≤ c))

unfoldable pub encode_char : ℕ → List ℕ
encode_char c =
    if ltb c 0x80
    then c ∷ []
    else if ltb c 0x800
    then (0xc0 + c / 64) ∷ (0x80 + c % 64) ∷ []
    else if ltb c 0x10000
    then (0xe0 + c / 4096) ∷ (0x80 + c / 64 % 64) ∷ (0x80 + c % 64) ∷ []
    else (0xf0 + c / 262144) ∷ (0x80 + c / 4096 % 64) ∷ (0x80 + c / 64 % 64) ∷ (0x80 + c % 64) ∷ []

unfoldable pub encode_text : List ℕ → List ℕ
encode_text [] = []
encode_text (c ∷ cs) = encode_char c ++ encode_text cs

-- The characters for which the result is WELL_FORMED_NO_CHARACTOR: U+0001 to U+001F, U+007F, and the
-- last two of each plane.
unfoldable pub is_nochar : ℕ → Bool
is_nochar c = ltb c 0x20 || (c == 0x7f || leb 0xfffe (c % 0x10000))

unfoldable pub any_nochar : List ℕ → Bool
any_nochar [] = false
any_nochar (c ∷ cs) = is_nochar c || any_nochar cs

pub encode_char-IsByte : (c : ℕ) → IsScalar c → All (λ b. b < 256) (encode_char c)
unfolding encode_char
encode_char-IsByte c h = ground arith

pub length-encode_char : (c : ℕ) → (1 ≤ length (encode_char c)) × (length (encode_char c) ≤ 4)
unfolding encode_char
length-encode_char c = ground arith
