-- ===== src/Utf8/Chars.antt =====
-- One round of is_valid_content (include/lmqtt_utf8_string.h) on the bytes of one character.
use lmqtt_cpp.Common.{ℕ, ◌+◌, ◌-◌, ◌*◌, ◌/◌, ◌%◌, ◌≤◌, ◌<◌, ◌≡◌, ◌⊎◌, Bool, List, [], ◌∷◌, arith}
use lmqtt_cpp.Common.Bits.{mask_c0, mask_e0, mask_f0, mask_fe, mask_cf}
use lmqtt_cpp.Utf8.{advance, check_one, check_two, check_three, check_four}
use lmqtt_cpp.Utf8.Spec.{IsScalar, encode_char, is_nochar}

pub check_one-encode : (c : ℕ) → 0 < c → c < 0x80 → check_one c ≡ advance (is_nochar c) 1
unfolding check_one is_nochar
check_one-encode c h l = ground arith

pub check_two-encode :
    (c : ℕ)
    → 0x80 ≤ c
    → c < 0x800
    → check_two (0xc0 + c / 64) (0x80 + c % 64) ≡ advance (is_nochar c) 2
unfolding check_two is_nochar
check_two-encode c h l = ground (arith, mask_c0 (0x80 + c % 64), mask_fe (0xc0 + c / 64))

pub check_three-encode :
    (c : ℕ)
    → 0x800 ≤ c
    → c < 0x10000
    → (c < 0xd800) ⊎ (0xe000 ≤ c)
    → check_three (0xe0 + c / 4096) (0x80 + c / 64 % 64) (0x80 + c % 64) ≡ advance (is_nochar c) 3
unfolding check_three is_nochar
check_three-encode c h l s = ground (
  arith,
  mask_c0 (0x80 + c / 64 % 64),
  mask_c0 (0x80 + c % 64),
  mask_e0 (0x80 + c / 64 % 64),
  mask_fe (0x80 + c % 64),
)

pub check_four-encode :
    (c : ℕ)
    → 0x10000 ≤ c
    → c < 0x110000
    → check_four (0xf0 + c / 262144) (0x80 + c / 4096 % 64) (0x80 + c / 64 % 64) (0x80 + c % 64)
      ≡ advance (is_nochar c) 4
unfolding check_four is_nochar
check_four-encode c h l = ground (
  arith,
  mask_c0 (0x80 + c / 4096 % 64),
  mask_c0 (0x80 + c / 64 % 64),
  mask_c0 (0x80 + c % 64),
  mask_f0 (0x80 + c / 4096 % 64),
  mask_cf (0x80 + c / 4096 % 64),
  mask_fe (0x80 + c % 64),
)

-- A character that a round accepts: the bytes are the encoding of a scalar value.
abbrev pub Accepts : List ℕ → Bool → Type 0
Accepts bytes nochar = (c : ℕ) × IsScalar c × (encode_char c ≡ bytes) × (is_nochar c ≡ nochar)

pub check_one_sound :
    (b1 n : ℕ) (nochar : Bool)
    → b1 < 0x80
    → check_one b1 ≡ advance nochar n
    → Accepts (b1 ∷ []) nochar × (n ≡ 1)
unfolding check_one encode_char is_nochar
check_one_sound b1 n nochar h e = ((b1, ground arith, ground arith, ground arith), ground arith)

pub check_two_sound :
    (b1 b2 n : ℕ) (nochar : Bool)
    → b1 / 32 ≡ 6
    → b2 < 256
    → check_two b1 b2 ≡ advance nochar n
    → Accepts (b1 ∷ b2 ∷ []) nochar × (n ≡ 2)
unfolding check_two encode_char is_nochar
check_two_sound b1 b2 n nochar h hb e =
    let m1 = mask_fe b1 (omega arith) in
    let m2 = mask_c0 b2 hb in
    (((b1 - 0xc0) * 64 + (b2 - 0x80), ground arith, ground arith, ground arith), ground arith)

pub check_three_sound :
    (b1 b2 b3 n : ℕ) (nochar : Bool)
    → b1 / 16 ≡ 14
    → b2 < 256
    → b3 < 256
    → check_three b1 b2 b3 ≡ advance nochar n
    → Accepts (b1 ∷ b2 ∷ b3 ∷ []) nochar × (n ≡ 3)
unfolding check_three encode_char is_nochar
check_three_sound b1 b2 b3 n nochar h h2 h3 e =
    let m2 = mask_c0 b2 h2 in
    let m3 = mask_c0 b3 h3 in
    let k2 = mask_e0 b2 h2 in
    let k3 = mask_fe b3 h3 in
    (
      (
        (b1 - 0xe0) * 4096 + (b2 - 0x80) * 64 + (b3 - 0x80),
        ground arith,
        ground arith,
        ground arith,
      ),
      ground arith,
    )

pub check_four_sound :
    (b1 b2 b3 b4 n : ℕ) (nochar : Bool)
    → b1 / 8 ≡ 30
    → b2 < 256
    → b3 < 256
    → b4 < 256
    → check_four b1 b2 b3 b4 ≡ advance nochar n
    → Accepts (b1 ∷ b2 ∷ b3 ∷ b4 ∷ []) nochar × (n ≡ 4)
unfolding check_four encode_char is_nochar
check_four_sound b1 b2 b3 b4 n nochar h h2 h3 h4 e =
    let m2 = mask_c0 b2 h2 in
    let m3 = mask_c0 b3 h3 in
    let m4 = mask_c0 b4 h4 in
    let k2 = mask_f0 b2 h2 in
    let l2 = mask_cf b2 h2 in
    let k4 = mask_fe b4 h4 in
    (
      (
        (b1 - 0xf0) * 262144 + (b2 - 0x80) * 4096 + (b3 - 0x80) * 64 + (b4 - 0x80),
        ground arith,
        ground arith,
        ground arith,
      ),
      ground arith,
    )
