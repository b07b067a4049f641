-- ===== src/Utf8/Rounds.antt =====
-- check_char on a buffer: which branch a lead byte takes, and what a round does.
use lmqtt_cpp.Common.{
  ℕ, ◌+◌, ◌/◌, ◌%◌, ◌≤◌, ◌<◌, ◌≡◌, refl, ◌≢◌, List, ◌∷◌, ◌++◌, ne→==, length, drop, ok, arith,
}
use lmqtt_cpp.Common.Bits.{mask_e0, mask_f0, mask_f8}
use lmqtt_cpp.Memory.{load_nth, load_at}
use lmqtt_cpp.Utf8.{
  ill, advance, check_one, check_two, check_three, check_four, two_bytes, three_bytes, four_bytes,
  check_lead, check_char,
}
use lmqtt_cpp.Utf8.Spec.{IsScalar, encode_char, is_nochar}
use lmqtt_cpp.Utf8.Chars.{check_one-encode, check_two-encode, check_three-encode, check_four-encode}

module _ (mem : List ℕ) (it end : ℕ) where
  pub lead_one : (b : ℕ) → b < 128 → check_lead mem it end b ≡ ok (check_one b)
  unfolding check_lead
  lead_one b h = ground arith

  pub lead_two : (b : ℕ) → b / 32 ≡ 6 → check_lead mem it end b ≡ two_bytes mem it end b
  unfolding check_lead
  lead_two b h = ground (arith, mask_e0 b)

  pub lead_three : (b : ℕ) → b / 16 ≡ 14 → check_lead mem it end b ≡ three_bytes mem it end b
  unfolding check_lead
  lead_three b h = ground (arith, mask_e0 b, mask_f0 b)

  pub lead_four : (b : ℕ) → b / 8 ≡ 30 → check_lead mem it end b ≡ four_bytes mem it end b
  unfolding check_lead
  lead_four b h = ground (arith, mask_e0 b, mask_f0 b, mask_f8 b)

  pub lead_none :
      (b : ℕ)
      → 128 ≤ b
      → b < 256
      → b / 32 ≢ 6
      → b / 16 ≢ 14
      → b / 8 ≢ 30
      → check_lead mem it end b ≡ ok ill
  unfolding check_lead
  lead_none b h l n2 n3 n4 = ground (arith, mask_e0 b, mask_f0 b, mask_f8 b)

  round_one :
      (b1 : ℕ) (rest : List ℕ)
      → drop it mem ≡ b1 ∷ rest
      → b1 < 128
      → check_char mem it end ≡ ok (check_one b1)
  unfolding check_char
  round_one b1 rest e h = rw (load_at mem it b1 _ e) (lead_one b1 h)

  round_two :
      (b1 b2 : ℕ) (rest : List ℕ)
      → drop it mem ≡ b1 ∷ b2 ∷ rest
      → b1 / 32 ≡ 6
      → it + 2 ≤ end
      → check_char mem it end ≡ ok (check_two b1 b2)
  unfolding check_char two_bytes
  round_two b1 b2 rest e h l = rw (
    load_at mem it b1 _ e,
    lead_two b1 h,
    ne→== (it + 1) end (omega arith),
    load_nth mem it 1 b2 _ e refl,
    two_bytes,
  )

  round_three :
      (b1 b2 b3 : ℕ) (rest : List ℕ)
      → drop it mem ≡ b1 ∷ b2 ∷ b3 ∷ rest
      → b1 / 16 ≡ 14
      → it + 3 ≤ end
      → check_char mem it end ≡ ok (check_three b1 b2 b3)
  unfolding check_char three_bytes
  round_three b1 b2 b3 rest e h l = rw (
    load_at mem it b1 _ e,
    lead_three b1 h,
    ne→== (it + 2) end (omega arith),
    load_nth mem it 1 b2 _ e refl,
    load_nth mem it 2 b3 _ e refl,
    three_bytes,
  )

  round_four :
      (b1 b2 b3 b4 : ℕ) (rest : List ℕ)
      → drop it mem ≡ b1 ∷ b2 ∷ b3 ∷ b4 ∷ rest
      → b1 / 8 ≡ 30
      → it + 4 ≤ end
      → check_char mem it end ≡ ok (check_four b1 b2 b3 b4)
  unfolding check_char four_bytes
  round_four b1 b2 b3 b4 rest e h l = ground (
    arith,
    load_at mem it b1 _ e,
    lead_four b1 h,
    load_nth mem it 1 b2 _ e refl,
    load_nth mem it 2 b3 _ e refl,
    load_nth mem it 3 b4 _ e refl,
  )

  -- A round on the encoding of a scalar value that lies inside the view.
  pub check_char-encode :
      (c : ℕ) (rest : List ℕ)
      → IsScalar c
      → drop it mem ≡ encode_char c ++ rest
      → it + length (encode_char c) ≤ end
      → check_char mem it end ≡ ok (advance (is_nochar c) (length (encode_char c)))
  unfolding encode_char
  check_char-encode c rest s e h = ground (
    arith,
    round_one c rest,
    round_two (0xc0 + c / 64) (0x80 + c % 64) rest,
    round_three (0xe0 + c / 4096) (0x80 + c / 64 % 64) (0x80 + c % 64) rest,
    round_four (0xf0 + c / 262144) (0x80 + c / 4096 % 64) (0x80 + c / 64 % 64) (0x80 + c % 64) rest,
    check_one-encode c,
    check_two-encode c,
    check_three-encode c,
    check_four-encode c,
  )
