-- ===== src/Utf8/Steps.antt =====
-- What a round of is_valid_content that goes on has read.
use lmqtt_cpp.Common.{
  ℕ, ◌+◌, ◌/◌, ◌≤◌, ◌<◌, ◌≡◌, sym, ap, ◌∙◌, ◌≢◌, ◌⊎◌, inl, inr, Bool, List, [], ◌∷◌, ◌++◌, length,
  drop, All, ok, arith,
}
use native.Mathlib.Decide.{dec_lt, ℕ_discrete}
use lmqtt_cpp.Common.Bits.{IsByte}
use lmqtt_cpp.Memory.{load, load_in, drop_cons, drop_two, drop_three, drop_four}
use lmqtt_cpp.Utf8.{
  advance, check_three, check_four, two_bytes, three_bytes, four_bytes, check_lead, check_char,
}
use lmqtt_cpp.Utf8.Spec.{IsScalar, encode_char, is_nochar}
use lmqtt_cpp.Utf8.Chars.{
  Accepts, check_one_sound, check_two_sound, check_three_sound, check_four_sound,
}
use lmqtt_cpp.Utf8.Rounds.{lead_one, lead_two, lead_three, lead_four, lead_none}

-- A character that lies inside the view, of `n` bytes.
abbrev pub Reads : List ℕ → ℕ → ℕ → ℕ → Bool → Type 0
Reads mem it end n nochar =
    (c : ℕ) × IsScalar c
    × (drop it mem ≡ encode_char c ++ drop (it + n) mem)
    × (n ≡ length (encode_char c))
    × (is_nochar c ≡ nochar)
    × (it + n ≤ end)

-- A three-byte lead at the last place of the view.
abbrev pub IsLoneLead : List ℕ → ℕ → ℕ → Type 0
IsLoneLead mem it end = (b : ℕ) × (load mem it ≡ ok b) × (b / 16 ≡ 14) × (it + 1 ≡ end)

Reads-of :
    (mem : List ℕ) (it end n : ℕ) (nochar : Bool) (bytes : List ℕ)
    → drop it mem ≡ bytes ++ drop (it + length bytes) mem
    → it + length bytes ≤ end
    → Accepts bytes nochar × (n ≡ length bytes)
    → Reads mem it end n nochar
Reads-of mem it end n nochar bytes d h ((c, s, e, k), l) =
    (c, s, rw (e, l) d, l ∙ ap length (sym e), k, omega arith)

module _ (mem : List ℕ) (it end n : ℕ) (nochar : Bool) (w : All IsByte mem) (h : it < end)
    (l : end ≤ length mem) where
  two_bytes-Reads :
      (b1 : ℕ)
      → load mem it ≡ ok b1
      → b1 / 32 ≡ 6
      → two_bytes mem it end b1 ≡ ok (advance nochar n)
      → Reads mem it end n nochar
  unfolding two_bytes
  two_bytes-Reads b1 e1 lead e = elim (ℕ_discrete (it + 1) end) [
    | yes last ↦ absurd (ground arith)
    | no more ↦
        let (b2, e2, l2) = load_in mem (it + 1) (omega arith) w in
        Reads-of mem it end n nochar (b1 ∷ b2 ∷ []) (drop_two mem it b1 b2 e1 e2) (omega arith)
          (check_two_sound b1 b2 n nochar lead l2 (ground arith))
  ]

  three_inside :
      (b1 b2 b3 : ℕ)
      → ¬ (end < it + 3)
      → load mem (it + 1) ≡ ok b2
      → load mem (it + 2) ≡ ok b3
      → three_bytes mem it end b1 ≡ ok (advance nochar n)
      → check_three b1 b2 b3 ≡ advance nochar n
  unfolding three_bytes
  three_inside b1 b2 b3 more e2 e3 e = ground arith

  four_inside :
      (b1 b2 b3 b4 : ℕ)
      → it + 4 ≤ end
      → load mem (it + 1) ≡ ok b2
      → load mem (it + 2) ≡ ok b3
      → load mem (it + 3) ≡ ok b4
      → four_bytes mem it end b1 ≡ ok (advance nochar n)
      → check_four b1 b2 b3 b4 ≡ advance nochar n
  unfolding four_bytes
  four_inside b1 b2 b3 b4 more e2 e3 e4 e = ground arith

  four_short : (b1 : ℕ) → end ≤ it + 3 → four_bytes mem it end b1 ≢ ok (advance nochar n)
  unfolding four_bytes
  four_short b1 short e = ground arith

  -- Of a three-byte lead at the last place of the view the code reads on past the view.
  three_bytes-Reads :
      (b1 : ℕ)
      → load mem it ≡ ok b1
      → b1 / 16 ≡ 14
      → three_bytes mem it end b1 ≡ ok (advance nochar n)
      → ((end < it + n) × IsLoneLead mem it end) ⊎ Reads mem it end n nochar
  unfolding three_bytes check_three
  three_bytes-Reads b1 e1 lead e = elim (dec_lt end (it + 3)) [
    | yes short ↦ inl (ground arith, (b1, e1, lead, ground arith))
    | no more ↦
        let (b2, e2, l2) = load_in mem (it + 1) (omega arith) w in
        let (b3, e3, l3) = load_in mem (it + 2) (omega arith) w in
        inr (
          Reads-of mem it end n nochar (b1 ∷ b2 ∷ b3 ∷ []) (drop_three mem it b1 b2 b3 e1 e2 e3)
            (omega arith)
            (check_three_sound b1 b2 b3 n nochar lead l2 l3 (three_inside b1 b2 b3 more e2 e3 e)))
  ]

  four_bytes-Reads :
      (b1 : ℕ)
      → load mem it ≡ ok b1
      → b1 / 8 ≡ 30
      → four_bytes mem it end b1 ≡ ok (advance nochar n)
      → Reads mem it end n nochar
  four_bytes-Reads b1 e1 lead e = elim (dec_lt end (it + 4)) [
    | yes short ↦ absurd (four_short b1 (omega arith) e)
    | no more ↦
        let (b2, e2, l2) = load_in mem (it + 1) (omega arith) w in
        let (b3, e3, l3) = load_in mem (it + 2) (omega arith) w in
        let (b4, e4, l4) = load_in mem (it + 3) (omega arith) w in
        Reads-of mem it end n nochar (b1 ∷ b2 ∷ b3 ∷ b4 ∷ [])
          (drop_four mem it b1 b2 b3 b4 e1 e2 e3 e4) (omega arith)
          (check_four_sound b1 b2 b3 b4 n nochar lead l2 l3 l4
            (four_inside b1 b2 b3 b4 (omega arith) e2 e3 e4 e))
  ]

  -- A round that goes on has read the encoding of one scalar value, or it has passed the end.
  pub check_char-Reads :
      check_char mem it end ≡ ok (advance nochar n)
      → ((end < it + n) × IsLoneLead mem it end) ⊎ Reads mem it end n nochar
  unfolding check_char
  check_char-Reads e = elim (dec_lt b1 128) [
    | yes one ↦ inr (
        Reads-of mem it end n nochar (b1 ∷ []) (drop_cons mem it b1 e1) (omega arith)
          (check_one_sound b1 n nochar one (cc (lead_one mem it end b1 one, lead))))
    | no n1 ↦ elim (ℕ_discrete (b1 / 32) 6) [
      | yes two ↦ inr (two_bytes-Reads b1 e1 two (sym (lead_two mem it end b1 two) ∙ lead))
      | no n2 ↦ elim (ℕ_discrete (b1 / 16) 14) [
        | yes three ↦ three_bytes-Reads b1 e1 three (sym (lead_three mem it end b1 three) ∙ lead)
        | no n3 ↦ elim (ℕ_discrete (b1 / 8) 30) [
          | yes four ↦ inr (four_bytes-Reads b1 e1 four (sym (lead_four mem it end b1 four) ∙ lead))
          | no n4 ↦ cc (lead_none mem it end b1 (omega arith) l1 n2 n3 n4, lead)
        ]
      ]
    ]
  ]
    where
      first : (b : ℕ) × (load mem it ≡ ok b) × (b < 256)
      first = load_in mem it (omega arith) w

      b1 : ℕ
      b1 = first.0

      e1 : load mem it ≡ ok b1
      e1 = first.1

      l1 : b1 < 256
      l1 = first.2

      lead : check_lead mem it end b1 ≡ ok (advance nochar n)
      lead = rw e1 at e
