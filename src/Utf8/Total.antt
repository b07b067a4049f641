-- ===== src/Utf8/Total.antt =====
-- is_valid_content of include/lmqtt_utf8_string.h comes back, and where it reads past its buffer.
use lmqtt_cpp.Common.{
  ℕ, zero, suc, ◌+◌, ◌/◌, ◌≤◌, ◌<◌, ◌≡◌, ◌∙◌, ◌≢◌, ◌⊎◌, inl, inr, Bool, List, ne→==, length, All,
  ok, no_fuel, arith,
}
use native.Mathlib.Decide.{dec_lt, ℕ_discrete}
use lmqtt_cpp.Common.Bits.{IsByte}
use lmqtt_cpp.Memory.{load, load_in}
use lmqtt_cpp.Utf8.{
  CharCheck, ill, advance, Utf8StrCheck, well_formed, ill_formed, mark, check_one, check_two,
  check_three, check_four, two_bytes, three_bytes, four_bytes, check_lead, check_char, scan,
  is_valid_content,
}
use lmqtt_cpp.Utf8.Spec.{length-encode_char}
use lmqtt_cpp.Utf8.Steps.{IsLoneLead, check_char-Reads}
use lmqtt_cpp.Utf8.Content.{scan_step, scan_done}
use lmqtt_cpp.Utf8.Rounds.{lead_one, lead_two, lead_three, lead_four, lead_none}

-- A round that goes on takes a byte at least.
check_lead-pos :
    (mem : List ℕ) (it end b1 n : ℕ) (nochar : Bool)
    → check_lead mem it end b1 ≡ ok (advance nochar n)
    → 1 ≤ n
unfolding check_lead two_bytes three_bytes four_bytes check_two check_three check_four check_one
check_lead-pos mem it end b1 n nochar e = ground arith

check_lead-ne-no_fuel : (mem : List ℕ) (it end b1 : ℕ) → check_lead mem it end b1 ≢ no_fuel
unfolding check_lead two_bytes three_bytes four_bytes load
check_lead-ne-no_fuel mem it end b1 e = ground arith

module _ (mem : List ℕ) (it end : ℕ) (w : All IsByte mem) (h : it < end)
    (l : end ≤ length mem) where
  three_bytes_inside :
      (b1 : ℕ) → it + 1 ≢ end → (c : CharCheck) × (three_bytes mem it end b1 ≡ ok c)
  unfolding three_bytes
  three_bytes_inside b1 ne = elim (ℕ_discrete (it + 2) end) [
    | yes short ↦ (ill, ground arith)
    | no more ↦
        let (b2, e2, l2) = load_in mem (it + 1) (omega arith) w in
        let (b3, e3, l3) = load_in mem (it + 2) (omega arith) w in
        (check_three b1 b2 b3, ground arith)
  ]

  two_bytes_inside : (b1 : ℕ) → (c : CharCheck) × (two_bytes mem it end b1 ≡ ok c)
  unfolding two_bytes
  two_bytes_inside b1 = elim (ℕ_discrete (it + 1) end) [
    | yes short ↦ (ill, ground arith)
    | no more ↦
        let (b2, e2, l2) = load_in mem (it + 1) (omega arith) w in (check_two b1 b2, ground arith)
  ]

  four_bytes_inside : (b1 : ℕ) → (c : CharCheck) × (four_bytes mem it end b1 ≡ ok c)
  unfolding four_bytes
  four_bytes_inside b1 = elim (dec_lt (it + 3) end) [
    | no short ↦ (ill, ground arith)
    | yes more ↦
        let (b2, e2, l2) = load_in mem (it + 1) (omega arith) w in
        let (b3, e3, l3) = load_in mem (it + 2) (omega arith) w in
        let (b4, e4, l4) = load_in mem (it + 3) (omega arith) w in
        (check_four b1 b2 b3 b4, ground arith)
  ]

  lead_inside :
      (b1 : ℕ)
      → b1 < 256
      → ((b1 / 16 ≡ 14) × (it + 1 ≡ end)) ⊎ ((c : CharCheck) × (check_lead mem it end b1 ≡ ok c))
  lead_inside b1 l1 = elim (dec_lt b1 128) [
    | yes one ↦ inr (check_one b1, lead_one mem it end b1 one)
    | no n1 ↦ elim (ℕ_discrete (b1 / 32) 6) [
      | yes two ↦ let (c, e) = two_bytes_inside b1 in inr (c, lead_two mem it end b1 two ∙ e)
      | no n2 ↦ elim (ℕ_discrete (b1 / 16) 14) [
        | yes three ↦ elim (ℕ_discrete (it + 1) end) [
          | yes last ↦ inl (three, last)
          | no more ↦
              let (c, e) = three_bytes_inside b1 more in inr (c, lead_three mem it end b1 three ∙ e)
        ]
        | no n3 ↦ elim (ℕ_discrete (b1 / 8) 30) [
          | yes four ↦
              let (c, e) = four_bytes_inside b1 in inr (c, lead_four mem it end b1 four ∙ e)
          | no n4 ↦ inr (ill, lead_none mem it end b1 (omega arith) l1 n2 n3 n4)
        ]
      ]
    ]
  ]

  -- Inside the view a round gives a verdict, unless it meets a three-byte lead at the last place.
  check_char_inside : IsLoneLead mem it end ⊎ ((c : CharCheck) × (check_char mem it end ≡ ok c))
  unfolding check_char
  check_char_inside =
      let (b1, e1, l1) = load_in mem it (omega arith) w in
      elim (lead_inside b1 l1) [
        | inl (three, last) ↦ inl (b1, e1, three, last)
        | inr (c, e) ↦ inr (c, rw e1 e)
      ]

scan_ill :
    (k : ℕ) (mem : List ℕ) (it end : ℕ) (r : Utf8StrCheck)
    → it ≢ end
    → check_char mem it end ≡ ok ill
    → scan (suc k) mem it end r ≡ ok ill_formed
unfolding scan
scan_ill k mem it end r h e = rw (ne→== it end h, e, scan)

-- A view inside the buffer is checked without a read outside it, unless it ends in a byte of the
-- form 1110xxxx, the lead of a three-byte character.
scan_inside :
    (k : ℕ) (mem : List ℕ) (it end : ℕ) (r : Utf8StrCheck)
    → All IsByte mem
    → it ≤ end
    → end ≤ length mem
    → length mem < it + k
    → ((p : ℕ) × IsLoneLead mem p end) ⊎ ((res : Utf8StrCheck) × (scan k mem it end r ≡ ok res))
scan_inside zero mem it end r w h l f = absurd (omega arith)
scan_inside (suc k) mem it end r w h l f = elim (ℕ_discrete it end) [
  | yes z ↦ inr (r, scan_done (suc k) mem it end r z)
  | no nz ↦ elim (check_char_inside mem it end w (omega arith) l) [
    | inl lone ↦ inl (it, lone)
    | inr (ill, e) ↦ inr (ill_formed, scan_ill k mem it end r nz e)
    | inr (advance nochar n, e) ↦ elim (check_char-Reads mem it end n nochar w (omega arith) l e) [
      | inl over ↦ inl (it, over.1)
      | inr rd ↦
          elim (scan_inside k mem (it + n) end (mark nochar r) w rd.5 l
            (omega (arith, length-encode_char rd.0, rd.3))) [
              | inl lone ↦ inl lone
              | inr (res, e') ↦ inr (res, scan_step k mem it end r n nochar nz e ∙ e')
            ]
    ]
  ]
]

-- On a view inside a buffer of bytes, is_valid_content comes back, without a read outside the
-- buffer, unless the last byte of the view has the form 1110xxxx.
pub is_valid_content_inside :
    (mem : List ℕ) (it end : ℕ)
    → All IsByte mem
    → it ≤ end
    → end ≤ length mem
    → ((p : ℕ) × IsLoneLead mem p end)
      ⊎ ((res : Utf8StrCheck) × (is_valid_content mem it end ≡ ok res))
unfolding is_valid_content
is_valid_content_inside mem it end w h l =
    scan_inside (suc (length mem)) mem it end well_formed w h l (omega arith)
