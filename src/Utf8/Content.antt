-- ===== src/Utf8/Content.antt =====
-- is_valid_content of include/lmqtt_utf8_string.h against UTF-8 by code points.
use lmqtt_cpp.Common.{
  ℕ, zero, suc, ◌+◌, ◌≤◌, ◌<◌, ◌≡◌, sym, ap, ◌∙◌, ◌≢◌, ◌⊎◌, inl, inr, Bool, List, [], ◌∷◌, ◌++◌,
  if◌then◌else◌, ne→==, length, drop, All, length-append, length-drop, ok, >>=-ok, arith,
}
use native.Mathlib.Decide.{ℕ_discrete}
use mathlib.Core.List.{append_assoc}
use lmqtt_cpp.Common.Bits.{IsByte}
use lmqtt_cpp.Memory.{drop_past}
use lmqtt_cpp.Utf8.{
  CharCheck, ill, advance, Utf8StrCheck, well_formed, well_formed_no_charactor, ill_formed, mark,
  check_char, scan, is_valid_content,
}
use lmqtt_cpp.Utf8.Spec.{
  IsScalar, encode_char, encode_text, is_nochar, any_nochar, length-encode_char,
}
use lmqtt_cpp.Utf8.Rounds.{check_char-encode}
use lmqtt_cpp.Utf8.Steps.{Reads, check_char-Reads}

-- One round.
scan_end : (k : ℕ) (mem : List ℕ) (it : ℕ) (r : Utf8StrCheck) → scan k mem it it r ≡ ok r
unfolding scan
scan_end zero mem it r = ground arith
scan_end (suc k) mem it r = ground arith

pub scan_step :
    (k : ℕ) (mem : List ℕ) (it end : ℕ) (r : Utf8StrCheck) (n : ℕ) (nochar : Bool)
    → it ≢ end
    → check_char mem it end ≡ ok (advance nochar n)
    → scan (suc k) mem it end r ≡ scan k mem (it + n) end (mark nochar r)
unfolding scan
scan_step k mem it end r n nochar h e = rw (ne→== it end h, e, scan)

-- The result for a text, and for one that begins with `r` in the variable `result`.
abbrev pub verdict : Utf8StrCheck → List ℕ → Utf8StrCheck
verdict r cs = if any_nochar cs then well_formed_no_charactor else r

verdict-cons :
    (r : Utf8StrCheck) (c : ℕ) (cs : List ℕ)
    → verdict r (c ∷ cs) ≡ verdict (mark (is_nochar c) r) cs
unfolding any_nochar
verdict-cons r c cs = ground arith

-- The view from `it` to `end` holds the encoding of `cs`.
abbrev pub Holds : List ℕ → ℕ → ℕ → List ℕ → Type 0
Holds mem it end cs =
    All IsScalar cs
    × (drop it mem ≡ encode_text cs ++ drop end mem)
    × (it + length (encode_text cs) ≡ end)

scan-encode :
    (k : ℕ) (mem : List ℕ) (it end : ℕ) (r : Utf8StrCheck) (cs : List ℕ)
    → Holds mem it end cs
    → length (encode_text cs) ≤ k
    → scan k mem it end r ≡ ok (verdict r cs)
unfolding encode_text any_nochar
scan-encode k mem it end r [] (s, d, e) h =
    let here : end ≡ it = omega arith in rw (here, any_nochar) (scan_end k mem it r)
scan-encode zero mem it end r (c ∷ cs) (s, d, e) h =
    absurd (omega (arith, length-encode_char c, length-append (encode_char c) (encode_text cs)))
scan-encode (suc k) mem it end r (c ∷ cs) (s, d, e) h =
    let size = length-append (encode_char c) (encode_text cs) in
    let some_byte = length-encode_char c in
    let d' = d ∙ append_assoc (encode_char c) (encode_text cs) (drop end mem) in
    scan_step k mem it end r (length (encode_char c)) (is_nochar c) (omega (arith, size, some_byte))
      (check_char-encode mem it end c _ s.0 d' (omega (arith, size)))
    ∙ scan-encode k mem (it + length (encode_char c)) end (mark (is_nochar c) r) cs
        (s.1, drop_past mem it (encode_char c) _ d', omega (arith, size))
        (omega (arith, size, some_byte))
    ∙ ap ok (sym (verdict-cons r c cs))

Holds-length :
    (mem : List ℕ) (it end : ℕ) (cs : List ℕ)
    → Holds mem it end cs
    → length (encode_text cs) ≤ length mem
Holds-length mem it end cs (s, d, e) =
    omega (arith, ap length d, length-drop it mem, length-append (encode_text cs) (drop end mem))

-- On the encoding of scalar values other than U+0000, wherever it stands, is_valid_content
-- gives WELL_FORMED, or WELL_FORMED_NO_CHARACTOR if one of them is U+0001 to U+001F, U+007F, or
-- the last or last but one of its plane.
pub is_valid_content-encode_text :
    (mem : List ℕ) (it end : ℕ) (cs : List ℕ)
    → Holds mem it end cs
    → is_valid_content mem it end ≡ ok (verdict well_formed cs)
unfolding is_valid_content
is_valid_content-encode_text mem it end cs h =
    scan-encode (suc (length mem)) mem it end well_formed cs h
      (omega (arith, Holds-length mem it end cs h))

-- A round before the end of a run that gives `res`: the last, or one that goes on.
scan_round :
    (k : ℕ) (mem : List ℕ) (it end : ℕ) (r res : Utf8StrCheck)
    → it ≢ end
    → scan (suc k) mem it end r ≡ ok res
    → (res ≡ ill_formed)
      ⊎ ((nochar : Bool) × (n : ℕ) × (check_char mem it end ≡ ok (advance nochar n))
          × (scan k mem (it + n) end (mark nochar r) ≡ ok res))
unfolding scan
scan_round k mem it end r res h e =
    let e' = rw (ne→== it end h, scan) at e in
    let (c, ec, fc) = >>=-ok (check_char mem it end) _ res e' in go c ec fc
  where
    go :
        (c : CharCheck)
        → check_char mem it end ≡ ok c
        → (elim c [
          | ill ↦ ok ill_formed
          | advance nochar size ↦ scan k mem (it + size) end (mark nochar r)
        ])
          ≡ ok res
        → (res ≡ ill_formed)
          ⊎ ((nochar : Bool) × (n : ℕ) × (check_char mem it end ≡ ok (advance nochar n))
              × (scan k mem (it + n) end (mark nochar r) ≡ ok res))
    go ill ec fc = inl (cc)
    go (advance nochar n) ec fc = inr (nochar, n, ec, fc)

scan_none :
    (mem : List ℕ) (it end : ℕ) (r res : Utf8StrCheck) → it ≢ end → scan 0 mem it end r ≢ ok res
unfolding scan
scan_none mem it end r res h e = ground arith

-- Once `it` has passed `end` no string is accepted.
scan_overrun :
    (k : ℕ) (mem : List ℕ) (it end : ℕ) (r res : Utf8StrCheck)
    → end < it
    → scan k mem it end r ≡ ok res
    → res ≡ ill_formed
scan_overrun zero mem it end r res h e = absurd (scan_none mem it end r res (omega arith) e)
scan_overrun (suc k) mem it end r res h e = elim (scan_round k mem it end r res (omega arith) e) [
  | inl bad ↦ bad
  | inr (nochar, n, step, more) ↦
      scan_overrun k mem (it + n) end (mark nochar r) res (omega arith) more
]

Holds-cons :
    (mem : List ℕ) (it end n : ℕ) (nochar : Bool) (r res : Utf8StrCheck)
    → Reads mem it end n nochar
    → (cs : List ℕ) × Holds mem (it + n) end cs × (res ≡ verdict (mark nochar r) cs)
    → (cs : List ℕ) × Holds mem it end cs × (res ≡ verdict r cs)
unfolding encode_text
Holds-cons mem it end n nochar r res (c, sc, d, len, nc, le) (cs, (s, ds, e), v) = (
  c ∷ cs,
  (
    (sc, s),
    d
        ∙ ap (λ t. encode_char c ++ t) ds
        ∙ sym (append_assoc (encode_char c) (encode_text cs) (drop end mem)),
    omega (arith, length-append (encode_char c) (encode_text cs)),
  ),
  v ∙ rw (← nc) (sym (verdict-cons r c cs)),
)

pub scan_done :
    (k : ℕ) (mem : List ℕ) (it end : ℕ) (r : Utf8StrCheck) → it ≡ end → scan k mem it end r ≡ ok r
scan_done k mem it end r z = rw z (scan_end k mem end r)

Holds-nil :
    (k : ℕ) (mem : List ℕ) (it end : ℕ) (r res : Utf8StrCheck)
    → it ≡ end
    → scan k mem it end r ≡ ok res
    → (cs : List ℕ) × Holds mem it end cs × (res ≡ verdict r cs)
unfolding encode_text any_nochar
Holds-nil k mem it end r res z e =
    ([], (tt, ap (λ p. drop p mem) z, omega arith), cc (scan_done k mem it end r z))

scan-Holds :
    (k : ℕ) (mem : List ℕ) (it end : ℕ) (r res : Utf8StrCheck)
    → All IsByte mem
    → it ≤ end
    → end ≤ length mem
    → scan k mem it end r ≡ ok res
    → res ≢ ill_formed
    → (cs : List ℕ) × Holds mem it end cs × (res ≡ verdict r cs)
scan-Holds zero mem it end r res w h l e ne = elim (ℕ_discrete it end) [
  | yes z ↦ Holds-nil 0 mem it end r res z e
  | no nz ↦ absurd (scan_none mem it end r res nz e)
]
scan-Holds (suc k) mem it end r res w h l e ne = elim (ℕ_discrete it end) [
  | yes z ↦ Holds-nil (suc k) mem it end r res z e
  | no nz ↦ elim (scan_round k mem it end r res nz e) [
    | inl bad ↦ absurd (ne bad)
    | inr (nochar, n, step, more) ↦
        elim (check_char-Reads mem it end n nochar w (omega arith) l step) [
          | inl over ↦ absurd (ne (scan_overrun k mem (it + n) end (mark nochar r) res over.0 more))
          | inr rd ↦
              Holds-cons mem it end n nochar r res rd
                (scan-Holds k mem (it + n) end (mark nochar r) res w rd.5 l more ne)
        ]
  ]
]

-- A string inside a buffer of bytes for which is_valid_content comes back with another result
-- than ILL_FORMED is the encoding of scalar values other than U+0000; the result is
-- WELL_FORMED_NO_CHARACTOR exactly if one of them is U+0001 to U+001F, U+007F, or the last or
-- last but one of its plane.
pub is_valid_content_sound :
    (mem : List ℕ) (it end : ℕ) (res : Utf8StrCheck)
    → All IsByte mem
    → it ≤ end
    → end ≤ length mem
    → is_valid_content mem it end ≡ ok res
    → res ≢ ill_formed
    → (cs : List ℕ) × Holds mem it end cs × (res ≡ verdict well_formed cs)
unfolding is_valid_content
is_valid_content_sound mem it end res w h l e ne =
    scan-Holds (suc (length mem)) mem it end well_formed res w h l e ne
