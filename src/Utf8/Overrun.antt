-- ===== src/Utf8/Overrun.antt =====
-- A finding in is_valid_content (include/lmqtt_utf8_string.h): for a three-byte lead the code asks
-- `(it + 2) == end`, which a lead at the last place passes.
use lmqtt_cpp.Common.{
  ℕ, zero, suc, ◌+◌, ◌-◌, ◌/◌, ◌<◌, ◌≡◌, sym, ap, ◌∙◌, ◌≢◌, List, [], ◌∷◌, ◌++◌, ne→==, length,
  drop, All, length-append, length-drop, fault, arith,
}
use mathlib.Core.List.{append_assoc}
use lmqtt_cpp.Memory.{load_at, load_out, drop_past}
use lmqtt_cpp.Utf8.{
  Utf8StrCheck, well_formed, mark, three_bytes, check_char, scan, is_valid_content,
}
use lmqtt_cpp.Utf8.Spec.{IsScalar, encode_char, encode_text, is_nochar, length-encode_char}
use lmqtt_cpp.Utf8.Rounds.{check_char-encode, lead_three}
use lmqtt_cpp.Utf8.Content.{scan_step}

-- The scan of a text in front of other bytes reaches them.
scan_skip :
    (k : ℕ) (mem : List ℕ) (it end : ℕ) (r : Utf8StrCheck) (cs rest : List ℕ)
    → All IsScalar cs
    → drop it mem ≡ encode_text cs ++ rest
    → it + length (encode_text cs) < end
    → length (encode_text cs) < k
    → (k' : ℕ) × (r' : Utf8StrCheck) × (scan k mem it end r
        ≡ scan (suc k') mem (it + length (encode_text cs)) end r')
unfolding encode_text
scan_skip zero mem it end r cs rest s d l f = absurd (omega arith)
scan_skip (suc k) mem it end r [] rest s d l f =
    (k, r, ap (λ p. scan (suc k) mem p end r) (omega arith))
scan_skip (suc k) mem it end r (c ∷ cs) rest (sc, s) d l f =
    let size = length-append (encode_char c) (encode_text cs) in
    let some_byte = length-encode_char c in
    let d' = d ∙ append_assoc (encode_char c) (encode_text cs) rest in
    let (k', r', e) =
      scan_skip k mem (it + length (encode_char c)) end (mark (is_nochar c) r) cs rest s
        (drop_past mem it (encode_char c) _ d') (omega (arith, size))
        (omega (arith, size, some_byte)) in
    let there : it + length (encode_char c) + length (encode_text cs)
        ≡ it + length (encode_text (c ∷ cs)) =
      omega (arith, size) in
    (
      k',
      r',
      scan_step k mem it end r (length (encode_char c)) (is_nochar c)
            (omega (arith, size, some_byte))
            (check_char-encode mem it end c _ sc d' (omega (arith, size)))
          ∙ e
          ∙ ap (λ p. scan (suc k') mem p end r') there,
    )

lone_lead_fault :
    (mem : List ℕ) (p b : ℕ)
    → drop p mem ≡ b ∷ []
    → b / 16 ≡ 14
    → p + 1 ≡ length mem
    → check_char mem p (length mem) ≡ fault
unfolding check_char three_bytes
lone_lead_fault mem p b d h e = rw (
  load_at mem p b [] d,
  lead_three mem p (length mem) b h,
  ne→== (p + 2) (length mem) (omega arith),
  load_out mem (p + 1) (omega arith),
  three_bytes,
)

scan_fault :
    (k : ℕ) (mem : List ℕ) (it end : ℕ) (r : Utf8StrCheck)
    → it ≢ end
    → check_char mem it end ≡ fault
    → scan (suc k) mem it end r ≡ fault
unfolding scan
scan_fault k mem it end r h e = rw (ne→== it end h, e, scan)

-- A string that ends a buffer with a byte of the form 1110xxxx behind the encoding of scalar
-- values is read past the end of the buffer by is_valid_content.
pub is_valid_content-lone_lead :
    (mem : List ℕ) (it b : ℕ) (cs : List ℕ)
    → All IsScalar cs
    → drop it mem ≡ encode_text cs ++ b ∷ []
    → b / 16 ≡ 14
    → is_valid_content mem it (length mem) ≡ fault
unfolding is_valid_content
is_valid_content-lone_lead mem it b cs s d h =
    let size : length mem - it ≡ length (encode_text cs) + 1 =
      sym (length-drop it mem) ∙ ap length d ∙ length-append (encode_text cs) (b ∷ []) in
    let last : it + length (encode_text cs) + 1 ≡ length mem = omega arith in
    let (k', r', e) =
      scan_skip (suc (length mem)) mem it (length mem) well_formed cs (b ∷ []) s d (omega arith)
        (omega arith) in
    e
    ∙ scan_fault k' mem _ (length mem) r' (omega arith)
        (lone_lead_fault mem _ b (drop_past mem it (encode_text cs) _ d) h last)
