-- ===== src/Property/StringTotal.antt =====
-- The string and binary cases of get_property_data (include/lmqtt_properties.h) on any bytes: they come
-- back, and stay inside the stretch that they are given.
use lmqtt_cpp.Common.{
  ℕ, zero, suc, ◌+◌, ◌/◌, ◌≤◌, ◌<◌, ◌≡◌, ◌≢◌, ◌⊎◌, inl, inr, Bool, true, false, List, [], ◌∷◌,
  if◌then◌else◌, Bool-cases, length, All, Result, ok, err, arith,
}
use native.Mathlib.Decide.{dec_lt}
use lmqtt_cpp.Common.{malformed_packet}
use lmqtt_cpp.Common.Bits.{IsByte}
use lmqtt_cpp.Memory.{load, load_u16, load_u16_in, read_bytes, read_bytes_in}
use lmqtt_cpp.Utf8.{is_valid_length}
use lmqtt_cpp.Utf8.Total.{is_valid_content_inside}
use lmqtt_cpp.Strings.{StringView, check_view, decode_utf8_str, is_well_formed}
use lmqtt_cpp.Property.{view_bytes, get_string, get_string_pair, get_binary}

-- Bytes, none of which leads a three-byte UTF-8 character: on these is_valid_content stays inside its
-- buffer.
abbrev pub IsQuiet : List ℕ → Type 0
IsQuiet = All (λ b. (b < 256) × (b / 16 ≢ 14))

pub IsQuiet-IsByte : (mem : List ℕ) → IsQuiet mem → All IsByte mem
IsQuiet-IsByte [] q = tt
IsQuiet-IsByte (b ∷ bs) q = (q.0.0, IsQuiet-IsByte bs q.1)

quiet_load : (mem : List ℕ) (p b : ℕ) → IsQuiet mem → load mem p ≡ ok b → b / 16 ≢ 14
unfolding load
quiet_load [] p b q e = cc
quiet_load (x ∷ xs) zero b q e = ground arith
quiet_load (x ∷ xs) (suc p) b q e = quiet_load xs p b q.1 e

-- A refusal, or a value with the number of bytes read, at least one and inside the stretch.
abbrev pub ReadsWithin {ℓ} : {A : Type ℓ} → ℕ → Result (A × ℕ) → Type ℓ
ReadsWithin {A = A} remaining r =
    (r ≡ err malformed_packet) ⊎ ((a : A) × (n : ℕ) × (r ≡ ok (a, n)) × (1 ≤ n) × (n ≤ remaining))

pair_no_room :
    (mem : List ℕ) (p remaining n1 : ℕ)
    → 2 ≤ remaining
    → load_u16 mem p ≡ ok n1
    → 2 + n1 ≤ remaining
    → decode_utf8_str mem p 0
      ≡ ok (record {
        good = true;
        decoded_string = record { start = p + 2; size = n1 };
        offset = 0 + (2 + n1);
      })
    → remaining < 0 + (2 + n1) + 2
    → get_string_pair mem p remaining ≡ err malformed_packet
unfolding get_string_pair
pair_no_room mem p remaining n1 two e1 long d short = ground arith

pair_short :
    (mem : List ℕ) (p remaining : ℕ)
    → remaining < 2
    → get_string_pair mem p remaining ≡ err malformed_packet
unfolding get_string_pair
pair_short mem p remaining short = ground arith

pair_short1 :
    (mem : List ℕ) (p remaining n1 : ℕ)
    → 2 ≤ remaining
    → load_u16 mem p ≡ ok n1
    → remaining < 2 + n1
    → get_string_pair mem p remaining ≡ err malformed_packet
unfolding get_string_pair
pair_short1 mem p remaining n1 two e1 short = ground arith

pair_bad :
    (mem : List ℕ) (p remaining n1 : ℕ) (v : StringView) (o : ℕ)
    → 2 ≤ remaining
    → load_u16 mem p ≡ ok n1
    → 2 + n1 ≤ remaining
    → decode_utf8_str mem p 0 ≡ ok (record { good = false; decoded_string = v; offset = o })
    → get_string_pair mem p remaining ≡ err malformed_packet
unfolding get_string_pair
pair_bad mem p remaining n1 v o two e1 long e = ground arith

module _ (mem : List ℕ) (q : IsQuiet mem) where
  check_view_in :
      (p n : ℕ)
      → p + n ≤ length mem
      → (good : Bool) × (check_view mem (record { start = p; size = n }) ≡ ok good)
  unfolding check_view
  check_view_in p n h = elim (Bool-cases (is_valid_length n)) [
    | inr long ↦ (false, rw long)
    | inl short ↦
        elim (is_valid_content_inside mem p (p + n) (IsQuiet-IsByte mem q) (omega arith) h) [
          | inl (p', (b, e, three, last)) ↦ absurd (quiet_load mem p' b q e three)
          | inr (res, e) ↦ (is_well_formed res, rw (short, e))
        ]
  ]

  decode_utf8_str_in :
      (p o n : ℕ)
      → load_u16 mem p ≡ ok n
      → p + 2 + n ≤ length mem
      → (good : Bool) × (decode_utf8_str mem p o
          ≡ ok (record {
            good = good;
            decoded_string = record { start = p + 2; size = n };
            offset = if good then o + (2 + n) else o;
          }))
  unfolding decode_utf8_str
  decode_utf8_str_in p o n e h = let (good, g) = check_view_in (p + 2) n h in (good, rw (e, g))

  pub get_string_in :
      (p remaining : ℕ)
      → p + remaining ≤ length mem
      → ReadsWithin remaining (get_string mem p remaining)
  unfolding get_string view_bytes
  get_string_in p remaining h = elim (dec_lt remaining 2) [
    | yes short ↦ inl (ground arith)
    | no two ↦
        let (n, e, l) = load_u16_in mem p (omega arith) (IsQuiet-IsByte mem q) in
        elim (dec_lt remaining (2 + n)) [
          | yes short ↦ inl (ground arith)
          | no long ↦
              let (good, d) = decode_utf8_str_in p 0 n e (omega arith) in
              let (s, f) = read_bytes_in mem (p + 2) n (omega arith) in
              elim (Bool-cases good) [
                | inl g ↦ inr (s, 2 + n, ground arith, omega arith, omega arith)
                | inr g ↦ inl (ground arith)
              ]
        ]
  ]

  pub get_binary_in :
      (p remaining : ℕ)
      → p + remaining ≤ length mem
      → ReadsWithin remaining (get_binary mem p remaining)
  unfolding get_binary
  get_binary_in p remaining h = elim (dec_lt remaining 2) [
    | yes short ↦ inl (ground arith)
    | no two ↦
        let (n, e, l) = load_u16_in mem p (omega arith) (IsQuiet-IsByte mem q) in
        elim (dec_lt remaining (2 + n)) [
          | yes short ↦ inl (ground arith)
          | no long ↦
              let (s, f) = read_bytes_in mem (p + 2) n (omega arith) in
              inr (s, n + 2, ground arith, omega arith, omega arith)
        ]
  ]

  -- The second string of a pair, at `p'` behind the first.
  get_second_in :
      (p remaining n1 n2 : ℕ) (s1 : List ℕ)
      → p + remaining ≤ length mem
      → load_u16 mem p ≡ ok n1
      → 2 + n1 ≤ remaining
      → decode_utf8_str mem p 0
        ≡ ok (record {
          good = true;
          decoded_string = record { start = p + 2; size = n1 };
          offset = 0 + (2 + n1);
        })
      → read_bytes mem (p + 2) n1 ≡ ok s1
      → 0 + (2 + n1) + 2 ≤ remaining
      → load_u16 mem (p + (0 + (2 + n1))) ≡ ok n2
      → ReadsWithin remaining (get_string_pair mem p remaining)
  unfolding get_string_pair view_bytes
  get_second_in p remaining n1 n2 s1 h e1 l1 d1 r1 l2 e2 = elim (dec_lt remaining (4 + n1 + n2)) [
    | yes short ↦ inl (ground arith)
    | no long ↦
        let p' = p + (0 + (2 + n1)) in
        let (good, d2) = decode_utf8_str_in p' (0 + (2 + n1)) n2 e2 (omega arith) in
        let (s2, r2) = read_bytes_in mem (p' + 2) n2 (omega arith) in
        elim (Bool-cases good) [
          | inl g ↦ inr ((s1, s2), 0 + (2 + n1) + (2 + n2), ground arith, omega arith, omega arith)
          | inr g ↦ inl (ground arith)
        ]
  ]

  pub get_string_pair_in :
      (p remaining : ℕ)
      → p + remaining ≤ length mem
      → ReadsWithin remaining (get_string_pair mem p remaining)
  get_string_pair_in p remaining h = elim (dec_lt remaining 2) [
    | yes short ↦ inl (pair_short mem p remaining short)
    | no two ↦
        let (n1, e1, l1) = load_u16_in mem p (omega arith) (IsQuiet-IsByte mem q) in
        elim (dec_lt remaining (2 + n1)) [
          | yes short ↦ inl (pair_short1 mem p remaining n1 (omega arith) e1 short)
          | no long ↦
              let (good, d) = decode_utf8_str_in p 0 n1 e1 (omega arith) in
              let (s1, r1) = read_bytes_in mem (p + 2) n1 (omega arith) in
              elim (Bool-cases good) [
                | inr g ↦
                    inl (pair_bad mem p remaining n1 _ _ (omega arith) e1 (omega arith) (rw g at d))
                | inl g ↦ elim (dec_lt remaining (0 + (2 + n1) + 2)) [
                  | yes short ↦ inl (
                      pair_no_room mem p remaining n1 (omega arith) e1 (omega arith) (rw g at d)
                        short)
                  | no room ↦
                      let (n2, e2, l2) =
                        load_u16_in mem (p + (0 + (2 + n1))) (omega arith) (IsQuiet-IsByte mem q) in
                      get_second_in p remaining n1 n2 s1 h e1 (omega arith) (rw g at d) r1
                        (omega arith) e2
                ]
              ]
        ]
  ]
