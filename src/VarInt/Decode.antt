-- ===== src/VarInt/Decode.antt =====
-- decode_variable_int of include/lmqtt_utils.h on well-formed and on any input.
use lmqtt_cpp.Common.{
  ℕ, zero, suc, ◌+◌, ◌-◌, ◌*◌, ◌/◌, ◌%◌, ◌^◌, ◌≤◌, ◌<◌, ◌≡◌, refl, ap, ◌∙◌, ◌⊎◌, inl, inr, List,
  ◌∷◌, ◌++◌, length, drop, All, Result, ok, err, fault, no_fuel, arith,
}
use native.Mathlib.Decide.{dec_lt}
use lmqtt_cpp.Common.Bits.{IsByte, mask_7f, mask_80}
use lmqtt_cpp.Memory.{load, load_in, load_nth}
use lmqtt_cpp.VarInt.{decode_loop, decode_variable_int, fail, get_variable_int_size}
use lmqtt_cpp.VarInt.Spec.{var_bytes}

-- A round on a last byte, and on a byte with the top bit set.
pub decode_last :
    (k : ℕ) (mem : List ℕ) (p size o v m b : ℕ)
    → load mem (p + o) ≡ ok b
    → o < size
    → m ≤ 128
    → b < 128
    → decode_loop (suc k) mem p size o v m ≡ ok ((v + b % 128 * m) % 2 ^ 32, o)
unfolding decode_loop
decode_last k mem p size o v m b e ho hm hb = ground (arith, mask_7f b, mask_80 b)

decode_more :
    (k : ℕ) (mem : List ℕ) (p size o v m b : ℕ)
    → load mem (p + o) ≡ ok b
    → o < size
    → m ≤ 128
    → 128 ≤ b
    → b < 256
    → decode_loop (suc k) mem p size o v m
      ≡ decode_loop k mem p size (o + 1) ((v + b % 128 * m) % 2 ^ 32) (m * 128 % 256)
unfolding decode_loop
decode_more k mem p size o v m b e ho hm hl hb = ground (arith, mask_7f b, mask_80 b)

decode_full :
    (k : ℕ) (mem : List ℕ) (p size o v m : ℕ)
    → size ≤ o
    → decode_loop (suc k) mem p size o v m ≡ fail
unfolding decode_loop
decode_full k mem p size o v m h = ground arith

decode_end : (mem : List ℕ) (p size o v m : ℕ) → decode_loop 0 mem p size o v m ≡ ok (v, o)
unfolding decode_loop
decode_end mem p size o v m = refl

-- What decode_variable_int makes of one to four bytes: the factor of the third and fourth is 0.
module _ (mem : List ℕ) (p size : ℕ) where
  decode_one :
      (b0 : ℕ) (rest : List ℕ)
      → drop p mem ≡ b0 ∷ rest
      → 1 ≤ size
      → b0 < 128
      → decode_variable_int mem p size ≡ ok (b0, 0)
  unfolding decode_variable_int
  decode_one b0 rest e hs h =
      decode_last 3 mem p size 0 0 1 b0 (load_nth mem p 0 b0 _ e refl) hs (omega arith) h
      ∙ ap (λ t. ok (t, 0)) (omega arith)

  decode_two :
      (b0 b1 : ℕ) (rest : List ℕ)
      → drop p mem ≡ b0 ∷ b1 ∷ rest
      → 2 ≤ size
      → (128 ≤ b0) × (b0 < 256)
      → b1 < 128
      → decode_variable_int mem p size ≡ ok (b0 % 128 + b1 * 128, 1)
  unfolding decode_variable_int
  decode_two b0 b1 rest e hs (l0, h0) h1 =
      decode_more 3 mem p size 0 0 1 b0 (load_nth mem p 0 b0 _ e refl) (omega arith) (omega arith)
        l0 h0
      ∙ decode_last 2 mem p size 1 _ 128 b1 (load_nth mem p 1 b1 _ e refl) (omega arith)
          (omega arith) h1
      ∙ ap (λ t. ok (t, 1)) (omega arith)

  decode_three :
      (b0 b1 b2 : ℕ) (rest : List ℕ)
      → drop p mem ≡ b0 ∷ b1 ∷ b2 ∷ rest
      → 3 ≤ size
      → (128 ≤ b0) × (b0 < 256)
      → (128 ≤ b1) × (b1 < 256)
      → b2 < 128
      → decode_variable_int mem p size ≡ ok (b0 % 128 + b1 % 128 * 128, 2)
  unfolding decode_variable_int
  decode_three b0 b1 b2 rest e hs (l0, h0) (l1, h1) h2 =
      decode_more 3 mem p size 0 0 1 b0 (load_nth mem p 0 b0 _ e refl) (omega arith) (omega arith)
        l0 h0
      ∙ decode_more 2 mem p size 1 _ 128 b1 (load_nth mem p 1 b1 _ e refl) (omega arith)
          (omega arith) l1 h1
      ∙ decode_last 1 mem p size 2 _ 0 b2 (load_nth mem p 2 b2 _ e refl) (omega arith) (omega arith)
          h2
      ∙ ap (λ t. ok (t, 2)) (omega arith)

  decode_four :
      (b0 b1 b2 b3 : ℕ) (rest : List ℕ)
      → drop p mem ≡ b0 ∷ b1 ∷ b2 ∷ b3 ∷ rest
      → 4 ≤ size
      → (128 ≤ b0) × (b0 < 256)
      → (128 ≤ b1) × (b1 < 256)
      → (128 ≤ b2) × (b2 < 256)
      → b3 < 128
      → decode_variable_int mem p size ≡ ok (b0 % 128 + b1 % 128 * 128, 3)
  unfolding decode_variable_int
  decode_four b0 b1 b2 b3 rest e hs (l0, h0) (l1, h1) (l2, h2) h3 =
      decode_more 3 mem p size 0 0 1 b0 (load_nth mem p 0 b0 _ e refl) (omega arith) (omega arith)
        l0 h0
      ∙ decode_more 2 mem p size 1 _ 128 b1 (load_nth mem p 1 b1 _ e refl) (omega arith)
          (omega arith) l1 h1
      ∙ decode_more 1 mem p size 2 _ 0 b2 (load_nth mem p 2 b2 _ e refl) (omega arith) (omega arith)
          l2 h2
      ∙ decode_last 0 mem p size 3 _ 0 b3 (load_nth mem p 3 b3 _ e refl) (omega arith) (omega arith)
          h3
      ∙ ap (λ t. ok (t, 3)) (omega arith)

-- On the standard's encoding of any value below 2 ^ 28, wherever it stands in the buffer,
-- decode_variable_int gives the value modulo 16384 (the third and fourth byte are lost, since
-- `mul` is a uint8_t), and one less than the number of bytes as the offset.
pub decode_variable_int-var_bytes :
    (mem : List ℕ) (p size v : ℕ) (rest : List ℕ)
    → drop p mem ≡ var_bytes v ++ rest
    → length (var_bytes v) ≤ size
    → v < 2 ^ 28
    → decode_variable_int mem p size ≡ ok (v % 16384, length (var_bytes v) - 1)
unfolding var_bytes
decode_variable_int-var_bytes mem p size v rest e hs hv = ground (
  arith,
  decode_one mem p size v rest,
  decode_two mem p size (v % 128 + 128) (v / 128) rest,
  decode_three mem p size (v % 128 + 128) (v / 128 % 128 + 128) (v / 16384) rest,
  decode_four mem p size (v % 128 + 128) (v / 128 % 128 + 128) (v / 16384 % 128 + 128) (v / 2097152)
      rest,
)

-- The outcome is a FAIL, or a value below 16384 and an offset of at most four, inside the stretch.
abbrev pub IsDecoded : ℕ → Result (ℕ × ℕ) → Type 0
IsDecoded size (ok (value, offset)) = (value < 16384) × (offset ≤ 4) × (offset ≤ size)
IsDecoded size (err e) = Unit
IsDecoded size fault = ⊥
IsDecoded size no_fuel = ⊥

-- The three values that `mul` takes, with what is decoded by then.
abbrev Weighs : ℕ → ℕ → Type 0
Weighs v m = ((m ≡ 1) × (v ≡ 0)) ⊎ ((m ≡ 128) × (v < 128)) ⊎ ((m ≡ 0) × (v < 16384))

Weighs-next :
    (v m g : ℕ)
    → Weighs v m
    → g < 128
    → Weighs ((v + g * m) % 2 ^ 32) (m * 128 % 256) × ((v + g * m) % 2 ^ 32 < 16384) × (m ≤ 128)
Weighs-next v m g (inl (hm, hv)) hg =
    rw (hm, hv) (inr (inl (refl, omega arith)), omega arith, omega arith)
Weighs-next v m g (inr (inl (hm, hv))) hg =
    rw hm (inr (inr (refl, omega arith)), omega arith, omega arith)
Weighs-next v m g (inr (inr (hm, hv))) hg =
    rw hm (inr (inr (refl, omega arith)), omega arith, omega arith)

decode_loop-IsDecoded :
    (k : ℕ) (mem : List ℕ) (p size o v m : ℕ)
    → p + size ≤ length mem
    → All IsByte mem
    → Weighs v m
    → v < 16384
    → o + k ≡ 4
    → o ≤ size
    → IsDecoded size (decode_loop k mem p size o v m)
decode_loop-IsDecoded zero mem p size o v m hp hw w hv ho hs =
    rw (decode_end mem p size o v m) (hv, omega arith, hs)
decode_loop-IsDecoded (suc k) mem p size o v m hp hw w hv ho hs = elim (dec_lt o size) [
  | no full ↦ rw (decode_full k mem p size o v m (omega arith)) tt
  | yes more ↦
      let (b, e, hb) = load_in mem (p + o) (omega arith) hw in
      let (w', hv', hm) = Weighs-next v m (b % 128) w (omega arith) in
      elim (dec_lt b 128) [
        | yes last ↦ rw (decode_last k mem p size o v m b e more hm last) (omega arith)
        | no cont ↦ rw (decode_more k mem p size o v m b e more hm (omega arith) hb) (
            decode_loop-IsDecoded k mem p size (o + 1) ((v + b % 128 * m) % 2 ^ 32) (m * 128 % 256)
              hp hw w' hv' (omega arith) (omega arith))
      ]
]

-- On any stretch inside a buffer of bytes, decode_variable_int comes back, reads no byte
-- outside the buffer, and gives FAIL, or a value below 16384 and an offset of at most four and
-- at most the size of the stretch.
pub decode_variable_int-IsDecoded :
    (mem : List ℕ) (p size : ℕ)
    → p + size ≤ length mem
    → All IsByte mem
    → IsDecoded size (decode_variable_int mem p size)
unfolding decode_variable_int
decode_variable_int-IsDecoded mem p size hp hw =
    decode_loop-IsDecoded 4 mem p size 0 0 1 hp hw (inl (refl, refl)) (omega arith) refl
      (omega arith)

-- For a value below 2 ^ 28, get_variable_int_size is the length of the standard's encoding.
pub get_variable_int_size-var_bytes :
    (v : ℕ) → v < 2 ^ 28 → get_variable_int_size v ≡ length (var_bytes v)
unfolding get_variable_int_size var_bytes
get_variable_int_size-var_bytes v h = ground arith
