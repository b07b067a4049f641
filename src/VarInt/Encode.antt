-- ===== src/VarInt/Encode.antt =====
-- encode_variable_int of include/lmqtt_utils.h: what it writes, and what is read back.
use lmqtt_cpp.Common.{
  ◌⊎◌, inl, inr, unspecified_error, ℕ, zero, suc, ◌+◌, ◌/◌, ◌%◌, ◌^◌, ◌≤◌, ◌<◌, ◌≡◌, refl, sym, ap,
  ◌∙◌, subst, ◌≢◌, some, List, ltb, ◌==◌, if◌then◌else◌, le→ltb, length, get_elem?, set, length-set,
  get_elem?-set_ne, get_elem?-set_self, Result, ok, err, fault, no_fuel, arith,
}
use native.Mathlib.Decide.{dec_lt, ℕ_discrete}
use lmqtt_cpp.Common.Bits.{fill_7f}
use lmqtt_cpp.Memory.{load}
use lmqtt_cpp.VarInt.Decode.{decode_last}
use lmqtt_cpp.VarInt.{encode_loop, encode_variable_int, decode_variable_int, fail}

-- The number of digits in base 127: the bytes that the encoder writes for a value.
unfoldable pub written : ℕ → ℕ
written v =
    if v == 0
    then 0
    else if ltb v 127
    then 1
    else if ltb v 16129
    then 2
    else if ltb v 2048383
    then 3
    else if ltb v 260144641
    then 4
    else 5

written_next : (v : ℕ) → v ≢ 0 → v < 2 ^ 32 → written v ≡ suc (written (v / 127))
unfolding written
written_next v h l = ground arith

written_zero : written 0 ≡ 0
unfolding written
written_zero = refl

-- One round.
encode_step :
    (k : ℕ) (mem : List ℕ) (p v o : ℕ)
    → v ≢ 0
    → p + o < length mem
    → o < 4
    → encode_loop (suc k) mem p v o
      ≡ encode_loop k (set mem (p + o) (if v / 127 == 0 then v % 127 else 127)) p (v / 127) (o + 1)
unfolding encode_loop
encode_step k mem p v o hv hp ho = ground (arith, fill_7f (v % 127))

encode_stop : (k : ℕ) (mem : List ℕ) (p o : ℕ) → encode_loop (suc k) mem p 0 o ≡ ok (mem, o)
unfolding encode_loop
encode_stop k mem p o = refl

encode_void : (mem : List ℕ) (p v o : ℕ) → encode_loop 0 mem p v o ≡ no_fuel
unfolding encode_loop
encode_void mem p v o = refl

-- The round that stores a fifth byte fails.
encode_long :
    (k : ℕ) (mem : List ℕ) (p v o : ℕ)
    → v ≢ 0
    → p + o < length mem
    → 4 ≤ o
    → encode_loop (suc k) mem p v o ≡ fail
unfolding encode_loop
encode_long k mem p v o hv hp ho = ground arith

-- A round that has no room for its byte.
encode_out :
    (k : ℕ) (mem : List ℕ) (p v o : ℕ)
    → v ≢ 0
    → length mem ≤ p + o
    → encode_loop (suc k) mem p v o ≡ fault
unfolding encode_loop
encode_out k mem p v o hv hp = ground arith

written_le : (v : ℕ) → written v ≤ 5
unfolding written
written_le v = ground arith

-- Where the digits have room, the loop fails exactly when a fifth one is left, and otherwise gives
-- back their number and changes nothing but the bytes from `p + o` to the last digit; where they
-- have no room, it stores outside the buffer.
module _ (p : ℕ) where
  abbrev pub Leaves : List ℕ → ℕ → ℕ → Result (List ℕ × ℕ) → Type 0
  Leaves mem o d (ok (out, n)) =
      (n ≡ o + d)
      × (n ≤ 4)
      × (length out ≡ length mem)
      × ((i : ℕ) → (i < p + o) ⊎ (p + n ≤ i) → get_elem? out i ≡ get_elem? mem i)
  Leaves mem o d (err e) = (4 < o + d) × (e ≡ unspecified_error)
  Leaves mem o d fault = ⊥
  Leaves mem o d no_fuel = ⊥

  abbrev pub IsWritten : List ℕ → ℕ → ℕ → Result (List ℕ × ℕ) → Type 0
  IsWritten mem o d r =
      ((p + o + d ≤ length mem) × Leaves mem o d r) ⊎ ((length mem < p + o + d) × (r ≡ fault))

  IsWritten-ok :
      (mem : List ℕ) (o d : ℕ) (out : List ℕ) (n : ℕ)
      → IsWritten mem o d (ok (out, n))
      → Leaves mem o d (ok (out, n))
  IsWritten-ok mem o d out n (inl (h, l)) = l
  IsWritten-ok mem o d out n (inr (h, e)) = absurd cc

  Leaves-step :
      (mem mem' : List ℕ) (o v : ℕ) (r : Result (List ℕ × ℕ))
      → v ≢ 0
      → v < 2 ^ 32
      → (length mem' ≡ length mem) × ((i : ℕ) → ¬ (p + o ≡ i) → get_elem? mem' i ≡ get_elem? mem i)
      → Leaves mem' (o + 1) (written (v / 127)) r
      → Leaves mem o (written v) r
  Leaves-step mem mem' o v (ok (out, n)) nz hv (hl, hg) (e, h4, el, eg) = (
    omega (arith, written_next v nz hv),
    h4,
    el ∙ hl,
    λ i h. elim h [
      | inl l ↦ eg i (inl (omega arith)) ∙ hg i (λ q. absurd (omega arith))
      | inr l ↦ eg i (inr l) ∙ hg i (λ q. absurd (omega arith))
    ],
  )
  Leaves-step mem mem' o v (err e) nz hv h (r, f) = (omega (arith, written_next v nz hv), f)
  Leaves-step mem mem' o v fault nz hv h r = r
  Leaves-step mem mem' o v no_fuel nz hv h r = r

  IsWritten-step :
      (mem mem' : List ℕ) (o v : ℕ) (r : Result (List ℕ × ℕ))
      → v ≢ 0
      → v < 2 ^ 32
      → (length mem' ≡ length mem) × ((i : ℕ) → ¬ (p + o ≡ i) → get_elem? mem' i ≡ get_elem? mem i)
      → IsWritten mem' (o + 1) (written (v / 127)) r
      → IsWritten mem o (written v) r
  IsWritten-step mem mem' o v r nz hv h (inl (b, l)) =
      let s = h.0 in inl (omega (arith, written_next v nz hv), Leaves-step mem mem' o v r nz hv h l)
  IsWritten-step mem mem' o v r nz hv h (inr (b, f)) =
      let s = h.0 in inr (omega (arith, written_next v nz hv), f)

  encode_loop-IsWritten :
      (k : ℕ) (mem : List ℕ) (v o : ℕ)
      → p + o ≤ length mem
      → o + k ≡ 6
      → o ≤ 4
      → o + written v ≤ 5
      → v < 2 ^ 32
      → IsWritten mem o (written v) (encode_loop k mem p v o)
  encode_loop-IsWritten zero mem v o hp hk h4 ho hv = absurd (omega arith)
  encode_loop-IsWritten (suc k) mem v o hp hk h4 ho hv = elim (ℕ_discrete v 0) [
    | yes z ↦
        rw (z, encode_stop k mem p o, written_zero)
          (inl (omega arith, (omega arith, h4, refl, λ i h. refl)))
    | no nz ↦ elim (dec_lt (p + o) (length mem)) [
      | no out ↦ inr (omega (arith, written_next v nz hv), encode_out k mem p v o nz (omega arith))
      | yes room ↦ elim (dec_lt o 4) [
        | yes short ↦
            let byte = if v / 127 == 0 then v % 127 else 127 in
            let mem' = set mem (p + o) byte in
            let same = length-set mem (p + o) byte in
            let rest =
              encode_loop-IsWritten k mem' (v / 127) (o + 1) (omega (arith, same)) (omega arith)
                (omega arith) (omega (arith, written_next v nz hv)) (omega arith) in
            rw (encode_step k mem p v o nz room short) (
              IsWritten-step mem mem' o v _ nz hv
                (same, λ i h. get_elem?-set_ne mem (p + o) i byte h) rest)
        | no long ↦
            rw (encode_long k mem p v o nz room (omega arith)) (
              inl
                (omega (arith, written_next v nz hv), (omega (arith, written_next v nz hv), refl)))
      ]
    ]
  ]

-- In a buffer, from a position in it or at its end on, with a size of at least four, for a
-- value below 2 ^ 32, encode_variable_int ends. If from there on the buffer has a byte for each
-- digit of the value in base 127, it counts as many bytes as the value has digits, at most
-- four, and leaves all other bytes and the buffer's size alone, or the value has five digits
-- and it FAILs; if the buffer has fewer bytes, it writes past its end.
pub encode_variable_int-IsWritten :
    (mem : List ℕ) (p size v : ℕ)
    → p ≤ length mem
    → 4 ≤ size
    → v < 2 ^ 32
    → IsWritten p mem 0 (written v) (encode_variable_int mem p size v)
unfolding encode_variable_int
encode_variable_int-IsWritten mem p size v hp hs hv = rw (le→ltb size 4 hs) (
    encode_loop-IsWritten p 6 mem v 0 (omega arith) refl (omega arith) (omega (arith, written_le v))
      hv)

-- The first byte that is written.
first_written :
    (mem : List ℕ) (p v : ℕ) (out : List ℕ) (n : ℕ)
    → p + 5 ≤ length mem
    → 0 < v
    → v < 2 ^ 32
    → encode_loop 6 mem p v 0 ≡ ok (out, n)
    → get_elem? out p ≡ some (if ltb v 127 then v else 127)
first_written mem p v out n hp h0 hv e =
    left.3 p (inl (omega arith))
    ∙ ap (get_elem? mem') (omega arith)
    ∙ get_elem?-set_self mem (p + 0) byte (omega arith)
    ∙ ground arith
  where
    byte : ℕ
    byte = if v / 127 == 0 then v % 127 else 127

    mem' : List ℕ
    mem' = set mem (p + 0) byte

    left : Leaves p mem' 1 (written (v / 127)) (ok (out, n))
    left = IsWritten-ok p mem' 1 (written (v / 127)) out n (
        subst (IsWritten p mem' 1 (written (v / 127)))
          (sym (encode_step 5 mem p v 0 (omega arith) (omega arith) (omega arith)) ∙ e)
          (encode_loop-IsWritten p 5 mem' (v / 127) 1 (omega (arith, length-set mem (p + 0) byte))
            refl (omega arith) (omega (arith, written_le v, written_next v (omega arith) hv))
            (omega arith)))

-- Of what encode_variable_int writes for a value from 1 to below 2 ^ 32 into a buffer with room
-- for five bytes, with a size of at least four, when it succeeds, decode_variable_int reads
-- back a value below 127, and any value from 127 on as 127, in one byte.
pub decode-encode_variable_int :
    (mem : List ℕ) (p size v : ℕ) (out : List ℕ) (n : ℕ)
    → p + 5 ≤ length mem
    → 4 ≤ size
    → 0 < v
    → v < 2 ^ 32
    → encode_variable_int mem p size v ≡ ok (out, n)
    → decode_variable_int out p size ≡ ok (if ltb v 127 then v else 127, 0)
unfolding encode_variable_int decode_variable_int load
decode-encode_variable_int mem p size v out n hp hs h0 hv e =
    let first = first_written mem p v out n hp h0 hv (rw (le→ltb size 4 hs) at e) in
    let here : p + 0 ≡ p = omega arith in
    let there : load out (p + 0) ≡ ok (if ltb v 127 then v else 127) = rw (here, first, load) in
    decode_last 3 out p size 0 0 1 _ there (omega arith) (omega arith) (ground arith)
    ∙ ap (λ t. ok (t, 0)) (ground arith)
