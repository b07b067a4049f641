-- ===== src/Memory.antt =====
-- A buffer (the `_body` vector of lmqtt_packet, include/lmqtt_packet.h) is a list of bytes, and a
-- uint8_t* into it a position. A read past the buffer is undefined behaviour, so `fault`.
use lmqtt_cpp.Common.{
  ◌>>=◌, ℕ, zero, suc, ◌+◌, ◌*◌, ◌≤◌, ◌<◌, ◌≡◌, refl, ap, ◌∙◌, none, some, List, [], ◌∷◌, ◌++◌,
  arith, length, length-drop, get_elem?, take, drop, All, Result, ok, fault, if◌then◌else◌, leb,
  length-append, drop-drop, drop-append, take-append,
}
use lmqtt_cpp.Common.Bits.{IsByte}

-- `*(buff + i)`.
unfoldable pub load : List ℕ → ℕ → Result ℕ
load mem p = elim (get_elem? mem p) [ none ↦ fault | some b ↦ ok b ]

-- The `n` bytes from `p` on, as they are copied out of a view or by `assign`.
unfoldable pub read_bytes : List ℕ → ℕ → ℕ → Result (List ℕ)
read_bytes mem p n = if leb (p + n) (length mem) then ok (take n (drop p mem)) else fault

-- `(buff[0] << 0x8) | buff[1]`; the two summands share no bit.
unfoldable pub load_u16 : List ℕ → ℕ → Result ℕ
load_u16 mem p = do hi ← load mem p; lo ← load mem (p + 1); ok (hi * 256 + lo)

-- The four-byte read of get_property_data.
unfoldable pub load_u32 : List ℕ → ℕ → Result ℕ
load_u32 mem p = do
  b0 ← load mem p
  b1 ← load mem (p + 1)
  b2 ← load mem (p + 2)
  b3 ← load mem (p + 3)
  ok (b0 * 16777216 + b1 * 65536 + b2 * 256 + b3)

get_elem?-lt :
    (mem : List ℕ) (p : ℕ)
    → p < length mem
    → All IsByte mem
    → (b : ℕ) × (get_elem? mem p ≡ some b) × (b < 256)
get_elem?-lt [] p h w = absurd (omega arith)
get_elem?-lt (x ∷ xs) zero h w = (x, refl, w.0)
get_elem?-lt (x ∷ xs) (suc p) h w = get_elem?-lt xs p (omega arith) w.1

-- A read inside the buffer gives a byte.
pub load_in :
    (mem : List ℕ) (p : ℕ)
    → p < length mem
    → All IsByte mem
    → (b : ℕ) × (load mem p ≡ ok b) × (b < 256)
unfolding load
load_in mem p h w = let (b, e, l) = get_elem?-lt mem p h w in (b, rw (e, load), l)

get_elem?-ge : (mem : List ℕ) (p : ℕ) → length mem ≤ p → get_elem? mem p ≡ none
get_elem?-ge [] p h = refl
get_elem?-ge (x ∷ xs) zero h = absurd (omega arith)
get_elem?-ge (x ∷ xs) (suc p) h = get_elem?-ge xs p (omega arith)

pub load_out : (mem : List ℕ) (p : ℕ) → length mem ≤ p → load mem p ≡ fault
unfolding load
load_out mem p h = rw (get_elem?-ge mem p h, load)

-- What stands at a position is read through the suffix that begins there.
pub load_at : (mem : List ℕ) (p b : ℕ) (rest : List ℕ) → drop p mem ≡ b ∷ rest → load mem p ≡ ok b
unfolding load
load_at [] zero b rest e = cc
load_at [] (suc p) b rest e = cc
load_at (x ∷ xs) zero b rest e = ground arith
load_at (x ∷ xs) (suc p) b rest e = load_at xs p b rest e

pub drop_next :
    (mem : List ℕ) (p b : ℕ) (rest : List ℕ) → drop p mem ≡ b ∷ rest → drop (p + 1) mem ≡ rest
drop_next mem p b rest e = drop-drop p 1 mem ∙ ap (drop 1) e

pub drop_past :
    (mem : List ℕ) (p : ℕ) (xs rest : List ℕ)
    → drop p mem ≡ xs ++ rest
    → drop (p + length xs) mem ≡ rest
drop_past mem p xs rest e =
    drop-drop p (length xs) mem ∙ ap (drop (length xs)) e ∙ drop-append xs rest

get_elem?-drop : (mem : List ℕ) (p i : ℕ) → get_elem? (drop p mem) i ≡ get_elem? mem (p + i)
get_elem?-drop mem zero i = let e : i ≡ zero + i = omega arith in ap (get_elem? mem) e
get_elem?-drop [] (suc p) i = refl
get_elem?-drop (x ∷ xs) (suc p) i =
    let e : suc (p + i) ≡ suc p + i = omega arith in
    get_elem?-drop xs p i ∙ ap (get_elem? (x ∷ xs)) e

pub load-drop : (mem : List ℕ) (p i : ℕ) → load mem (p + i) ≡ load (drop p mem) i
unfolding load
load-drop mem p i = rw (get_elem?-drop mem p i, load)

-- The bytes that stand from `p` on are read one by one.
pub load_nth :
    (mem : List ℕ) (p i b : ℕ) (xs : List ℕ)
    → drop p mem ≡ xs
    → get_elem? xs i ≡ some b
    → load mem (p + i) ≡ ok b
unfolding load
load_nth mem p i b xs e h = load-drop mem p i ∙ rw (e, h, load)

get_elem?-cons :
    (mem : List ℕ) (p b : ℕ) → get_elem? mem p ≡ some b → drop p mem ≡ b ∷ drop (suc p) mem
get_elem?-cons [] p b e = cc
get_elem?-cons (x ∷ xs) zero b e = ground arith
get_elem?-cons (x ∷ xs) (suc p) b e = get_elem?-cons xs p b e

load-some : (mem : List ℕ) (p b : ℕ) → load mem p ≡ ok b → get_elem? mem p ≡ some b
unfolding load
load-some mem p b e = ground arith

-- What is read at a position begins the suffix there.
pub drop_cons : (mem : List ℕ) (p b : ℕ) → load mem p ≡ ok b → drop p mem ≡ b ∷ drop (p + 1) mem
drop_cons mem p b e =
    let one : suc p ≡ p + 1 = omega arith in
    get_elem?-cons mem p b (load-some mem p b e) ∙ ap (λ k. b ∷ drop k mem) one

module _ (mem : List ℕ) (p b1 b2 : ℕ) where
  pub drop_two :
      load mem p ≡ ok b1 → load mem (p + 1) ≡ ok b2 → drop p mem ≡ b1 ∷ b2 ∷ drop (p + 2) mem
  drop_two e1 e2 =
      let k : p + 1 + 1 ≡ p + 2 = omega arith in
      drop_cons mem p b1 e1 ∙ rw (drop_cons mem (p + 1) b2 e2, k)

  pub drop_three :
      (b3 : ℕ)
      → load mem p ≡ ok b1
      → load mem (p + 1) ≡ ok b2
      → load mem (p + 2) ≡ ok b3
      → drop p mem ≡ b1 ∷ b2 ∷ b3 ∷ drop (p + 3) mem
  drop_three b3 e1 e2 e3 =
      let k : p + 2 + 1 ≡ p + 3 = omega arith in
      drop_two e1 e2 ∙ rw (drop_cons mem (p + 2) b3 e3, k)

  pub drop_four :
      (b3 b4 : ℕ)
      → load mem p ≡ ok b1
      → load mem (p + 1) ≡ ok b2
      → load mem (p + 2) ≡ ok b3
      → load mem (p + 3) ≡ ok b4
      → drop p mem ≡ b1 ∷ b2 ∷ b3 ∷ b4 ∷ drop (p + 4) mem
  drop_four b3 b4 e1 e2 e3 e4 =
      let k : p + 3 + 1 ≡ p + 4 = omega arith in
      drop_three b3 e1 e2 e3 ∙ rw (drop_cons mem (p + 3) b4 e4, k)

-- Reading back what stands at a position.
pub drop_inside : (mem : List ℕ) (p b : ℕ) (rest : List ℕ) → drop p mem ≡ b ∷ rest → p < length mem
drop_inside mem p b rest e = omega (arith, length-drop p mem, ap length e)

pub load_u16_at :
    (mem : List ℕ) (p hi lo : ℕ) (rest : List ℕ)
    → drop p mem ≡ hi ∷ lo ∷ rest
    → load_u16 mem p ≡ ok (hi * 256 + lo)
unfolding load_u16
load_u16_at mem p hi lo rest e = rw (load_at mem p hi _ e, load_nth mem p 1 lo _ e refl)

pub load_u32_at :
    (mem : List ℕ) (p b0 b1 b2 b3 : ℕ) (rest : List ℕ)
    → drop p mem ≡ b0 ∷ b1 ∷ b2 ∷ b3 ∷ rest
    → load_u32 mem p ≡ ok (b0 * 16777216 + b1 * 65536 + b2 * 256 + b3)
unfolding load_u32
load_u32_at mem p b0 b1 b2 b3 rest e = rw (
  load_at mem p b0 _ e,
  load_nth mem p 1 b1 _ e refl,
  load_nth mem p 2 b2 _ e refl,
  load_nth mem p 3 b3 _ e refl,
)

pub read_bytes_at :
    (mem : List ℕ) (p : ℕ) (xs rest : List ℕ)
    → drop p mem ≡ xs ++ rest
    → p ≤ length mem
    → read_bytes mem p (length xs) ≡ ok xs
unfolding read_bytes
read_bytes_at mem p xs rest e h =
    let fits : p + length xs ≤ length mem =
      omega (arith, length-drop p mem, ap length e, length-append xs rest) in
    ground (arith, ap (take (length xs)) e, take-append xs rest)

-- Reads inside the buffer.
pub load_u16_in :
    (mem : List ℕ) (p : ℕ)
    → p + 2 ≤ length mem
    → All IsByte mem
    → (n : ℕ) × (load_u16 mem p ≡ ok n) × (n < 65536)
unfolding load_u16
load_u16_in mem p h w =
    let (hi, e, l) = load_in mem p (omega arith) w in
    let (lo, f, m) = load_in mem (p + 1) (omega arith) w in (hi * 256 + lo, rw (e, f), omega arith)

pub load_u32_in :
    (mem : List ℕ) (p : ℕ) → p + 4 ≤ length mem → All IsByte mem → (n : ℕ) × (load_u32 mem p ≡ ok n)
unfolding load_u32
load_u32_in mem p h w =
    let (b0, e0, l0) = load_in mem p (omega arith) w in
    let (b1, e1, l1) = load_in mem (p + 1) (omega arith) w in
    let (b2, e2, l2) = load_in mem (p + 2) (omega arith) w in
    let (b3, e3, l3) = load_in mem (p + 3) (omega arith) w in
    (b0 * 16777216 + b1 * 65536 + b2 * 256 + b3, rw (e0, e1, e2, e3))

pub read_bytes_in :
    (mem : List ℕ) (p n : ℕ) → p + n ≤ length mem → (xs : List ℕ) × (read_bytes mem p n ≡ ok xs)
unfolding read_bytes
read_bytes_in mem p n h = (take n (drop p mem), ground arith)
