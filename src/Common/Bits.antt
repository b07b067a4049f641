-- ===== src/Common/Bits.antt =====
-- The byte masks of the source as arithmetic; each is a table of 256 entries, checked by evaluation.
use Prim.Native.Nat.{ℕ, zero, suc, ◌+◌, ◌*◌, ◌/◌, ◌%◌, ◌<◌, bit_and, bit_or}
use mathlib.Core.Path.{◌≡◌, refl}
use mathlib.Core.Bool.{Bool, true, false}
use mathlib.Core.Logic.{ite}
use native.Mathlib.Decide.{ℕ_discrete}
use native.Mathlib.Omega.{arith}

abbrev pub IsByte : ℕ → Type 0
IsByte b = b < 256

module _ (f g : ℕ → ℕ) where
  unfoldable pub agree_below : ℕ → Bool
  unfolding ℕ_discrete
  agree_below zero = true
  agree_below (suc n) = ite (ℕ_discrete (f n) (g n)) (agree_below n) false

  pub agree_below→eq : (n : ℕ) → agree_below n ≡ true → (i : ℕ) → i < n → f i ≡ g i
  unfolding agree_below
  agree_below→eq zero e i h = absurd (omega arith)
  agree_below→eq (suc n) e i h = ground (arith, agree_below→eq n (ground arith) i)

pub mask_7f : (b : ℕ) → b < 256 → bit_and b 0x7f ≡ b % 128
unfolding agree_below
mask_7f = agree_below→eq _ _ 256 refl

pub mask_80 : (b : ℕ) → b < 256 → bit_and b 0x80 ≡ b / 128 * 128
unfolding agree_below
mask_80 = agree_below→eq _ _ 256 refl

pub mask_c0 : (b : ℕ) → b < 256 → bit_and b 0b1100_0000 ≡ b / 64 * 64
unfolding agree_below
mask_c0 = agree_below→eq _ _ 256 refl

pub mask_e0 : (b : ℕ) → b < 256 → bit_and b 0b1110_0000 ≡ b / 32 * 32
unfolding agree_below
mask_e0 = agree_below→eq _ _ 256 refl

pub mask_f0 : (b : ℕ) → b < 256 → bit_and b 0b1111_0000 ≡ b / 16 * 16
unfolding agree_below
mask_f0 = agree_below→eq _ _ 256 refl

pub mask_f8 : (b : ℕ) → b < 256 → bit_and b 0b1111_1000 ≡ b / 8 * 8
unfolding agree_below
mask_f8 = agree_below→eq _ _ 256 refl

pub mask_fe : (b : ℕ) → b < 256 → bit_and b 0b1111_1110 ≡ b / 2 * 2
unfolding agree_below
mask_fe = agree_below→eq _ _ 256 refl

pub mask_cf : (b : ℕ) → b < 256 → bit_and b 0b1100_1111 ≡ b / 64 * 64 + b % 16
unfolding agree_below
mask_cf = agree_below→eq _ _ 256 refl

-- `byte |= 0x7f` on a value below 128.
pub fill_7f : (b : ℕ) → b < 128 → bit_or b 0x7f ≡ 127
unfolding agree_below
fill_7f = agree_below→eq _ _ 128 refl
