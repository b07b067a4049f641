-- ===== src/Common/Eq.antt =====
-- Equality tests, as the std::find of include/lmqtt_tsqueue.h needs one.
use Prim.Native.Nat.{ℕ}
use mathlib.Core.Path.{◌≡◌}
use mathlib.Core.Logic.{◌↔◌}
use mathlib.Core.Bool.{Bool, true}
use lmqtt_cpp.Common.Tests.{◌==◌, ==_iff}

pub record Eq {ℓ} (A : Type ℓ) : Type ℓ where
  pub beq : A → A → Bool
  pub beq_iff : (a b : A) → (beq a b ≡ true) ↔ (a ≡ b)

-- Pointers, by their address.
instance abbrev pub address_eq : Eq ℕ
address_eq = record { beq = ◌==◌; beq_iff = ==_iff }
