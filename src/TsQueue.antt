-- ===== src/TsQueue.antt =====
-- ts_queue of include/lmqtt_tsqueue.h: what each method does to `_deq` while it holds `_mxq`. A call
-- on an empty std::deque that needs an element is undefined behaviour, so `fault`.
pub mod Order
pub mod Wait
use lmqtt_cpp.Common.{
  ℕ, zero, suc, ◌+◌, ◌-◌, ◌*◌, ◌/◌, ◌%◌, ◌^◌, ◌≤◌, ◌<◌, ◌≡◌, refl, sym, ap, ◌∙◌, subst, ◌≢◌, ◌↔◌,
  ◌⊎◌, inl, inr, Bool, true, false, not, ◌&&◌, ◌||◌, Option, none, some, List, [], ◌∷◌, ◌++◌, map,
  bit_and, bit_or, ltb, leb, ◌==◌, if◌then◌else◌, ltb→lt, lt→ltb, le→ltb, ==_iff, ne→==, Bool-cases,
  length, get_elem?, take, drop, set, replicate, All, length-append, length-take, length-drop,
  length-set, get_elem?-set_ne, get_elem?-set_self, take-append, drop-append, drop_nil, drop-drop,
  All-append, All-drop, Result, ok, err, fault, no_fuel, ◌>>=◌, ◌>>◌, require, Returns,
  Returns-bind, >>=-ok, arith,
}
use lmqtt_cpp.Common.Eq.{Eq}

module _ {ℓ} {A : Type ℓ} where
  unfoldable pub front : List A → Result A
  front [] = fault
  front (x ∷ xs) = ok x

  unfoldable pub push_front : A → List A → List A
  push_front item deq = item ∷ deq

  unfoldable pub pop_front : List A → Result (A × List A)
  pop_front [] = fault
  pop_front (x ∷ xs) = ok (x, xs)

  -- `operator []`, which locks nothing: its scoped_lock is a temporary.
  unfoldable pub at : List A → ℕ → Result A
  at [] i = fault
  at (x ∷ xs) zero = ok x
  at (x ∷ xs) (suc i) = at xs i

  -- Nor does `back`.
  unfoldable pub back : List A → Result A
  back [] = fault
  back (x ∷ []) = ok x
  back (x ∷ y ∷ ys) = back (y ∷ ys)

  unfoldable pub push_back : A → List A → List A
  push_back item deq = deq ++ item ∷ []

  unfoldable pub pop_back : List A → Result (A × List A)
  pop_back [] = fault
  pop_back (x ∷ []) = ok (x, [])
  pop_back (x ∷ y ∷ ys) = do (z, zs) ← pop_back (y ∷ ys); ok (z, x ∷ zs)

  unfoldable pub empty : List A → Bool
  empty [] = true
  empty (x ∷ xs) = false

  unfoldable pub size : List A → ℕ
  size deq = length deq

  unfoldable pub clear : List A → List A
  clear deq = []

  -- std::find and erase: the first item that is equal.
  unfoldable pub find_and_erase : ⦃e : Eq A⦄ → A → List A → List A
  find_and_erase item [] = []
  find_and_erase ⦃e⦄ item (x ∷ xs) =
      let rest = find_and_erase item xs in if e.beq x item then xs else x ∷ rest
