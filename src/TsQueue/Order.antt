-- ===== src/TsQueue/Order.antt =====
-- ts_queue of include/lmqtt_tsqueue.h as a queue: what goes in at the back comes out at the front.
use lmqtt_cpp.Common.{
  ◌≡◌, refl, sym, ap, ◌∙◌, inl, inr, List, [], ◌∷◌, ◌++◌, Bool-cases, All, Result, ok, ◌>>=◌,
  >>=-ok,
}
use mathlib.Core.List.{append-nil}
use lmqtt_cpp.Common.Eq.{Eq}
use lmqtt_cpp.TsQueue.{push_back, pop_front, find_and_erase}

-- One call, in the order in which the calls take `_mxq`.
pub data Call {ℓ} (A : Type ℓ) : Type ℓ where
  pushed : A → Call A
  popped : Call A

module _ {ℓ} {A : Type ℓ} where
  -- The items that the calls of pop_front gave, and the queue they leave.
  unfoldable pub run_calls : List (Call A) → List A → Result (List A × List A)
  run_calls [] q = ok ([], q)
  run_calls (pushed x ∷ cs) q = run_calls cs (push_back x q)
  run_calls (popped ∷ cs) q = do
    (x, q') ← pop_front q
    (xs, end) ← run_calls cs q'
    ok (x ∷ xs, end)

  abbrev pub pushes : List (Call A) → List A
  pushes [] = []
  pushes (pushed x ∷ cs) = x ∷ pushes cs
  pushes (popped ∷ cs) = pushes cs

  append_assoc : (xs ys zs : List A) → (xs ++ ys) ++ zs ≡ xs ++ (ys ++ zs)
  append_assoc [] ys zs = refl
  append_assoc (x ∷ xs) ys zs = ap (λ t. x ∷ t) (append_assoc xs ys zs)

  -- For any calls of push_back and pop_front, none of them on an empty queue, what pop_front
  -- gave, in its order, and then what is left, is what the queue held and then what was pushed,
  -- in its order: nothing is lost, doubled or overtaken.
  pub run_calls-fifo :
      (cs : List (Call A)) (q out end : List A)
      → run_calls cs q ≡ ok (out, end)
      → out ++ end ≡ q ++ pushes cs
  unfolding run_calls push_back pop_front
  run_calls-fifo [] q out end h = cc (h, append-nil q)
  run_calls-fifo (pushed x ∷ cs) q out end h =
      run_calls-fifo cs _ out end h ∙ append_assoc q (x ∷ []) _
  run_calls-fifo (popped ∷ cs) [] out end h = cc
  run_calls-fifo (popped ∷ cs) (x ∷ q) out end h =
      let ((xs, end'), e, k) = >>=-ok (run_calls cs q) _ (out, end) h in
      let i : x ∷ xs ++ end' ≡ x ∷ q ++ pushes cs =
        ap (λ t. x ∷ t) (run_calls-fifo cs q xs end' e) in
      let o : x ∷ xs ≡ out = cc in let l : end' ≡ end = cc in rw (sym o, sym l) i

  -- What find_and_erase leaves: all, where the item is absent, or all but the first occurrence.
  pub data IsErased (item : A) (q r : List A) : Type ℓ where
    absent : All (λ y. ¬ (y ≡ item)) q → r ≡ q → IsErased item q r
    erased :
        (before after : List A)
        → All (λ y. ¬ (y ≡ item)) before
        → q ≡ before ++ item ∷ after
        → r ≡ before ++ after
        → IsErased item q r

  skip :
      (item x : A) (q r : List A) → ¬ (x ≡ item) → IsErased item q r → IsErased item (x ∷ q) (x ∷ r)
  skip item x q r n (absent h e) = absent (n, h) (ap (λ t. x ∷ t) e)
  skip item x q r n (erased b a h e f) =
      erased (x ∷ b) a (n, h) (ap (λ t. x ∷ t) e) (ap (λ t. x ∷ t) f)

  pub find_and_erase-IsErased :
      ⦃e : Eq A⦄ (item : A) (q : List A) → IsErased item q (find_and_erase item q)
  unfolding find_and_erase
  find_and_erase-IsErased item [] = absent tt refl
  find_and_erase-IsErased ⦃e⦄ item (x ∷ q) = elim (Bool-cases (e.beq x item)) [
    | inl y ↦ rw y (erased [] q tt (ap (λ t. t ∷ q) ((e.beq_iff x item).0 y)) refl)
    | inr n ↦
        rw n
          (skip item x q _ (λ s. cc (n, (e.beq_iff x item).1 s)) (find_and_erase-IsErased item q))
  ]
