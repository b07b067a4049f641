-- ===== src/TsQueue/Wait.antt =====
-- ts_queue::wait of include/lmqtt_tsqueue.h: one thread that waits for an item and takes it, as
-- deleter_job of include/lmqtt_server.h does, and the threads that push.
use lmqtt_cpp.Common.{
  if_either, ◌≡◌, refl, ap, ◌≢◌, ◌⊎◌, inl, inr, true, false, List, [], ◌∷◌, if◌then◌else◌, Result,
  ok, ◌>>=◌, >>=-ok,
}
use lmqtt_cpp.TsQueue.{push_back, pop_front, empty}

-- Where the waiting thread is: before `empty()`, behind an `empty()` that was true and not yet the
-- owner of muxBlocking, in `cv.wait`, or behind `wait`. A thread that notifies takes muxBlocking, so
-- it comes before the waiting thread has it, or when `cv.wait` has given it back.
pub data Phase : Type 0 where
  testing found_empty asleep awake : Phase

pub record Waiting {ℓ} (A : Type ℓ) : Type ℓ where
  pub deq : List A
  pub phase : Phase

abbrev pub wake_up : Phase → Phase
wake_up asleep = testing
wake_up p = p

module _ {ℓ} {A : Type ℓ} where
  -- `while (empty())`.
  unfoldable pub test_empty : Waiting A → Waiting A
  test_empty w = record w { phase = if empty w.deq then found_empty else awake }

  unfoldable pub go_to_sleep : Waiting A → Waiting A
  go_to_sleep w = record w { phase = asleep }

  -- A notification reaches a thread that is in `cv.wait`, and is lost otherwise.
  unfoldable pub notify_one : Waiting A → Waiting A
  notify_one w = record w { phase = wake_up w.phase }

  -- push_back, under `_mxq`.
  unfoldable pub push_and_notify : A → Waiting A → Waiting A
  push_and_notify item w = notify_one (record w { deq = push_back item w.deq })

  -- The thread takes the first item, and waits again.
  unfoldable pub take_front : Waiting A → Result (A × Waiting A)
  take_front w = do (item, deq) ← pop_front w.deq; ok (item, record { deq = deq; phase = testing })

  -- The steps of the waiting thread, and of those that push. `cv.wait` may return unasked.
  pub data WaitStep (w : Waiting A) : Waiting A → Type ℓ where
    tests : w.phase ≡ testing → WaitStep w (test_empty w)
    sleeps : w.phase ≡ found_empty → WaitStep w (go_to_sleep w)
    wakes_unasked : w.phase ≡ asleep → WaitStep w (notify_one w)
    pushes : (item : A) → WaitStep w (push_and_notify item w)
    takes :
        (item : A) (w' : Waiting A) → w.phase ≡ awake → take_front w ≡ ok (item, w') → WaitStep w w'

  abbrev pub new_waiting : Waiting A
  new_waiting = record { deq = []; phase = testing }

  pub data WaitReached : Waiting A → Type ℓ where
    begins : WaitReached new_waiting
    goes : (w w' : Waiting A) → WaitReached w → WaitStep w w' → WaitReached w'

  -- No push comes between an `empty()` that was true and the `cv.wait`.
  abbrev pub IsTimely : (w w' : Waiting A) → WaitStep w w' → Type 0
  IsTimely w w' (pushes item) = w.phase ≢ found_empty
  IsTimely w w' s = Unit {0}

  pub data TimelyReached : Waiting A → Type ℓ where
    begins_timely : TimelyReached new_waiting
    goes_timely :
        (w w' : Waiting A) (s : WaitStep w w')
        → TimelyReached w
        → IsTimely w w' s
        → TimelyReached w'

  empty-nil : (q : List A) → empty q ≡ true → q ≡ []
  unfolding empty
  empty-nil [] e = refl
  empty-nil (x ∷ xs) e = cc

  empty-cons : (q : List A) → empty q ≡ false → q ≢ []
  unfolding empty
  empty-cons [] e h = absurd cc
  empty-cons (x ∷ xs) e h = cc

  push-cons : (q : List A) (x : A) → push_back x q ≢ []
  unfolding push_back
  push-cons [] x h = cc
  push-cons (y ∷ q) x h = cc

  abbrev HasItem : Waiting A → Type ℓ
  HasItem w = w.phase ≡ awake → w.deq ≢ []

  taken_phase : (w w' : Waiting A) (item : A) → take_front w ≡ ok (item, w') → w'.phase ≡ testing
  unfolding take_front
  taken_phase w w' item k =
      let ((y, d), e, l) = >>=-ok (pop_front w.deq) _ (item, w') k in
      let m : w' ≡ record { deq = d; phase = testing } = cc in ap (λ v. v.phase) m

  WaitStep-HasItem : (w w' : Waiting A) → WaitStep w w' → HasItem w → HasItem w'
  unfolding test_empty go_to_sleep notify_one push_and_notify take_front pop_front
  WaitStep-HasItem w w' (tests e) h =
      if_either (λ p. p ≡ awake → w.deq ≢ []) (empty w.deq)
        (λ t (k : found_empty ≡ awake). absurd cc) (λ f k. empty-cons w.deq f)
  WaitStep-HasItem w w' (sleeps e) h = λ (k : asleep ≡ awake). absurd cc
  WaitStep-HasItem w w' (wakes_unasked e) h = λ k. let t = ap wake_up e in absurd cc
  WaitStep-HasItem w w' (pushes x) h = λ k. push-cons w.deq x
  WaitStep-HasItem w w'' (takes x w' e k) h = λ l. let t = taken_phase w w'' x k in absurd cc

  WaitReached-HasItem : (w : Waiting A) → WaitReached w → HasItem w
  WaitReached-HasItem w begins = λ (k : testing ≡ awake). absurd cc
  WaitReached-HasItem w (goes w1 w2 r s) = WaitStep-HasItem w1 w2 s (WaitReached-HasItem w1 r)

  take_front-takes :
      (w : Waiting A) (q : List A)
      → w.deq ≡ q
      → q ≢ []
      → (item : A) × (w' : Waiting A) × (take_front w ≡ ok (item, w'))
  unfolding take_front pop_front
  take_front-takes w [] e n = absurd (n refl)
  take_front-takes w (x ∷ xs) e n = (x, record { deq = xs; phase = testing }, rw e refl)

  -- In every state that one waiting thread and any pushing threads come to from an empty queue,
  -- with wake-ups that nobody asked for, if wait has returned, taking the first item succeeds.
  pub WaitReached-takes :
      (w : Waiting A)
      → WaitReached w
      → w.phase ≡ awake
      → (item : A) × (w' : Waiting A) × (take_front w ≡ ok (item, w'))
  WaitReached-takes w r e = take_front-takes w w.deq refl (WaitReached-HasItem w r e)

  -- On an empty queue that the waiting thread is about to test: after a push of any item the
  -- test lets wait return; after the test the push changes nothing but the queue, and the sleep
  -- that follows leaves the thread asleep with the item in the queue; and after the test and
  -- the sleep the push makes the thread test again.
  pub lost_wakeup :
      (w : Waiting A) (item : A)
      → w.deq ≡ []
      → w.phase ≡ testing
      → (test_empty (push_and_notify item w) ≡ record { deq = item ∷ []; phase = awake })
        × (push_and_notify item (test_empty w) ≡ record { deq = item ∷ []; phase = found_empty })
        × (go_to_sleep (push_and_notify item (test_empty w))
            ≡ record { deq = item ∷ []; phase = asleep })
        × (push_and_notify item (go_to_sleep (test_empty w))
            ≡ record { deq = item ∷ []; phase = testing })
  unfolding test_empty go_to_sleep notify_one push_and_notify empty push_back
  lost_wakeup w item e p = (rw e refl, rw e refl, rw e refl, rw e refl)

  abbrev SleepsEmpty : Waiting A → Type ℓ
  SleepsEmpty w = (w.phase ≡ asleep) ⊎ (w.phase ≡ found_empty) → w.deq ≡ []

  WaitStep-SleepsEmpty :
      (w w' : Waiting A) (s : WaitStep w w') → IsTimely w w' s → SleepsEmpty w → SleepsEmpty w'
  unfolding test_empty go_to_sleep notify_one push_and_notify
  WaitStep-SleepsEmpty w w' (tests e) t h =
      if_either (λ p. (p ≡ asleep) ⊎ (p ≡ found_empty) → w.deq ≡ []) (empty w.deq)
        (λ y o. empty-nil w.deq y) (λ n o. absurd (elim o [ inl k ↦ cc | inr k ↦ cc ]))
  WaitStep-SleepsEmpty w w' (sleeps e) t h = λ o. h (inr e)
  WaitStep-SleepsEmpty w w' (wakes_unasked e) t h = λ o. let k = ap wake_up e in h (inl e)
  WaitStep-SleepsEmpty w w' (pushes x) t h = λ o. absurd (not_asleep w.phase t o)
    where
      not_asleep :
          (p : Phase) → p ≢ found_empty → (wake_up p ≡ asleep) ⊎ (wake_up p ≡ found_empty) → ⊥
      not_asleep testing n (inl k) = absurd cc
      not_asleep testing n (inr k) = absurd cc
      not_asleep found_empty n o = n refl
      not_asleep asleep n (inl k) = absurd cc
      not_asleep asleep n (inr k) = absurd cc
      not_asleep awake n (inl k) = absurd cc
      not_asleep awake n (inr k) = absurd cc
  WaitStep-SleepsEmpty w w'' (takes x w' e k) t h =
      λ o. let l = taken_phase w w'' x k in absurd (elim o [ inl m ↦ cc | inr m ↦ cc ])

  -- In every state that is reached from an empty queue with no push between a test that found
  -- the queue empty and the sleep that follows it, if the waiting thread sleeps, the queue is
  -- empty.
  pub TimelyReached-nil : (w : Waiting A) → TimelyReached w → w.phase ≡ asleep → w.deq ≡ []
  TimelyReached-nil w r e = sleeps_empty w r (inl e)
    where
      sleeps_empty : (w : Waiting A) → TimelyReached w → SleepsEmpty w
      sleeps_empty w begins_timely = λ o. refl
      sleeps_empty w (goes_timely w1 w2 s r t) = WaitStep-SleepsEmpty w1 w2 s t (sleeps_empty w1 r)
