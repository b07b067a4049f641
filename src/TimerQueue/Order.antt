-- ===== src/TimerQueue/Order.antt =====
-- In which order the thread of include/lmqtt_timer_queue.h takes its times.
use lmqtt_cpp.Common.{
  if_either, ℕ, zero, suc, ◌+◌, ◌≤◌, ◌≡◌, refl, ap, false, List, [], ◌∷◌, ltb, ◌==◌, if◌then◌else◌,
  ltb→lt, length, All, arith, ◌++◌, ◌∙◌, sym, subst, replicate,
}
use mathlib.Core.List.{append_assoc, append-nil}
use lmqtt_cpp.TimerQueue.{
  TimerQueue, Move, inserting, polling, started, emplace, insert_next, poll, move, run,
}

-- Each at least the next.
abbrev pub IsDescending : List ℕ → Type 0
IsDescending [] = Unit
IsDescending (x ∷ xs) = All (λ y. y ≤ x) xs × IsDescending xs

abbrev pub occurrences : ℕ → List ℕ → ℕ
occurrences x [] = 0
occurrences x (y ∷ ys) = let n = occurrences x ys in if x == y then suc n else n

not_lt : (a b : ℕ) → ltb a b ≡ false → b ≤ a
not_lt a b e = ground arith

All-le : (xs : List ℕ) (a b : ℕ) → a ≤ b → All (λ y. y ≤ a) xs → All (λ y. y ≤ b) xs
All-le [] a b h k = tt
All-le (x ∷ xs) a b h k = let f = k.0 in (omega arith, All-le xs a b h k.1)

All-emplace : (t b : ℕ) (q : List ℕ) → t ≤ b → All (λ y. y ≤ b) q → All (λ y. y ≤ b) (emplace t q)
unfolding emplace
All-emplace t b [] h k = (h, tt)
All-emplace t b (x ∷ q) h k =
    if_either (All (λ y. y ≤ b)) (ltb x t) (λ y. (h, k)) (λ n. (k.0, All-emplace t b q h k.1))

emplace-IsDescending : (t : ℕ) (q : List ℕ) → IsDescending q → IsDescending (emplace t q)
unfolding emplace
emplace-IsDescending t [] d = (tt, tt)
emplace-IsDescending t (x ∷ q) d =
    if_either IsDescending (ltb x t)
      (λ y. let l = ltb→lt x t y in ((omega arith, All-le q x t (omega arith) d.0), d))
      (λ n. (All-emplace t x q (not_lt x t n) d.0, emplace-IsDescending t q d.1))

occurrences-emplace : (x t : ℕ) (q : List ℕ) → occurrences x (emplace t q) ≡ occurrences x (t ∷ q)
unfolding emplace
occurrences-emplace x t [] = refl
occurrences-emplace x t (y ∷ q) =
    let i = occurrences-emplace x t q in
    if_either (λ (r : List ℕ). occurrences x r ≡ occurrences x (t ∷ y ∷ q)) (ltb y t) (λ h. refl)
      (λ h. ground arith)

occurrences-append :
    (x : ℕ) (l r : List ℕ) → occurrences x (l ++ r) ≡ occurrences x l + occurrences x r
occurrences-append x [] r = omega arith
occurrences-append x (y ∷ l) r = let i = occurrences-append x l r in ground arith

-- All times of the queue: slept, waiting and still to come.
abbrev pub all_times : TimerQueue → List ℕ
all_times q = q.slept ++ (q.queue ++ q.pending)

counts :
    (x : ℕ) (q : TimerQueue)
    → occurrences x (all_times q)
      ≡ occurrences x q.slept + (occurrences x q.queue + occurrences x q.pending)
counts x q =
    let a = occurrences-append x q.slept (q.queue ++ q.pending) in
    let b = occurrences-append x q.queue q.pending in omega arith

-- What holds of the queue however the two threads take turns.
abbrev pub IsOrdered : List ℕ → TimerQueue → Type 0
IsOrdered times q =
    IsDescending q.queue × ((x : ℕ) → occurrences x (all_times q) ≡ occurrences x times)

insert_next-IsOrdered :
    (times p queue slept : List ℕ)
    → IsOrdered times (record { pending = p; queue = queue; slept = slept })
    → IsOrdered times (insert_next p (record { pending = p; queue = queue; slept = slept }))
unfolding insert_next
insert_next-IsOrdered times [] queue slept o = o
insert_next-IsOrdered times (t ∷ p) queue slept (d, c) = (
  emplace-IsDescending t queue d,
  λ x.
      let a = counts x (record { pending = t ∷ p; queue = queue; slept = slept }) in
      let b = counts x (record { pending = p; queue = emplace t queue; slept = slept }) in
      let e = occurrences-emplace x t queue in let k = c x in ground arith,
)

poll-IsOrdered :
    (times p queue slept : List ℕ)
    → IsOrdered times (record { pending = p; queue = queue; slept = slept })
    → IsOrdered times (poll queue (record { pending = p; queue = queue; slept = slept }))
unfolding poll
poll-IsOrdered times p [] slept o = o
poll-IsOrdered times p (t ∷ queue) slept (d, c) = (
  d.1,
  λ x.
      subst (λ l. occurrences x l ≡ occurrences x times)
        (sym (append_assoc slept (t ∷ []) (queue ++ p))) (c x),
)

move-IsOrdered :
    (times : List ℕ) (m : Move) (q : TimerQueue) → IsOrdered times q → IsOrdered times (move m q)
unfolding move
move-IsOrdered times inserting q o = insert_next-IsOrdered times q.pending q.queue q.slept o
move-IsOrdered times polling q o = poll-IsOrdered times q.pending q.queue q.slept o

run-IsOrdered :
    (times : List ℕ) (moves : List Move) (q : TimerQueue)
    → IsOrdered times q
    → IsOrdered times (run moves q)
unfolding run
run-IsOrdered times [] q o = o
run-IsOrdered times (m ∷ moves) q o =
    run-IsOrdered times moves (move m q) (move-IsOrdered times m q o)

-- The queue has been slept to its end, in its order, and nothing else has changed.
abbrev pub slept_out : TimerQueue → TimerQueue
slept_out q = record q { queue = []; slept = q.slept ++ q.queue }

polls-all :
    (n : ℕ) (pending queue slept : List ℕ)
    → length queue ≤ n
    → run (replicate n polling) (record { pending = pending; queue = queue; slept = slept })
      ≡ slept_out (record { pending = pending; queue = queue; slept = slept })
unfolding run move poll
polls-all zero pending [] slept h =
    ap (λ l. record { pending = pending; queue = []; slept = l }) (sym (append-nil slept))
polls-all zero pending (t ∷ queue) slept h = absurd (omega arith)
polls-all (suc n) pending [] slept h = polls-all n pending [] slept (omega arith)
polls-all (suc n) pending (t ∷ queue) slept h =
    polls-all n pending queue (slept ++ (t ∷ [])) (omega arith)
    ∙ ap (λ l. record { pending = pending; queue = []; slept = l })
        (append_assoc slept (t ∷ []) queue)

-- From a timer queue whose constructor is about to put in any times, whatever turns its inserts
-- and the tests of the thread have taken, each as a whole: the times slept, in the queue and
-- still to be put in are together the given times, each as often; the queue has the largest
-- time first, each at least the next; and if then only the thread goes on, as many tests as the
-- queue is long, or more, sleep the queue in this order, leave it empty and change nothing
-- else.
pub run-slept_out :
    (times : List ℕ) (moves : List Move) (n : ℕ)
    → length (run moves (started times)).queue ≤ n
    → (run (replicate n polling) (run moves (started times))
        ≡ slept_out (run moves (started times)))
      × IsOrdered times (run moves (started times))
unfolding started
run-slept_out times moves n h =
    let q = run moves (started times) in
    (
      polls-all n q.pending q.queue q.slept h,
      run-IsOrdered times moves (started times) (tt, λ x. refl),
    )
