-- ===== src/TimerQueue.antt =====
-- timer_queue of include/lmqtt_timer_queue.h, and the fields of lmqtt_timer of include/lmqtt_timer.h.
pub mod Order
use lmqtt_cpp.Common.{
  ℕ, zero, suc, ◌+◌, ◌-◌, ◌*◌, ◌/◌, ◌%◌, ◌^◌, ◌≤◌, ◌<◌, ◌≡◌, refl, sym, ap, ◌∙◌, subst, ◌≢◌, ◌↔◌,
  ◌⊎◌, inl, inr, Bool, true, false, not, ◌&&◌, ◌||◌, Option, none, some, List, [], ◌∷◌, ◌++◌, map,
  bit_and, bit_or, ltb, leb, ◌==◌, if◌then◌else◌, ltb→lt, lt→ltb, le→ltb, ==_iff, ne→==, Bool-cases,
  length, get_elem?, take, drop, set, replicate, All, length-append, length-take, length-drop,
  length-set, get_elem?-set_ne, get_elem?-set_self, take-append, drop-append, drop_nil, drop-drop,
  All-append, All-drop, Result, ok, err, fault, no_fuel, ◌>>=◌, ◌>>◌, require, Returns,
  Returns-bind, >>=-ok, arith,
}

-- Times are counts of milliseconds.
abbrev pub comparator : ℕ → ℕ → Bool
comparator ltime rtime = ltb ltime rtime

-- std::priority_queue puts first what is less than nothing else: the largest time.
unfoldable pub emplace : ℕ → List ℕ → List ℕ
emplace time [] = time ∷ []
emplace time (t ∷ queue) =
    let rest = emplace time queue in if comparator t time then time ∷ t ∷ queue else t ∷ rest

-- The queue while two threads use it. The thread of `run` is started by the initialiser of `_worker`,
-- before the constructor's body has put the first time in. An insert, and a test of the inner loop
-- with the `top`, the `pop` and the sleep that follow it, are each taken as a whole; the source does
-- not lock the queue.
pub record TimerQueue : Type 0 where
  -- What the constructor has still to put in.
  pub pending : List ℕ
  pub queue : List ℕ
  -- How long the thread has slept, the first sleep first.
  pub slept : List ℕ

-- The members are initialised, and the constructor is about to put these times in.
unfoldable pub started : List ℕ → TimerQueue
started times = record { pending = times; queue = []; slept = [] }

abbrev pub timer_queue : TimerQueue
timer_queue = started (5000 ∷ 3000 ∷ 6000 ∷ 9000 ∷ [])

-- Which of the two threads goes on.
pub data Move : Type 0 where
  inserting polling : Move

-- The constructor's next `emplace`.
unfoldable pub insert_next : List ℕ → TimerQueue → TimerQueue
insert_next [] q = q
insert_next (time ∷ times) q = record q { pending = times; queue = emplace time q.queue }

-- A round of the outer loop, whose `_exit` nobody sets. On an empty queue the inner loop tests again.
unfoldable pub poll : List ℕ → TimerQueue → TimerQueue
poll [] q = q
poll (time ∷ times) q = record q { queue = times; slept = q.slept ++ (time ∷ []) }

unfoldable pub move : Move → TimerQueue → TimerQueue
move inserting q = insert_next q.pending q
move polling q = poll q.queue q

unfoldable pub run : List Move → TimerQueue → TimerQueue
run [] q = q
run (m ∷ moves) q = run moves (move m q)

-- lmqtt_timer, without its thread; its function runs once, when the time is over.
pub record Timer : Type 0 where
  pub time : ℕ
  pub exits : Bool
  pub work : Bool
  pub count : ℕ

unfoldable pub new_timer : ℕ → Timer
new_timer time = record { time = time; exits = false; work = true; count = 5 }

unfoldable pub reset_time : ℕ → Timer → Timer
reset_time time t = record t { time = time }

unfoldable pub get_time : Timer → ℕ
get_time t = t.time

unfoldable pub exit_timer : Timer → Timer
exit_timer t = record t { exits = true }

unfoldable pub resume : Timer → Timer
resume t = record t { work = true }

unfoldable pub stop : Timer → Timer
stop t = record t { work = false }

-- The thread's function: it waits for the time, or for a wake-up that nobody asked for, and calls `f`.
unfoldable pub run_once {ℓ} : {S : Type ℓ} → (S → S) → S → S
run_once f s = f s

-- The loop of lmqtt_timer::run, which is never called: for each wait that returns, whether `_exit` is
-- set then.
unfoldable pub run_timer {ℓ} : {S : Type ℓ} → (S → S) → List Bool → S → S
run_timer f [] s = s
run_timer f (true ∷ exits) s = s
run_timer f (false ∷ exits) s = run_timer f exits (f s)
