-- ===== src/Server/Stop.antt =====
-- The cleanup thread of include/lmqtt_server.h, which runs deleter_job, and `stop`, which joins it.
use lmqtt_cpp.Common.{Result, ◌>>=◌, ℕ, ◌≡◌, ap, ◌≢◌, Bool, true, false, [], if◌then◌else◌, ok}
use lmqtt_cpp.TsQueue.{empty}
use lmqtt_cpp.TsQueue.Wait.{
  wake_up, testing, found_empty, asleep, awake, Waiting, new_waiting, test_empty, go_to_sleep,
  notify_one, take_front,
}

-- At `while (!_exitCleanupThread)`, in the body of the loop, or behind the loop.
pub data Place : Type 0 where
  at_loop in_body ended : Place

-- `waiting` is the deletion queue, and where in `wait` the thread is while it is in the body.
pub record Cleanup : Type 0 where
  pub waiting : Waiting ℕ
  pub place : Place
  pub exit_cleanup_thread : Bool

-- When `start` has begun the thread; that the flag is then false is not written in the code.
abbrev pub start_cleanup : Cleanup
start_cleanup = record { waiting = new_waiting; place = at_loop; exit_cleanup_thread = false }

-- The test of the loop.
unfoldable pub test_exit : Cleanup → Cleanup
test_exit c =
    if c.exit_cleanup_thread
    then record c { place = ended }
    else record c { place = in_body; waiting = record c.waiting { phase = testing } }

-- `stop`, before it joins the thread.
unfoldable pub stop_cleanup : Cleanup → Cleanup
stop_cleanup c = record c { exit_cleanup_thread = true }

abbrev pub with_waiting : (Waiting ℕ → Waiting ℕ) → Cleanup → Cleanup
with_waiting f c = record c { waiting = f c.waiting }

-- The end of a round, with the first connection taken from the queue.
abbrev pub end_round : Waiting ℕ → Cleanup → Cleanup
end_round w c = record c { waiting = w; place = at_loop }

-- The body of the loop behind `wait`: on an empty queue it is left as it is.
unfoldable pub end_body : Cleanup → Result Cleanup
end_body c =
    if empty c.waiting.deq
    then ok (record c { place = at_loop })
    else do (self, w) ← take_front c.waiting; ok (end_round w c)

-- The steps of the thread and of `stop`, when no connection is scheduled any more. `cv.wait` may
-- return unasked.
pub data CleanupStep (c : Cleanup) : Cleanup → Type 0 where
  stops : CleanupStep c (stop_cleanup c)
  tests_exit : c.place ≡ at_loop → CleanupStep c (test_exit c)
  tests_queue :
      c.place ≡ in_body → c.waiting.phase ≡ testing → CleanupStep c (with_waiting test_empty c)
  falls_asleep :
      c.place ≡ in_body → c.waiting.phase ≡ found_empty → CleanupStep c (with_waiting go_to_sleep c)
  wakes : c.place ≡ in_body → c.waiting.phase ≡ asleep → CleanupStep c (with_waiting notify_one c)
  ends_round :
      (c' : Cleanup)
      → c.place ≡ in_body
      → c.waiting.phase ≡ awake
      → end_body c ≡ ok c'
      → CleanupStep c c'

pub data CleanupLater (c : Cleanup) : Cleanup → Type 0 where
  same : CleanupLater c c
  then_step : (c1 c2 : Cleanup) → CleanupLater c c1 → CleanupStep c1 c2 → CleanupLater c c2

-- In `wait`, with nothing in the queue.
pub record IsWaiting (c : Cleanup) : Type 0 where
  pub inside : c.place ≡ in_body
  pub nothing : c.waiting.deq ≡ []
  pub not_back : c.waiting.phase ≢ awake

CleanupStep-IsWaiting : (c c' : Cleanup) → CleanupStep c c' → IsWaiting c → IsWaiting c'
unfolding stop_cleanup test_exit test_empty go_to_sleep notify_one empty
CleanupStep-IsWaiting c c' stops v = record {
  inside = v.inside;
  nothing = v.nothing;
  not_back = v.not_back;
}
CleanupStep-IsWaiting c c' (tests_exit e) v = let i = v.inside in absurd cc
CleanupStep-IsWaiting c c' (tests_queue e p) v = record {
  inside = v.inside;
  nothing = v.nothing;
  not_back = rw v.nothing (λ (k : found_empty ≡ awake). cc);
}
CleanupStep-IsWaiting c c' (falls_asleep e p) v = record {
  inside = v.inside;
  nothing = v.nothing;
  not_back = λ (k : asleep ≡ awake). cc;
}
CleanupStep-IsWaiting c c' (wakes e p) v = record {
  inside = v.inside;
  nothing = v.nothing;
  not_back = λ k. let t = ap wake_up p in cc;
}
CleanupStep-IsWaiting c c'' (ends_round c' e p k) v = absurd (v.not_back p)

-- While the cleanup thread is inside wait on an empty deletion queue, then whatever it does,
-- with wake-ups that nobody asked for, and also when stop has set _exitCleanupThread, as long
-- as no connection is scheduled it stays in the body of its loop, so that the join in stop does
-- not return.
pub CleanupLater-in_body : (c c' : Cleanup) → IsWaiting c → CleanupLater c c' → c'.place ≡ in_body
CleanupLater-in_body c c' v l = (go c' l).inside
  where
    go : (c' : Cleanup) → CleanupLater c c' → IsWaiting c'
    go c' same = v
    go c' (then_step c1 c2 r s) = CleanupStep-IsWaiting c1 c2 s (go c1 r)
