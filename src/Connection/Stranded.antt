-- ===== src/Connection/Stranded.antt =====
-- A connection (include/lmqtt_connection.h) that nothing calls any more, and what a step does to the
-- queue of connections that are to be deleted.
use lmqtt_cpp.Common.{◌∙◌, if_either, ◌≡◌, refl, sym, ◌∙◌, ◌⊎◌, inl, inr, true, List, [], ◌∷◌, ◌++◌}
use lmqtt_cpp.TsQueue.{push_back}
use lmqtt_cpp.Connection.{
  Operation, Connection, Session, Handled, returned, on_timeout, on_close_posted, shutdown,
  disconnect_client, schedule_for_deletion, is_connected,
}
use lmqtt_cpp.Connection.Ending.{IsSound, Ending, goes_on, leaves, strands}
use lmqtt_cpp.Connection.Steps.{
  Event, event_of, IsPending, timer_off, Completion, Step, completes, header_read, body_read,
  body_failed, write_run, write_done, timer_run, disconnect_called, shutdown_called, close_run,
}
use lmqtt_cpp.Connection.Invariant.{Completion-Outcome}

-- Nothing is pending, and the timer will find that the client has sent something.
abbrev pub IsStranded : Connection → Type 0
IsStranded c = (c.pending ≡ []) × (c.received_data ≡ true)

-- The step changes neither the address nor what makes the connection stranded, nor the queue.
abbrev pub StaysStranded : Session → Session → Type 0
StaysStranded s s' =
    (s'.deletion_queue ≡ s.deletion_queue) × (s'.conn.self ≡ s.conn.self) × IsStranded s'.conn

not_pending : (op : Operation) (s : Session) → s.conn.pending ≡ [] → IsPending op s → ⊥
not_pending op s e (before, after, k) = go before (sym e ∙ k)
  where
    go : (before : List Operation) → [] ≡ before ++ op ∷ after → ⊥
    go [] h = absurd cc
    go (x ∷ xs) h = absurd cc

shutdown-StaysStranded : (s : Session) → IsStranded s.conn → StaysStranded s (shutdown s)
unfolding shutdown is_connected
shutdown-StaysStranded s v =
    if_either (StaysStranded s) s.conn.is_open (λ t. (refl, refl, v)) (λ f. (refl, refl, v))

not_completed : (s : Session) (h : Handled) → s.conn.pending ≡ [] → Completion s h → ⊥
not_completed s h e (header_read byte stream p) = not_pending _ s e p
not_completed s h e (body_read bytes p l) = not_pending _ s e p
not_completed s h e (body_failed p) = not_pending _ s e p
not_completed s h e (write_run p) = not_pending _ s e p
not_completed s h e (write_done fine p) = not_pending _ s e p

-- No step of a connection that has received data and has nothing pending changes the deletion
-- queue, its address, or that it has received data and has nothing pending.
pub Step-StaysStranded :
    (s s' : Session) → IsStranded s.conn → Step s (returned s') → StaysStranded s s'
unfolding on_timeout disconnect_client is_connected on_close_posted
Step-StaysStranded s s' v (completes h c) = absurd (not_completed s h v.0 c)
Step-StaysStranded s s' v (timer_run e) =
    if_either (StaysStranded s) s.conn.received_data (λ t. (refl, refl, v)) (λ f. absurd cc)
Step-StaysStranded s s' v disconnect_called =
    if_either (StaysStranded s) s.conn.is_open (λ t. (refl, refl, v)) (λ f. (refl, refl, v))
Step-StaysStranded s s' v shutdown_called = shutdown-StaysStranded s v
Step-StaysStranded s s' v (close_run e) = (refl, refl, v)

-- What a session comes to in any number of steps.
pub data StepsTo (s : Session) : Session → Type 0 where
  here : StepsTo s s
  there : (s1 s2 : Session) → StepsTo s s1 → Step s1 (returned s2) → StepsTo s s2

pub StepsTo-StaysStranded : (s s' : Session) → IsStranded s.conn → StepsTo s s' → StaysStranded s s'
StepsTo-StaysStranded s s' v here = (refl, refl, v)
StepsTo-StaysStranded s s' v (there s1 s2 r t) =
    let (q, n, w) = StepsTo-StaysStranded s s1 v r in
    let (q', n', w') = Step-StaysStranded s1 s2 w t in (q' ∙ q, n' ∙ n, w')

-- The address stays, and the connection at most puts itself in the queue.
abbrev pub IsLocal : Session → Session → Type 0
IsLocal s s' =
    (s'.conn.self ≡ s.conn.self)
    × ((s'.deletion_queue ≡ s.deletion_queue)
        ⊎ (s'.deletion_queue ≡ push_back s.conn.self s.deletion_queue))

Ending-IsLocal :
    (e : Event) (s s' : Session)
    → Ending s.conn.self s.conn.is_open s.deletion_queue e (returned s')
    → IsLocal s s'
Ending-IsLocal v s s'' (goes_on s' op m e r o q n) = (n, inl q)
Ending-IsLocal v s s'' (leaves s' m e o q n) = (n, inr q)
Ending-IsLocal v s s'' (strands s' m e r q n) = (n, inl q)

shutdown-same : (s : Session) → (shutdown s).conn.self ≡ s.conn.self
unfolding shutdown is_connected
shutdown-same s =
    if_either {A = Session} (λ t. t.conn.self ≡ s.conn.self) s.conn.is_open (λ t. refl) (λ f. refl)

shutdown-queue : (s : Session) → (shutdown s).deletion_queue ≡ s.deletion_queue
unfolding shutdown is_connected
shutdown-queue s =
    if_either {A = Session} (λ t. t.deletion_queue ≡ s.deletion_queue) s.conn.is_open (λ t. refl)
      (λ f. refl)

pub Step-IsLocal : (s s' : Session) → IsSound s → Step s (returned s') → IsLocal s s'
unfolding on_timeout disconnect_client is_connected on_close_posted schedule_for_deletion
Step-IsLocal s s' v (completes h c) =
    Ending-IsLocal (event_of s (returned s') c) s s' (Completion-Outcome s h v c)
Step-IsLocal s s' v (timer_run e) =
    if_either (IsLocal s) s.conn.received_data (λ t. (refl, inl refl))
      (λ f.
        let n = shutdown-same (timer_off s) in
        let q = shutdown-queue (timer_off s) in (n, inr (rw (n, q) refl)))
Step-IsLocal s s' v disconnect_called =
    if_either (IsLocal s) s.conn.is_open (λ t. (refl, inl refl)) (λ f. (refl, inl refl))
Step-IsLocal s s' v shutdown_called = (shutdown-same s, inl (shutdown-queue s))
Step-IsLocal s s' v (close_run e) = (refl, inl refl)
