-- ===== src/Server/Blocked.antt =====
-- Two connections that are stranded (include/lmqtt_connection.h) keep every later client out of
-- include/lmqtt_server.h.
use lmqtt_cpp.Common.{
  if_either, ℕ, ◌≡◌, refl, sym, ◌∙◌, subst, ◌⊎◌, inl, inr, Bool, false, List, [], ◌∷◌, ◌++◌, ◌==◌,
  ne→==, All, All-append, ok,
}
use native.Mathlib.Decide.{ℕ_discrete}
use lmqtt_cpp.Common.Eq.{address_eq}
use lmqtt_cpp.TsQueue.{push_back, find_and_erase, size}
use lmqtt_cpp.Config.{ClientConfig}
use lmqtt_cpp.Connection.{
  reading_header, reading_body, write_posted, writing, Connection, Session, returned,
  new_connection,
}
use lmqtt_cpp.Connection.Steps.{Step, shutdown_called}
use lmqtt_cpp.Connection.Ending.{IsSound, waits, done}
use lmqtt_cpp.Connection.Invariant.{Step-IsSound}
use lmqtt_cpp.Connection.Stranded.{IsStranded, Step-StaysStranded, Step-IsLocal}
use lmqtt_cpp.Server.{
  Server, on_client_connection, on_accept, shutdown_conn, shutdown_at, delete, IsRound, nothing,
  one, deleter_round-IsRound, IsFresh, session_of, ServerStep, accepts, accept_fails, runs, deletes,
  Later, now, after_step,
}
use lmqtt_cpp.Server.Bound.{All-before}

-- Of the two addresses neither.
abbrev pub IsOther : ℕ → ℕ → ℕ → Type 0
IsOther a b x = ¬ (x ≡ a) × ¬ (x ≡ b)

-- A connection as its own invariant says, and stranded if it is one of the two.
pub record IsObject (a b : ℕ) (c : Connection) : Type 0 where
  pub sound : IsSound (record { conn = c; deletion_queue = [] })
  pub stranded : (c.self ≡ a) ⊎ (c.self ≡ b) → IsStranded c

-- Both sessions are taken, by connections that are stranded and that nobody has put in the queue of
-- the deleter.
pub record IsBlocked (a b : ℕ) (v : Server) : Type 0 where
  pub full : v.active_sessions ≡ a ∷ b ∷ []
  pub unscheduled : All (IsOther a b) v.deletion_queue
  pub objects : All (IsObject a b) v.connections

-- The queue is no part of the invariant.
rebase :
    (q : List ℕ) (s : Session) → IsSound s → IsSound (record { conn = s.conn; deletion_queue = q })
rebase q s (done e) = done e
rebase q s (waits reading_header e r) = waits reading_header e r
rebase q s (waits reading_body e r) = waits reading_body e r
rebase q s (waits write_posted e r) = waits write_posted e r
rebase q s (waits writing e r) = waits writing e r

module _ (a b : ℕ) where
  is_one : (x : ℕ) → ((x ≡ a) ⊎ (x ≡ b)) ⊎ IsOther a b x
  is_one x = elim (ℕ_discrete x a) [
    | yes e ↦ inl (inl e)
    | no n ↦ elim (ℕ_discrete x b) [ yes e ↦ inl (inr e) | no m ↦ inr (n, m) ]
  ]

  denies : (v : Server) → v.active_sessions ≡ a ∷ b ∷ [] → on_client_connection v ≡ false
  unfolding on_client_connection size
  denies v e = rw e refl

  accepts-IsBlocked :
      (self : ℕ) (cfg : ClientConfig) (socket_open : Bool) (v : Server)
      → IsFresh self v
      → IsBlocked a b v
      → IsBlocked a b (on_accept self cfg socket_open v)
  unfolding on_accept on_client_connection size push_back new_connection
  accepts-IsBlocked self cfg socket_open v f k =
      let (fa, (fb, u)) = subst (All (λ x. ¬ (x ≡ self))) k.full f.0 in
      let denied = denies v k.full in
      if_either (IsBlocked a b) (on_client_connection v) (λ t. absurd cc)
        (λ n. record {
          full = k.full;
          unscheduled =
              All-append _ v.deletion_queue (self ∷ []) k.unscheduled
                (((λ e. fa (sym e)), (λ e. fb (sym e))), tt);
          objects = (
            record {
              sound = done refl;
              stranded = λ o. absurd (elim o [ inl e ↦ fa (sym e) | inr e ↦ fb (sym e) ]);
            },
            k.objects,
          );
        })

  -- A step of one of the two changes no queue; one of another connection can only schedule itself.
  Step-IsObject :
      (v : Server) (c : Connection) (s' : Session)
      → IsObject a b c
      → Step (session_of c v) (returned s')
      → All (IsOther a b) v.deletion_queue
      → IsObject a b s'.conn × All (IsOther a b) s'.deletion_queue
  unfolding push_back
  Step-IsObject v c s' o t u =
      let s = session_of c v in
      let w = rebase v.deletion_queue (record { conn = c; deletion_queue = [] }) o.sound in
      let w' = rebase [] s' (Step-IsSound s s' w t) in
      elim (is_one c.self) [
        | inl m ↦
            let (q, n, z) = Step-StaysStranded s s' (o.stranded m) t in
            (record { sound = w'; stranded = λ e. z }, subst (All (IsOther a b)) (sym q) u)
        | inr m ↦
            let (n, q) = Step-IsLocal s s' w t in
            (
              record { sound = w'; stranded = λ e. absurd (other c.self s'.conn.self n m e) },
              elim q [
                | inl e ↦ subst (All (IsOther a b)) (sym e) u
                | inr e ↦
                    subst (All (IsOther a b)) (sym e)
                      (All-append _ v.deletion_queue (c.self ∷ []) u (m, tt))
              ],
            )
      ]
    where
      other : (x y : ℕ) → y ≡ x → IsOther a b x → (y ≡ a) ⊎ (y ≡ b) → ⊥
      other x y e m (inl f) = m.0 (sym e ∙ f)
      other x y e m (inr f) = m.1 (sym e ∙ f)

  runs-IsBlocked :
      (v : Server) (before after : List Connection) (c : Connection) (s' : Session)
      → v.connections ≡ before ++ c ∷ after
      → Step (session_of c v) (returned s')
      → IsBlocked a b v
      → IsBlocked a b
          (record v { deletion_queue = s'.deletion_queue; connections = before ++ s'.conn ∷ after })
  runs-IsBlocked v before after c s' e t k =
      let (ob, (oc, oa)) =
        All-before (IsObject a b) before (c ∷ after) (subst (All (IsObject a b)) e k.objects) in
      let (o, u) = Step-IsObject v c s' oc t k.unscheduled in
      record {
        full = k.full;
        unscheduled = u;
        objects = All-append _ before (s'.conn ∷ after) ob (o, oa);
      }

  shutdown-IsObject : (c : Connection) → IsObject a b c → IsObject a b (shutdown_conn c)
  shutdown-IsObject c h =
      (Step-IsObject (record { active_sessions = []; deletion_queue = []; connections = [] }) c _ h
        shutdown_called tt).0

  shutdown_at-IsObject :
      (self : ℕ) (cs : List Connection)
      → All (IsObject a b) cs
      → All (IsObject a b) (shutdown_at self cs)
  unfolding shutdown_at
  shutdown_at-IsObject self [] h = tt
  shutdown_at-IsObject self (c ∷ cs) (h, k) = (
    if_either (IsObject a b) (c.self == self) (λ t. shutdown-IsObject c h) (λ n. h),
    shutdown_at-IsObject self cs k,
  )

  delete-IsBlocked :
      (self : ℕ) (queue : List ℕ) (v : Server)
      → v.deletion_queue ≡ self ∷ queue
      → IsBlocked a b v
      → IsBlocked a b (delete self queue v)
  unfolding find_and_erase
  delete-IsBlocked self queue v e k =
      let (n, u) = subst (All (IsOther a b)) e k.unscheduled in
      record {
        full = rw (k.full, ne→== a self (λ z. n.0 (sym z)), ne→== b self (λ z. n.1 (sym z))) refl;
        unscheduled = u;
        objects = shutdown_at-IsObject self v.connections k.objects;
      }

  deletes-IsBlocked : (v v' : Server) → IsRound v (ok v') → IsBlocked a b v → IsBlocked a b v'
  deletes-IsBlocked v v' (nothing q e) k = let z : v' ≡ v = cc in subst (IsBlocked a b) (sym z) k
  deletes-IsBlocked v v' (one self queue q e) k =
      let z : v' ≡ delete self queue v = cc in
      subst (IsBlocked a b) (sym z) (delete-IsBlocked self queue v q k)

  ServerStep-IsBlocked : (v v' : Server) → ServerStep v v' → IsBlocked a b v → IsBlocked a b v'
  ServerStep-IsBlocked v v' (accepts self cfg o f) k = accepts-IsBlocked self cfg o v f k
  ServerStep-IsBlocked v v' accept_fails k = k
  ServerStep-IsBlocked v v' (runs before after c s' e t) k =
      runs-IsBlocked v before after c s' e t k
  ServerStep-IsBlocked v v' (deletes v'' e) k =
      deletes-IsBlocked v v'' (subst (IsRound v) e (deleter_round-IsRound v)) k

  Later-IsBlocked : (v v' : Server) → Later v v' → IsBlocked a b v → IsBlocked a b v'
  Later-IsBlocked v v' now k = k
  Later-IsBlocked v v' (after_step v1 v2 l t) k =
      ServerStep-IsBlocked v1 v2 t (Later-IsBlocked v v1 l k)

  -- When the two active sessions of a server are stranded, so that they have received data and
  -- have nothing pending, neither is in the deletion queue, and every connection has at most
  -- one operation pending, in the state that its handler needs, then whatever happens later
  -- both stay active, and on_client_connection accepts no client.
  pub Later-denies :
      (v v' : Server)
      → IsBlocked a b v
      → Later v v'
      → (v'.active_sessions ≡ a ∷ b ∷ []) × (on_client_connection v' ≡ false)
  Later-denies v v' k l = let f = (Later-IsBlocked v v' l k).full in (f, denies v' f)
