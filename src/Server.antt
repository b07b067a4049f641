-- ===== src/Server.antt =====
-- lmqtt_server of include/lmqtt_server.h: the two queues of connections, the handler that accepts a
-- client, and the thread that deletes connections.
pub mod Bound
pub mod Drain
pub mod Blocked
pub mod Stop
use lmqtt_cpp.Common.{
  ℕ, zero, suc, ◌+◌, ◌-◌, ◌*◌, ◌/◌, ◌%◌, ◌^◌, ◌≤◌, ◌<◌, ◌≡◌, refl, sym, ap, ◌∙◌, subst, ◌≢◌, ◌↔◌,
  ◌⊎◌, inl, inr, Bool, true, false, not, ◌&&◌, ◌||◌, Option, none, some, List, [], ◌∷◌, ◌++◌, map,
  bit_and, bit_or, ltb, leb, ◌==◌, if◌then◌else◌, ltb→lt, lt→ltb, le→ltb, ==_iff, ne→==, Bool-cases,
  length, get_elem?, take, drop, set, replicate, All, length-append, length-take, length-drop,
  length-set, get_elem?-set_ne, get_elem?-set_self, take-append, drop-append, drop_nil, drop-drop,
  All-append, All-drop, Result, ok, err, fault, no_fuel, ◌>>=◌, ◌>>◌, require, Returns,
  Returns-bind, >>=-ok, arith,
}
use lmqtt_cpp.Common.Eq.{address_eq}
use lmqtt_cpp.TsQueue.{push_back, pop_front, find_and_erase, size, empty}
use lmqtt_cpp.Config.{ClientConfig}
use lmqtt_cpp.Connection.{
  Connection, Session, returned, new_connection, connect_to_client, shutdown,
}
use lmqtt_cpp.Connection.Steps.{Step}

-- The queues hold the addresses of connections; an address stands for the identity of a connection.
-- `connections` holds the objects, also those that have been destroyed: a handler that is called late
-- finds what its pointer points to.
pub record Server : Type 0 where
  pub active_sessions : List ℕ
  pub deletion_queue : List ℕ
  pub connections : List Connection

abbrev pub new_server : Server
new_server = record { active_sessions = []; deletion_queue = []; connections = [] }

unfoldable pub on_client_connection : Server → Bool
unfolding size
on_client_connection v = if ltb 1 (size v.active_sessions) then false else true

-- The handler of wait_for_clients for a client whose socket is open or not: `self` is the address
-- of the new connection, `cfg` its configuration.
unfoldable pub on_accept : ℕ → ClientConfig → Bool → Server → Server
on_accept self cfg socket_open v =
    let c = new_connection self cfg socket_open in
    let s = connect_to_client (record { conn = c; deletion_queue = v.deletion_queue }) in
    if on_client_connection v
    then record v {
      active_sessions = push_back self v.active_sessions;
      deletion_queue = s.deletion_queue;
      connections = s.conn ∷ v.connections;
    }
    else record v {
      deletion_queue = push_back self v.deletion_queue;
      connections = c ∷ v.connections;
    }

abbrev pub shutdown_conn : Connection → Connection
shutdown_conn c = (shutdown (record { conn = c; deletion_queue = [] })).conn

-- `connection->shutdown()` for the connection at an address.
unfoldable pub shutdown_at : ℕ → List Connection → List Connection
shutdown_at self [] = []
shutdown_at self (c ∷ cs) = (if c.self == self then shutdown_conn c else c) ∷ shutdown_at self cs

-- The connection is shut down and no longer active; `queue` is left.
abbrev pub delete : ℕ → List ℕ → Server → Server
delete self queue v = record {
  active_sessions = find_and_erase self v.active_sessions;
  deletion_queue = queue;
  connections = shutdown_at self v.connections;
}

-- A round of deleter_job, once `wait` has returned.
unfoldable pub deleter_round : Server → Result Server
deleter_round v =
    if empty v.deletion_queue
    then ok v
    else do (self, queue) ← pop_front v.deletion_queue; ok (delete self queue v)

-- No connection has the address, also none that has been destroyed: a new one has an identity of its
-- own.
abbrev pub IsFresh : ℕ → Server → Type 0
IsFresh self v =
    All (λ a. ¬ (a ≡ self)) v.active_sessions
    × All (λ a. ¬ (a ≡ self)) v.deletion_queue
    × All (λ c. ¬ (c.self ≡ self)) v.connections

abbrev pub session_of : Connection → Server → Session
session_of c v = record { conn = c; deletion_queue = v.deletion_queue }

-- The steps of asio's thread, of a connection's timer and of the deleter, in the order in which
-- they take the queues.
pub data ServerStep (v : Server) : Server → Type 0 where
  accepts :
      (self : ℕ) (cfg : ClientConfig) (socket_open : Bool)
      → IsFresh self v
      → ServerStep v (on_accept self cfg socket_open v)
  accept_fails : ServerStep v v
  runs :
      (before after : List Connection) (c : Connection) (s' : Session)
      → v.connections ≡ before ++ c ∷ after
      → Step (session_of c v) (returned s')
      → ServerStep v
          (record v { deletion_queue = s'.deletion_queue; connections = before ++ s'.conn ∷ after })
  deletes : (v' : Server) → deleter_round v ≡ ok v' → ServerStep v v'

-- What a server can come to.
pub data Later (v : Server) : Server → Type 0 where
  now : Later v v
  after_step : (v1 v2 : Server) → Later v v1 → ServerStep v1 v2 → Later v v2

-- What a round does, by the queue that it finds.
pub data IsRound (v : Server) (m : Result Server) : Type 0 where
  nothing : v.deletion_queue ≡ [] → m ≡ ok v → IsRound v m
  one :
      (self : ℕ) (queue : List ℕ)
      → v.deletion_queue ≡ self ∷ queue
      → m ≡ ok (delete self queue v)
      → IsRound v m

pub deleter_round-IsRound : (v : Server) → IsRound v (deleter_round v)
unfolding deleter_round pop_front empty
deleter_round-IsRound v = go v.deletion_queue refl
  where
    go : (q : List ℕ) → v.deletion_queue ≡ q → IsRound v (deleter_round v)
    go [] e = nothing e (rw e refl)
    go (x ∷ q) e = one x q e (rw e refl)
