-- ===== src/Server/Bound.antt =====
-- How many clients include/lmqtt_server.h serves, and that none is served twice.
use lmqtt_cpp.Common.{
  if_either, ℕ, ◌≤◌, ◌≡◌, sym, ap, subst, Bool, true, List, [], ◌∷◌, ◌++◌, length, All,
  length-append, All-append, ok, arith,
}
use lmqtt_cpp.Common.Eq.{address_eq}
use lmqtt_cpp.TsQueue.{push_back, size}
use lmqtt_cpp.TsQueue.Order.{IsErased, absent, erased, find_and_erase-IsErased}
use lmqtt_cpp.Config.{ClientConfig}
use lmqtt_cpp.Server.{
  Server, new_server, on_client_connection, on_accept, delete, IsRound, nothing, one,
  deleter_round-IsRound, IsFresh, ServerStep, accepts, accept_fails, runs, deletes, Later, now,
  after_step,
}

module _ {ℓ} {A : Type ℓ} where
  -- No item comes twice.
  abbrev pub IsDistinct : List A → Type ℓ
  IsDistinct [] = Unit
  IsDistinct (x ∷ xs) = All (λ y. ¬ (y ≡ x)) xs × IsDistinct xs

  pub All-before {κ} : (P : A → Type κ) (xs ys : List A) → All P (xs ++ ys) → All P xs × All P ys
  All-before P [] ys h = (tt, h)
  All-before P (x ∷ xs) ys h = let (a, b) = All-before P xs ys h.1 in ((h.0, a), b)

  IsDistinct-erase : (xs ys : List A) (x : A) → IsDistinct (xs ++ x ∷ ys) → IsDistinct (xs ++ ys)
  IsDistinct-erase [] ys x h = h.1
  IsDistinct-erase (z ∷ xs) ys x h =
      let (a, b) = All-before _ xs (x ∷ ys) h.0 in
      (All-append _ xs ys a b.1, IsDistinct-erase xs ys x h.1)

  IsDistinct-push :
      (xs : List A) (x : A) → All (λ y. ¬ (y ≡ x)) xs → IsDistinct xs → IsDistinct (xs ++ x ∷ [])
  IsDistinct-push [] x h d = (tt, tt)
  IsDistinct-push (z ∷ xs) x h d =
      (All-append _ xs (x ∷ []) d.0 ((λ e. h.0 (sym e)), tt), IsDistinct-push xs x h.1 d.1)

  -- An erased list is as short and as distinct.
  pub IsErased-IsDistinct :
      (item : A) (q r : List A) → IsErased item q r → IsDistinct q → IsDistinct r
  IsErased-IsDistinct item q r (absent h e) d = rw e d
  IsErased-IsDistinct item q r (erased before after h e f) d =
      rw f (IsDistinct-erase before after item (subst IsDistinct e d))

  IsErased-length : (item : A) (q r : List A) → IsErased item q r → length r ≤ length q
  IsErased-length item q r (absent h e) = let l = ap length e in omega arith
  IsErased-length item q r (erased before after h e f) =
      let a = ap length e in
      let b = ap length f in
      let k = length-append before (item ∷ after) in
      let m = length-append before after in omega arith

-- At most two clients, and each once.
pub record IsBounded (v : Server) : Type 0 where
  pub few : length v.active_sessions ≤ 2
  pub distinct : IsDistinct v.active_sessions

room : (v : Server) → on_client_connection v ≡ true → length v.active_sessions ≤ 1
unfolding on_client_connection size
room v e = ground arith

delete-IsBounded :
    (self : ℕ) (queue : List ℕ) (v : Server) → IsBounded v → IsBounded (delete self queue v)
delete-IsBounded self queue v b =
    let e = find_and_erase-IsErased self v.active_sessions in
    let l = IsErased-length self v.active_sessions _ e in
    record {
      few = let f = b.few in omega arith;
      distinct = IsErased-IsDistinct self v.active_sessions _ e b.distinct;
    }

deleter_round-IsBounded : (v v' : Server) → IsBounded v → IsRound v (ok v') → IsBounded v'
deleter_round-IsBounded v v' b (nothing q e) = let k : v' ≡ v = cc in subst IsBounded (sym k) b
deleter_round-IsBounded v v' b (one self queue q e) =
    let k : v' ≡ delete self queue v = cc in
    subst IsBounded (sym k) (delete-IsBounded self queue v b)

on_accept-IsBounded :
    (self : ℕ) (cfg : ClientConfig) (socket_open : Bool) (v : Server)
    → IsFresh self v
    → IsBounded v
    → IsBounded (on_accept self cfg socket_open v)
unfolding on_accept on_client_connection size push_back
on_accept-IsBounded self cfg socket_open v f b =
    if_either IsBounded (on_client_connection v)
      (λ t. record {
        few =
            let l = length-append v.active_sessions (self ∷ []) in let k = room v t in omega arith;
        distinct = IsDistinct-push v.active_sessions self f.0 b.distinct;
      })
      (λ n. record { few = b.few; distinct = b.distinct })

ServerStep-IsBounded : (v v' : Server) → IsBounded v → ServerStep v v' → IsBounded v'
ServerStep-IsBounded v v' b (accepts self cfg socket_open f) =
    on_accept-IsBounded self cfg socket_open v f b
ServerStep-IsBounded v v' b accept_fails = b
ServerStep-IsBounded v v' b (runs before after c s' e k) = record {
  few = b.few;
  distinct = b.distinct;
}
ServerStep-IsBounded v v' b (deletes v'' e) =
    deleter_round-IsBounded v v'' b (subst (IsRound v) e (deleter_round-IsRound v))

-- Whatever clients, connections, timers and the deleter do, in any order, a server that has
-- started with empty queues has at most two active sessions, all distinct, where an address
-- stands for the identity of a connection: a new connection has one that no other connection,
-- also none that has been destroyed, has had.
pub Later-IsBounded : (v : Server) → Later new_server v → IsBounded v
Later-IsBounded v now = record { few = omega arith; distinct = tt }
Later-IsBounded v (after_step v1 v2 l k) = ServerStep-IsBounded v1 v2 (Later-IsBounded v1 l) k
