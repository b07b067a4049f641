-- ===== src/Server/Drain.antt =====
-- The thread of include/lmqtt_server.h that deletes connections, left to itself.
use lmqtt_cpp.Common.{
  arith, true, ◌++◌, if_either, length-append, le→ltb, suc, ◌≤◌, ◌+◌, ℕ, zero, ◌≡◌, refl, sym, ap,
  ◌∙◌, subst, inl, inr, Bool, false, ◌||◌, List, [], ◌∷◌, ◌==◌, if◌then◌else◌, ==_iff, ne→==,
  Bool-cases, length, All, Result, ok, ◌>>=◌,
}
use lmqtt_cpp.Common.Eq.{address_eq}
use lmqtt_cpp.TsQueue.{size, find_and_erase, empty, pop_front}
use lmqtt_cpp.TsQueue.Order.{find_and_erase-IsErased}
use lmqtt_cpp.Server.{Server, on_client_connection, deleter_round, delete}
use lmqtt_cpp.Server.Bound.{IsBounded, IsDistinct, IsErased-IsDistinct}

-- So many rounds of deleter_job, with no other thread in between.
unfoldable pub drain : ℕ → Server → Result Server
drain zero v = ok v
drain (suc n) v = do v' ← deleter_round v; drain n v'

abbrev pub contains_address : ℕ → List ℕ → Bool
contains_address a [] = false
contains_address a (x ∷ xs) = a == x || contains_address a xs

-- The addresses that are not in `queue`.
abbrev pub keep : List ℕ → List ℕ → List ℕ
keep queue [] = []
keep queue (a ∷ ads) =
    let rest = keep queue ads in if contains_address a queue then rest else a ∷ rest

keep_nil : (ads : List ℕ) → keep [] ads ≡ ads
keep_nil [] = refl
keep_nil (a ∷ ads) = ap (λ t. a ∷ t) (keep_nil ads)

keep-absent : (x : ℕ) (q ads : List ℕ) → All (λ y. ¬ (y ≡ x)) ads → keep (x ∷ q) ads ≡ keep q ads
keep-absent x q [] h = refl
keep-absent x q (a ∷ ads) h = rw (ne→== a x h.0, keep-absent x q ads h.1) refl

keep-erase :
    (x : ℕ) (q ads : List ℕ) → IsDistinct ads → keep q (find_and_erase x ads) ≡ keep (x ∷ q) ads
unfolding find_and_erase
keep-erase x q [] d = refl
keep-erase x q (a ∷ ads) d = elim (Bool-cases (a == x)) [
  | inl y ↦
      let e = (==_iff a x).0 y in
      rw y (sym (keep-absent x q ads (subst (λ t. All (λ b. ¬ (b ≡ t)) ads) e d.0)))
  | inr n ↦ rw n (ap (λ t. if contains_address a q then t else a ∷ t) (keep-erase x q ads d.1))
]

-- What the rounds leave.
abbrev pub IsDrained : Server → List ℕ → Result Server → Type 0
IsDrained v queue m =
    (v' : Server) × (m ≡ ok v')
    × (v'.deletion_queue ≡ [])
    × (v'.active_sessions ≡ keep queue v.active_sessions)

deleter_round-cons :
    (v : Server) (x : ℕ) (q : List ℕ)
    → v.deletion_queue ≡ x ∷ q
    → deleter_round v ≡ ok (delete x q v)
unfolding deleter_round empty pop_front
deleter_round-cons v x q e = rw e refl

drains :
    (queue : List ℕ) (v : Server)
    → v.deletion_queue ≡ queue
    → IsDistinct v.active_sessions
    → IsDrained v queue (drain (length queue) v)
unfolding drain
drains [] v e d = (v, refl, e, sym (keep_nil v.active_sessions))
drains (x ∷ q) v e d =
    let s = find_and_erase-IsErased x v.active_sessions in
    let (v', r, w, t) =
      drains q (delete x q v) refl (IsErased-IsDistinct x v.active_sessions _ s d) in
    (v', rw (deleter_round-cons v x q e) r, w, t ∙ keep-erase x q v.active_sessions d)

-- For distinct active sessions, as many rounds of the deleter as its queue is long, with no
-- other thread in between, all return, leave the queue empty, and leave active, in their order,
-- exactly the sessions that were not in the queue.
pub drain-IsDrained :
    (v : Server)
    → IsDistinct v.active_sessions
    → IsDrained v v.deletion_queue (drain (length v.deletion_queue) v)
drain-IsDrained v d = drains v.deletion_queue v refl d

length-keep : (queue ads : List ℕ) → length (keep queue ads) ≤ length ads
length-keep queue [] = omega arith
length-keep queue (a ∷ ads) =
    let i = length-keep queue ads in
    if_either (λ (r : List ℕ). length r ≤ suc (length ads)) (contains_address a queue)
      (λ t. omega arith) (λ f. omega arith)

-- An address in the queue is not kept.
length-keep_removed :
    (queue before after : List ℕ) (self : ℕ)
    → contains_address self queue ≡ true
    → length (keep queue (before ++ self ∷ after)) ≤ length before + length after
length-keep_removed queue [] after self e = let i = length-keep queue after in rw e (omega arith)
length-keep_removed queue (a ∷ before) after self e =
    let i = length-keep_removed queue before after self e in
    if_either (λ (r : List ℕ). length r ≤ suc (length before) + length after)
      (contains_address a queue) (λ t. omega arith) (λ f. omega arith)

contains_address-mid :
    (before after : List ℕ) (self : ℕ) → contains_address self (before ++ self ∷ after) ≡ true
contains_address-mid [] after self = rw ((==_iff self self).1 refl) refl
contains_address-mid (a ∷ before) after self =
    rw (contains_address-mid before after self) (or_true (self == a))
  where
    or_true : (b : Bool) → (b || true) ≡ true
    or_true true = refl
    or_true false = refl

-- When a server has at most two active sessions, all distinct, and one of them is in the
-- deletion queue, then as many rounds of the deleter as the queue is long, with no other thread
-- in between, all return and leave the queue empty, and on_client_connection then accepts a
-- client.
pub drain-admits :
    (v : Server) (self : ℕ) (before after earlier later : List ℕ)
    → IsBounded v
    → v.active_sessions ≡ before ++ self ∷ after
    → v.deletion_queue ≡ earlier ++ self ∷ later
    → (v' : Server) × (drain (length v.deletion_queue) v ≡ ok v')
      × (v'.deletion_queue ≡ [])
      × (on_client_connection v' ≡ true)
unfolding on_client_connection size
drain-admits v self before after earlier later b a q =
    let (v', e, n, k) = drain-IsDrained v b.distinct in
    let c = ap (contains_address self) q ∙ contains_address-mid earlier later self in
    let l = length-keep_removed v.deletion_queue before after self c in
    let r : length v'.active_sessions ≤ length before + length after =
      subst (λ t. length t ≤ length before + length after) (sym (k ∙ ap (keep v.deletion_queue) a))
        l in
    let m = length-append before (self ∷ after) in
    let s = ap length a in
    let f = b.few in (v', e, n, rw (le→ltb 1 (length v'.active_sessions) (omega arith)) refl)
