-- ===== src/Connection/Invariant.antt =====
-- What holds of a connection (include/lmqtt_connection.h) whatever its peer, the timer and its owner do.
use lmqtt_cpp.Common.{
  if_either, ℕ, ◌+◌, ◌-◌, ◌≡◌, refl, sym, ap, ◌∙◌, subst, Bool, true, false, List, [], ◌∷◌, ◌++◌,
  Result, ok, err, fault, no_fuel,
}
use lmqtt_cpp.TsQueue.{find_and_erase}
use lmqtt_cpp.Config.{ClientConfig}
use lmqtt_cpp.Types.Packet.{PacketType, connect, connack, publish, disconnect}
use lmqtt_cpp.Packet.{LmqttPacket}
use lmqtt_cpp.Packet.{reset}
use lmqtt_cpp.Packet.Connect.{decode_connect_packet_body}
use lmqtt_cpp.Packet.Publish.{decode_publish_packet_body, decode_disconnect_packet_body}
use lmqtt_cpp.Packet.Connack.{create_connack_packet}
use lmqtt_cpp.Connection.{
  Operation, reading_header, reading_body, write_posted, writing, operation_eq, new_connection,
  Session, Handled, returned, on_body, on_write_posted, on_written, on_timeout, on_close_posted,
  shutdown, disconnect_client, connect_to_client, read_fixed_header, schedule_for_deletion,
  is_connected, on_connect, on_publish, on_disconnect, send_connack, read_on, leave_now, body_case,
  handle_body, got_body, with_out_packet, and_handle, and_send, shared_out, reset_in,
  with_in_packet,
}
use lmqtt_cpp.Connection.Steps.{
  Event, body_came, event_of, IsPending, ended, timer_off, Step, Completion, completes, header_read,
  body_read, body_failed, write_run, write_done, timer_run, disconnect_called, shutdown_called,
  close_run, Reached, accepted, next,
}
use lmqtt_cpp.Connection.Ending.{
  packet_len, IsAccepted, HasConnect, IsReady, IsSound, waits, done, goes_on, leaves, strands,
  breaks, hangs, Outcome, IsSame, left,
}
use lmqtt_cpp.Connection.Header.{on_header-Outcome}

and_handle-Outcome :
    (s s1 : Session) (m : LmqttPacket × Result (Unit {0})) (go : Session → Handled)
    → IsSame s s1
    → ((p : LmqttPacket) → Outcome body_came s (go (with_in_packet p s1)))
    → Outcome body_came s (and_handle m s1 go)
and_handle-Outcome s s1 (p, ok u) go v k = k p
and_handle-Outcome s s1 (p, err e) go v k =
    left body_came s (with_in_packet p s1) tt
      (record { idle = v.idle; queue = v.queue; named = v.named })
and_handle-Outcome s s1 (p, fault) go v k = breaks refl
and_handle-Outcome s s1 (p, no_fuel) go v k = hangs refl

and_send-Outcome :
    (s : Session) (m : LmqttPacket × Result (Unit {0}))
    → s.conn.pending ≡ []
    → packet_len s ≡ 0
    → HasConnect s
    → Outcome body_came s (and_send m s)
and_send-Outcome s (p, ok u) h n c =
    goes_on _ write_posted tt (ap (λ t. write_posted ∷ t) h) (n, c) refl refl refl
and_send-Outcome s (p, err e) h n c =
    left body_came s (with_out_packet p s) tt (record { idle = h; queue = refl; named = refl })
and_send-Outcome s (p, fault) h n c = breaks refl
and_send-Outcome s (p, no_fuel) h n c = hangs refl

module _ (s : Session) (h : s.conn.pending ≡ []) (c : HasConnect s) where
  same : IsSame s s
  same = record { idle = h; queue = refl; named = refl }

  on_connect-Outcome : Outcome body_came s (on_connect s)
  unfolding on_connect reset
  on_connect-Outcome =
      and_handle-Outcome s s (decode_connect_packet_body s.conn.in_packet) send_connack same (λ p.
        let s1 = with_in_packet p s in
        and_send-Outcome (reset_in s1) (create_connack_packet (shared_out s1) connack 0) h refl c)

  on_publish-Outcome : Outcome body_came s (on_publish s)
  unfolding on_publish reset
  on_publish-Outcome =
      and_handle-Outcome s s (decode_publish_packet_body s.conn.in_packet) read_on same (λ p.
        goes_on (read_fixed_header (reset_in (with_in_packet p s))) reading_header tt
          (ap (λ t. reading_header ∷ t) h) (refl, λ e. c.1) refl refl refl)

  on_disconnect-Outcome : Outcome body_came s (on_disconnect s)
  unfolding on_disconnect
  on_disconnect-Outcome =
      and_handle-Outcome s s (decode_disconnect_packet_body s.conn.in_packet) leave_now same (λ p.
        left body_came s (with_in_packet p s) tt (record { idle = h; queue = refl; named = refl }))

body_case-Outcome :
    (s : Session)
    → s.conn.pending ≡ []
    → HasConnect s
    → (t : PacketType) → s.conn.in_packet.packet_type ≡ t
    → IsAccepted t
    → Outcome body_came s (body_case t s)
unfolding body_case
body_case-Outcome s h c connect e a = on_connect-Outcome s h c
body_case-Outcome s h c connack e a = strands s (refl, e) h c.1 refl refl
body_case-Outcome s h c publish e a = on_publish-Outcome s h c
body_case-Outcome s h c disconnect e a = on_disconnect-Outcome s h c
body_case-Outcome s h c t e a = absurd a

alone : (op op' : Operation) (s : Session) → s.conn.pending ≡ op ∷ [] → IsPending op' s → op ≡ op'
alone op op' s e ([], after, k) = cc
alone op op' s e (x ∷ [], after, k) = cc
alone op op' s e (x ∷ y ∷ before, after, k) = cc

ended-nil :
    (op : Operation) (s : Session) → s.conn.pending ≡ op ∷ [] → (ended op s).conn.pending ≡ []
unfolding find_and_erase
ended-nil reading_header s e = rw e refl
ended-nil reading_body s e = rw e refl
ended-nil write_posted s e = rw e refl
ended-nil writing s e = rw e refl

-- The one operation that is pending is the one that has ended.
ready :
    (op : Operation) (s : Session)
    → IsSound s
    → IsPending op s
    → ((ended op s).conn.pending ≡ []) × IsReady op s
ready op s (waits op' e r) p =
    let same_op = alone op' op s e p in
    (ended-nil op s (e ∙ ap (λ o. o ∷ []) same_op), subst (λ o. IsReady o s) same_op r)
ready op s (done e) (before, after, k) = absurd (not_nil before after (sym e ∙ k))
  where
    not_nil : (before after : List Operation) → ¬ ([] ≡ before ++ op ∷ after)
    not_nil [] after h = cc
    not_nil (x ∷ xs) after h = cc

-- When asio calls the handler of an operation that is pending in a session with at most one
-- operation pending, in the state its handler needs, then the handler ends in one of these
-- ways, by the event that it is called for. It starts one operation, the only one then pending,
-- in the state that its handler needs, with the socket as before and nothing scheduled: on a
-- control byte a body read, on a body the posted write or a header read, on the posted write
-- the write, and on a write that is done a header read. Or nothing is pending, the socket is
-- closed and the connection has put itself last in the deletion queue: only on a control byte,
-- on a header read that fails, or on a body. Or nothing is pending, nothing is scheduled and
-- data have been received: on a control byte only with the socket closed and a packet length
-- above 1024, on a body only with the socket as before and a CONNACK packet, and on a body read
-- or a write that fails always, with the socket closed. In these three the address of the
-- connection stays. It throws only on a control byte, and has undefined behaviour, or a loop
-- without rounds left, only on a body.
pub Completion-Outcome :
    (s : Session) (h : Handled) → IsSound s → (c : Completion s h) → Outcome (event_of s h c) s h
unfolding on_body handle_body on_write_posted on_written
Completion-Outcome s h v (header_read byte stream p) =
    on_header-Outcome (ended reading_header s) byte stream (ready reading_header s v p).0
Completion-Outcome s h v (body_read bytes p l) =
    let (e, (len, small, a, c)) = ready reading_body s v p in
    body_case-Outcome (got_body bytes (ended reading_body s)) e c _ refl a
Completion-Outcome s h v (body_failed p) =
    let (e, (len, small, a, c)) = ready reading_body s v p in strands _ refl e c.1 refl refl
Completion-Outcome s h v (write_run p) =
    let (e, r) = ready write_posted s v p in
    goes_on _ writing tt (ap (λ t. writing ∷ t) e) r refl refl refl
Completion-Outcome s h v (write_done true p) =
    let (e, (len, c)) = ready writing s v p in
    goes_on _ reading_header tt (ap (λ t. reading_header ∷ t) e) (len, λ f. c.1) refl refl refl
Completion-Outcome s h v (write_done false p) =
    let (e, (len, c)) = ready writing s v p in strands _ refl e c.1 refl refl

Outcome-IsSound : (e : Event) (s s' : Session) → Outcome e s (returned s') → IsSound s'
Outcome-IsSound v s s'' (goes_on s' op m e r o q n) = waits op e r
Outcome-IsSound v s s'' (leaves s' m e o q n) = done e
Outcome-IsSound v s s'' (strands s' m e r q n) = done e

-- What the timer and the owner change.
aside : (is_open is_shut has_timer : Bool) (posted_closes : ℕ) (queue : List ℕ) → Session → Session
aside o h t n q s = record {
  conn = record s.conn { is_open = o; is_shut = h; has_timer = t; posted_closes = n };
  deletion_queue = q;
}

aside-IsSound :
    (o h t : Bool) (n : ℕ) (q : List ℕ) (s : Session) → IsSound s → IsSound (aside o h t n q s)
unfolding aside
aside-IsSound o h t n q s (done e) = done e
aside-IsSound o h t n q s (waits reading_header e r) = waits reading_header e r
aside-IsSound o h t n q s (waits reading_body e r) = waits reading_body e r
aside-IsSound o h t n q s (waits write_posted e r) = waits write_posted e r
aside-IsSound o h t n q s (waits writing e r) = waits writing e r

pub shutdown-IsSound : (s : Session) → IsSound s → IsSound (shutdown s)
unfolding shutdown is_connected aside
shutdown-IsSound s v =
    if_either IsSound s.conn.is_open
      (λ t.
        aside-IsSound s.conn.is_open true s.conn.has_timer s.conn.posted_closes s.deletion_queue s
          v)
      (λ f. v)

on_timeout-IsSound : (s : Session) → IsSound s → IsSound (on_timeout s)
unfolding on_timeout schedule_for_deletion aside
on_timeout-IsSound s v =
    if_either IsSound s.conn.received_data (λ t. v)
      (λ f.
        let s1 = shutdown s in
        aside-IsSound s1.conn.is_open s1.conn.is_shut s1.conn.has_timer s1.conn.posted_closes _ s1
          (shutdown-IsSound s v))

pub Step-IsSound : (s s' : Session) → IsSound s → Step s (returned s') → IsSound s'
unfolding disconnect_client is_connected on_close_posted aside
Step-IsSound s s' v (completes h c) =
    Outcome-IsSound (event_of s (returned s') c) s s' (Completion-Outcome s h v c)
Step-IsSound s s' v (timer_run e) =
    on_timeout-IsSound (timer_off s)
      (aside-IsSound s.conn.is_open s.conn.is_shut false s.conn.posted_closes s.deletion_queue s v)
Step-IsSound s s' v disconnect_called =
    if_either IsSound s.conn.is_open
      (λ t.
        aside-IsSound s.conn.is_open s.conn.is_shut s.conn.has_timer (s.conn.posted_closes + 1)
          s.deletion_queue s v)
      (λ f. v)
Step-IsSound s s' v shutdown_called = shutdown-IsSound s v
Step-IsSound s s' v (close_run e) =
    aside-IsSound false s.conn.is_shut s.conn.has_timer (s.conn.posted_closes - 1) s.deletion_queue
      s v

-- Every session that a connection can come to, by its handlers, its timer, the calls of its
-- owner and the closes that have been posted, has at most one operation pending; when it is a
-- header read, the packet length is 0, when a body read, the body has the size of the packet
-- length, which is at most 1024, and the type is one that create_fixed_header takes; and from
-- the body read to the end of the write a first CONNECT header and data have been received.
pub Reached-IsSound : (self : ℕ) (cfg : ClientConfig) (s : Session) → Reached self cfg s → IsSound s
unfolding connect_to_client new_connection aside
Reached-IsSound self cfg s (accepted true q) = waits reading_header refl (refl, λ e. cc)
Reached-IsSound self cfg s (accepted false q) = done refl
Reached-IsSound self cfg s (next s1 s2 r t) = Step-IsSound s1 s2 (Reached-IsSound self cfg s1 r) t
