-- ===== src/Connection/Header.antt =====
-- How the handler of read_fixed_header (include/lmqtt_connection.h) ends.
use lmqtt_cpp.Common.{
  zero, suc, ◌<◌, bit_and, ◌==◌, le→ltb, arith, [], false, if_either, ℕ, ◌≡◌, refl, ap, ◌⊎◌, inl,
  inr, Bool, true, not, Option, none, some, List, ◌∷◌, ltb, Bool-cases, ok, err, require,
}
use lmqtt_cpp.Types.Packet.{
  PacketType, connect, connack, publish, disconnect, same_packet, packet_code,
}
use lmqtt_cpp.Packet.{create_fixed_header}
use lmqtt_cpp.Packet.ConnackPrint.{length-resize}
use lmqtt_cpp.Packet.{Typed, header_case, stored}
use lmqtt_cpp.Types.Packet
use lmqtt_cpp.Common.{malformed_packet}
use lmqtt_cpp.Connection.{
  read_some, reading_body, operation_eq, Session, thrown, on_header, length_loop, check_length,
  after_loop, read_length, check_first, check_header, got_byte, packet_size_limit, with_in_packet,
}
use lmqtt_cpp.Connection.Steps.{header_came, header_lost, header_event}
use lmqtt_cpp.VarInt.{add_group, next_mul}
use lmqtt_cpp.Connection.Ending.{
  lt_limit, IsAccepted, HasConnect, goes_on, strands, throws, Outcome, IsSame, left, IsTyped,
  le_limit,
}

check_length-Outcome :
    (s s1 : Session) (n : ℕ)
    → IsSame s s1
    → HasConnect s1
    → IsTyped s s1
    → Outcome header_came s (check_length true n s1)
unfolding check_length
check_length-Outcome s s1 n v h a =
    if_either (Outcome header_came s) (ltb packet_size_limit n)
      (λ t. strands _ (refl, lt_limit n t) v.idle h.1 v.queue v.named)
      (λ f.
        goes_on _ reading_body tt (ap (λ t. reading_body ∷ t) v.idle)
          (length-resize n _, le_limit n f, a.0, h) a.1 v.queue v.named)

-- `mul` is a uint8_t, so the loop never finds a length malformed.
abbrev IsGood : Option (Bool × ℕ) → Type 0
IsGood none = Unit {0}
IsGood (some (good, n)) = good ≡ true

length_loop-IsGood :
    (rounds : ℕ) (socket_open : Bool) (stream : List ℕ) (n mul : ℕ)
    → mul < 256
    → IsGood (length_loop rounds socket_open stream n mul)
unfolding length_loop read_some
length_loop-IsGood zero o stream n mul h = refl
length_loop-IsGood (suc k) false stream n mul h = tt
length_loop-IsGood (suc k) true [] n mul h = tt
length_loop-IsGood (suc k) true (x ∷ xs) n mul h = rw (le→ltb 0x200000 mul (omega arith)) (
    if_either IsGood (bit_and x 0x80 == 0) (λ t. refl)
      (λ f. length_loop-IsGood k true xs (add_group n x mul) (next_mul mul) (omega arith)))

read_length-Outcome :
    (s s1 : Session) (stream : List ℕ)
    → IsSame s s1
    → HasConnect s1
    → IsTyped s s1
    → Outcome header_came s (read_length stream s1)
unfolding read_length
read_length-Outcome s s1 stream v h a =
    let len = s1.conn.in_packet.header.packet_len in
    go (length_loop 4 s1.conn.is_open stream len 1)
      (length_loop-IsGood 4 s1.conn.is_open stream len 1 (omega arith))
  where
    go : (m : Option (Bool × ℕ)) → IsGood m → Outcome header_came s (after_loop s1 m)
    go none g = throws refl
    go (some (true, n)) g = check_length-Outcome s s1 n v h a
    go (some (false, n)) g = absurd cc

-- A closed socket gives no byte.
pub read_length-closed :
    (s1 : Session) (stream : List ℕ) → s1.conn.is_open ≡ false → read_length stream s1 ≡ thrown
unfolding read_length length_loop read_some
read_length-closed s1 stream e = rw e refl

check_first-Outcome :
    (s s1 : Session) (stream : List ℕ)
    → IsSame s s1
    → s1.conn.received_data ≡ true
    → (s1.conn.is_open ≡ false) ⊎ IsTyped s s1
    → Outcome header_came s (check_first stream s1)
unfolding check_first
check_first-Outcome s s1 stream v r a =
    if_either (Outcome header_came s) s1.conn.is_first_packet
      (λ t.
        if_either (Outcome header_came s) (not (same_packet s1.conn.in_packet.packet_type connect))
          (λ n. left header_came s s1 tt v)
          (λ y.
            typed (record s1 { conn = record s1.conn { is_first_packet = false } })
              (record { idle = v.idle; queue = v.queue; named = v.named }) (refl, r) a))
      (λ f. typed s1 v (f, r) a)
  where
    typed :
        (s2 : Session)
        → IsSame s s2
        → HasConnect s2
        → (s2.conn.is_open ≡ false) ⊎ IsTyped s s2
        → Outcome header_came s (read_length stream s2)
    typed s2 w h (inl c) = rw (read_length-closed s2 stream c) (throws refl)
    typed s2 w h (inr b) = read_length-Outcome s s2 stream w h b

pub data IsHeaderCase : Typed → Type 0 where
  good : (t : PacketType) → IsAccepted t → IsHeaderCase (some t, ok tt)
  refused : (t : Option PacketType) → IsHeaderCase (t, err malformed_packet)

required :
    (t : PacketType) (b : Bool) → IsAccepted t → IsHeaderCase (some t, require b malformed_packet)
required t true a = good t a
required t false a = refused (some t)

pub header_case-IsHeaderCase : (t : PacketType) (pflag : ℕ) → IsHeaderCase (header_case t pflag)
unfolding header_case
header_case-IsHeaderCase Packet.reserved pflag = refused none
header_case-IsHeaderCase connect pflag = required connect _ tt
header_case-IsHeaderCase connack pflag = required connack _ tt
header_case-IsHeaderCase publish pflag = required publish _ tt
header_case-IsHeaderCase Packet.auth pflag = refused none
header_case-IsHeaderCase Packet.unknown_packet pflag = refused none
header_case-IsHeaderCase t pflag = elim (Bool-cases (pflag == Packet.disconnect_flag)) [
  | inl y ↦ rw y (good disconnect tt)
  | inr n ↦ rw n (refused none)
]

check_header-Outcome :
    (s s1 : Session) (stream : List ℕ) (m : Typed)
    → IsSame s s1
    → s1.conn.received_data ≡ true
    → s1.conn.is_open ≡ s.conn.is_open
    → IsHeaderCase m
    → Outcome header_came s (check_header stream s1 (stored s1.conn.in_packet m))
unfolding check_header
check_header-Outcome s s1 stream m v r o (good t a) =
    check_first-Outcome s _ stream (same v) r (inr (a, o))
  where
    same : IsSame s s1 → IsSame s (with_in_packet (record s1.conn.in_packet { packet_type = t }) s1)
    same w = record { idle = w.idle; queue = w.queue; named = w.named }
check_header-Outcome s s1 stream m v r o (refused none) =
    check_first-Outcome s _ stream (record { idle = v.idle; queue = v.queue; named = v.named }) r
      (inl refl)
check_header-Outcome s s1 stream m v r o (refused (some t)) =
    check_first-Outcome s _ stream (record { idle = v.idle; queue = v.queue; named = v.named }) r
      (inl refl)

pub on_header-Outcome :
    (s : Session) (byte : Option ℕ) (stream : List ℕ)
    → s.conn.pending ≡ []
    → Outcome (header_event byte) s (on_header byte stream s)
unfolding on_header create_fixed_header
on_header-Outcome s none stream h =
    left header_lost s s tt (record { idle = h; queue = refl; named = refl })
on_header-Outcome s (some byte) stream h =
    check_header-Outcome s (got_byte byte s) stream _
      (record { idle = h; queue = refl; named = refl }) refl refl (header_case-IsHeaderCase _ _)
