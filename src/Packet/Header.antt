-- ===== src/Packet/Header.antt =====
-- create_fixed_header (include/lmqtt_packet.h): which control bytes it takes, and as what.
use lmqtt_cpp.Common.{
  ℕ, ◌/◌, ◌%◌, ◌≤◌, ◌<◌, ◌≡◌, refl, sym, ap, ◌∙◌, ◌⊎◌, inl, inr, Option, none, some, bit_and, ne→==,
  Result, ok, err, arith,
}
use native.Mathlib.Decide.{ℕ_discrete}
use lmqtt_cpp.Common.Bits.{agree_below, agree_below→eq}
use lmqtt_cpp.Common.{malformed_packet}
use lmqtt_cpp.Types.Packet.{
  PacketType, reserved, connect, connack, publish, disconnect, auth, unknown_packet, packet_code,
  packet_of_code,
}
use lmqtt_cpp.Packet.{LmqttPacket, Typed, create_fixed_header, header_case, as_disconnect, stored}

-- The control byte is taken as the first byte of a packet of this type.
abbrev pub IsTaken : ℕ → PacketType → Type 0
IsTaken field connect = field ≡ 0x10
IsTaken field connack = field ≡ 0x20
IsTaken field publish = (field ≡ 0x30) ⊎ (field ≡ 0x31)
IsTaken field disconnect = (0x40 ≤ field) × (field ≤ 0xe0) × (field % 16 ≡ 0)
IsTaken field t = ⊥

pub low_bits : (b : ℕ) → b < 256 → bit_and b 0xf ≡ b % 16
unfolding agree_below
low_bits = agree_below→eq _ _ 256 refl

publish_high : (field : ℕ) → field % 16 / 2 ≡ 0 → field % 16 / 8 ≡ 0
publish_high field h = omega arith

publish_bits : (n : ℕ) → n < 16 → bit_and (n / 2) 0x3 ≡ n / 2 % 4
unfolding agree_below
publish_bits = agree_below→eq (λ n. bit_and (n / 2) 0x3) (λ n. n / 2 % 4) 16 refl

pub packet_code_of_code : (n : ℕ) → n < 16 → packet_code (packet_of_code n) ≡ n
unfolding packet_of_code packet_code
packet_code_of_code n h = ground arith

-- Taken, as what it is meant, or refused.
abbrev IsJudged : ℕ → Option PacketType × Result (Unit {0}) → Type 0
IsJudged field m =
    ((t : PacketType) × IsTaken field t × (m ≡ (some t, ok tt)))
    ⊎ (((t : PacketType) → ¬ (IsTaken field t)) × (m.1 ≡ err malformed_packet))

abbrev IsTakenByte : ℕ → Type 0
IsTakenByte field =
    (field ≡ 0x10)
    ⊎ (field ≡ 0x20)
    ⊎ (field ≡ 0x30)
    ⊎ (field ≡ 0x31)
    ⊎ ((0x40 ≤ field) × (field ≤ 0xe0) × (field % 16 ≡ 0))

IsTaken-byte : (field : ℕ) (t : PacketType) → IsTaken field t → IsTakenByte field
IsTaken-byte field connect e = inl e
IsTaken-byte field connack e = inr (inl e)
IsTaken-byte field publish (inl e) = inr (inr (inl e))
IsTaken-byte field publish (inr e) = inr (inr (inr (inl e)))
IsTaken-byte field disconnect e = inr (inr (inr (inr e)))
IsTaken-byte field t e = absurd e

refused :
    (field : ℕ) (m : Typed)
    → (IsTakenByte field → ⊥)
    → m.1 ≡ err malformed_packet
    → IsJudged field m
refused field m h e = inr ((λ t k. h (IsTaken-byte field t k)), e)

as_disconnect-IsJudged :
    (field : ℕ) → 0x40 ≤ field → field < 0xf0 → IsJudged field (as_disconnect (field % 16))
as_disconnect-IsJudged field lo hi = elim (ℕ_discrete (field % 16) 0) [
  | yes e ↦ inl (disconnect, (omega arith, omega arith, e), rw e refl)
  | no ne ↦ refused field _ (λ k. ground arith) (rw (ne→== (field % 16) 0 ne) refl)
]

header_case-IsJudged :
    (t : PacketType) (field : ℕ)
    → field < 256
    → field / 16 ≡ packet_code t
    → IsJudged field (header_case t (field % 16))
unfolding header_case packet_code
header_case-IsJudged reserved field h e = refused field _ (λ k. ground arith) refl
header_case-IsJudged auth field h e = refused field _ (λ k. ground arith) refl
header_case-IsJudged unknown_packet field h e = absurd (omega arith)
header_case-IsJudged connect field h e = elim (ℕ_discrete field 0x10) [
  | yes f ↦ inl (connect, f, rw f refl)
  | no nf ↦ refused field _ (λ k. ground arith) (rw (ne→== (field % 16) 0 (omega arith)) refl)
]
header_case-IsJudged connack field h e = elim (ℕ_discrete field 0x20) [
  | yes f ↦ inl (connack, f, rw f refl)
  | no nf ↦ refused field _ (λ k. ground arith) (rw (ne→== (field % 16) 0 (omega arith)) refl)
]
header_case-IsJudged publish field h e = elim (ℕ_discrete (field % 16 / 2) 0) [
  | yes f ↦ inl (publish, ground arith, rw (f, publish_high field f) refl)
  | no nf ↦
      refused field _ (λ k. ground arith)
        (rw (publish_bits (field % 16) (omega arith)) (ground arith))
]
header_case-IsJudged t field h e = as_disconnect-IsJudged field (omega arith) (omega arith)

abbrev pub IsHeaderRead : LmqttPacket → Type 0
IsHeaderRead p =
    ((t : PacketType) × IsTaken p.header.control_field t
      × (create_fixed_header p ≡ (record p { packet_type = t }, ok tt)))
    ⊎ (((t : PacketType) → ¬ (IsTaken p.header.control_field t))
        × ((create_fixed_header p).1 ≡ err malformed_packet))

stored-judged :
    (p : LmqttPacket) (m : Typed)
    → create_fixed_header p ≡ stored p m
    → IsJudged p.header.control_field m
    → IsHeaderRead p
stored-judged p m c (inl (t, k, e)) = inl (t, k, c ∙ ap (stored p) e)
stored-judged p (none, r) c (inr (n, e)) = inr (n, rw c e)
stored-judged p (some t, r) c (inr (n, e)) = inr (n, rw c e)

-- Every control byte is either one of 0x10 (CONNECT), 0x20 (CONNACK), 0x30 and 0x31 (PUBLISH)
-- and 0x40, 0x50 up to 0xe0, which all are taken as a DISCONNECT, and create_fixed_header
-- stores that type and succeeds; or it is none of them, and create_fixed_header returns
-- MALFORMED_PACKET.
pub create_fixed_header-IsHeaderRead :
    (p : LmqttPacket) → p.header.control_field < 256 → IsHeaderRead p
unfolding create_fixed_header
create_fixed_header-IsHeaderRead p h =
    let field = p.header.control_field in
    stored-judged p (header_case (packet_of_code (field / 16)) (field % 16))
      (rw (low_bits field h) refl)
      (header_case-IsJudged (packet_of_code (field / 16)) field h
        (sym (packet_code_of_code (field / 16) (omega arith))))
