-- ===== src/Packet/ConnectTotal.antt =====
-- decode_connect_packet_body (include/lmqtt_packet.h) on any bytes: it comes back.
use lmqtt_cpp.Common.{
  ℕ, zero, suc, ◌+◌, ◌-◌, ◌%◌, ◌^◌, ◌≤◌, ◌<◌, ◌≡◌, refl, ◌≢◌, ◌⊎◌, inl, inr, Bool, true, false,
  Option, none, some, List, ◌==◌, lt→ltb, le→ltb, length, take, Result, ok, err, fault, no_fuel,
  require, Returns, Returns-bind, arith,
}
use native.Mathlib.Decide.{dec_lt}
use lmqtt_cpp.Common.{ReasonCode, unsupported_protocol_version, malformed_packet}
use lmqtt_cpp.Memory.{load, load_in, load_u16, load_u16_in, read_bytes, read_bytes_in}
use lmqtt_cpp.Types.Packet.{PacketType}
use lmqtt_cpp.Types.Payload.{PayloadType}
use lmqtt_cpp.Property.StringTotal.{IsQuiet, IsQuiet-IsByte}
use lmqtt_cpp.Config.{ClientConfig, init_will_cfg}
use lmqtt_cpp.Config.Total.{HasWill, IsSafe, require-Returns}
use lmqtt_cpp.Packet.{LmqttPacket}
use lmqtt_cpp.Packet.Properties.{decode_properties}
use lmqtt_cpp.Packet.PropertiesTotal.{and_then-IsSafe, decode_properties-IsSafe}
use lmqtt_cpp.Packet.ConnectPrint.{ConnectMessage, print_connect, flags_byte}
use lmqtt_cpp.Packet.Connect.{
  check_protocol, read_will_flags, read_user_flags, read_connect_flags, decode_rest,
  decode_after_flags, decode_connect_packet_body, Flagged, same_bytes, mqtt,
}
use lmqtt_cpp.Packet.PayloadTotal.{decoded_length, decode_payload-IsSafe}

module _ (mem : List ℕ) (q : IsQuiet mem) where
  decode_rest-IsSafe :
      (flags : List PayloadType) (packet : PacketType) (c : ClientConfig)
      → HasWill c
      → length mem < 2 ^ 31
      → IsSafe (decode_rest flags packet mem c)
  unfolding decode_rest
  decode_rest-IsSafe flags packet c w l = elim (dec_lt (length mem) 13) [
    | yes short ↦ rw (lt→ltb (length mem) 13 short) (tt, w)
    | no long ↦
        rw (le→ltb (length mem) 13 (omega arith))
          (elim (decoded_length mem q 10 (length mem - 10) (omega arith)) [
            | inl (x, e) ↦ rw e (tt, w)
            | inr (value, offset, e, lv, lo) ↦ rw e (
                and_then-IsSafe (decode_properties packet mem (10 + offset + 1) value false c) _
                  (decode_properties-IsSafe mem q packet (10 + offset + 1) value false c w
                    (omega arith))
                  λ c' u e' w'.
                    decode_payload-IsSafe mem q flags packet (10 + offset + 1 + value) c' w' l)
          ])
  ]

  check_protocol-Returns : 10 ≤ length mem → Returns (check_protocol mem)
  unfolding check_protocol
  check_protocol-Returns h =
      let (b0, e0, l0) = load_in mem 0 (omega arith) (IsQuiet-IsByte mem q) in
      let (b1, e1, l1) = load_in mem 1 (omega arith) (IsQuiet-IsByte mem q) in
      let (b6, e6, l6) = load_in mem 6 (omega arith) (IsQuiet-IsByte mem q) in
      let (name, e) = read_bytes_in mem 2 4 (omega arith) in
      rw (e0, e1, e6, e)
        (Returns-bind (require ((b1 + b0) % 256 == 4) malformed_packet) _ (require-Returns _ _)
          λ u h'.
            Returns-bind (require (same_bytes name mqtt) unsupported_protocol_version) _
              (require-Returns _ _) λ u' h''. require-Returns _ _)

-- A connect flags byte that is accepted, and the will flag on, makes the will's configuration.
read_connect_flags-HasWill :
    (flags : ℕ) (c : ClientConfig) (fs : List PayloadType)
    → Returns (read_connect_flags flags (c, fs)).1
      × ((read_connect_flags flags (c, fs)).1 ≡ ok tt
          → HasWill (read_connect_flags flags (c, fs)).0.0)
unfolding read_connect_flags read_will_flags read_user_flags init_will_cfg
read_connect_flags-HasWill flags c fs = (ground arith, ground arith)

Returns-cases : (r : Result (Unit {0})) → Returns r → (r ≡ ok tt) ⊎ ((e : ReasonCode) × (r ≡ err e))
Returns-cases (ok tt) h = inl refl
Returns-cases (err e) h = inr (e, refl)
Returns-cases fault h = absurd h
Returns-cases no_fuel h = absurd h

decode_after_flags-Returns :
    (p : LmqttPacket)
    → IsQuiet p.body
    → 10 ≤ length p.body
    → length p.body < 2 ^ 31
    → HasWill p.client_cfg
    → Returns (decode_after_flags p).1 × HasWill (decode_after_flags p).0.client_cfg
unfolding decode_after_flags
decode_after_flags-Returns p q h l w =
    let (n, e, ln) = load_u16_in p.body 8 (omega arith) (IsQuiet-IsByte p.body q) in
    rw e (
      decode_rest-IsSafe p.body q p.payload_flags p.packet_type
        (record p.client_cfg { keep_alive = n }) w l)

decode_connect-IsSafe :
    (p : LmqttPacket)
    → IsQuiet p.body
    → 10 ≤ length p.body
    → length p.body < 2 ^ 31
    → Returns (decode_connect_packet_body p).1
      × ((decode_connect_packet_body p).1 ≡ ok tt
          → HasWill (decode_connect_packet_body p).0.client_cfg)
unfolding decode_connect_packet_body
decode_connect-IsSafe p q h l =
    let (b, e, lb) = load_in p.body 7 (omega arith) (IsQuiet-IsByte p.body q) in
    let (back, will) = read_connect_flags-HasWill b p.client_cfg p.payload_flags in
    elim (Returns-cases (check_protocol p.body) (check_protocol-Returns p.body q h)) [
      | inr (x, bad) ↦ rw bad (tt, λ r. cc)
      | inl good ↦
          elim (Returns-cases (read_connect_flags b (p.client_cfg, p.payload_flags)).1 back) [
            | inr (x, bad) ↦ rw (good, e, bad) (tt, λ r. cc)
            | inl fine ↦
                let s = (read_connect_flags b (p.client_cfg, p.payload_flags)).0 in
                let (r, w) =
                  decode_after_flags-Returns (record p { client_cfg = s.0; payload_flags = s.1 }) q
                    h l (will fine) in
                rw (good, e, fine) (r, λ o. w)
          ]
    ]

-- On a body of at least ten bytes and less than 2 ^ 31, of which none is from 0xE0 to 0xEF and
-- so leads a three-byte UTF-8 character, decode_connect_packet_body comes back: it reads no
-- byte outside the body, follows no null pointer, and its loops end.
pub decode_connect_packet_body-Returns :
    (p : LmqttPacket)
    → IsQuiet p.body
    → 10 ≤ length p.body
    → length p.body < 2 ^ 31
    → Returns (decode_connect_packet_body p).1
decode_connect_packet_body-Returns p q h l = (decode_connect-IsSafe p q h l).0

-- When decode_connect_packet_body succeeds on a body of at least ten bytes and less than 2 ^
-- 31, of which none is from 0xE0 to 0xEF and so leads a three-byte UTF-8 character, and the
-- client's will flag is then 1, the pointer to the will's configuration is not null.
pub decode_connect_packet_body-will_cfg :
    (p : LmqttPacket)
    → IsQuiet p.body
    → 10 ≤ length p.body
    → length p.body < 2 ^ 31
    → (decode_connect_packet_body p).1 ≡ ok tt
    → (decode_connect_packet_body p).0.client_cfg.will_flag ≡ 1
    → (decode_connect_packet_body p).0.client_cfg.will_cfg ≢ none
decode_connect_packet_body-will_cfg p q h l = (decode_connect-IsSafe p q h l).1

flags_byte-ok :
    (clean : Bool) (u : Option (List ℕ)) (s : Flagged)
    → (read_connect_flags (flags_byte clean u) s).1 ≡ ok tt
unfolding read_connect_flags read_will_flags read_user_flags
flags_byte-ok false none s = refl
flags_byte-ok true none s = refl
flags_byte-ok false (some n) s = refl
flags_byte-ok true (some n) s = refl

-- The body of a CONNECT packet that is cut off before its tenth byte is read past its end by
-- decode_connect_packet_body.
pub decode_connect_packet_body-take :
    (p : LmqttPacket) (m : ConnectMessage) (k : ℕ)
    → k < 10
    → (decode_connect_packet_body (record p { body = take k (print_connect m) })).1 ≡ fault
unfolding decode_connect_packet_body decode_after_flags check_protocol print_connect load read_bytes
    load_u16
decode_connect_packet_body-take p m zero h = refl
decode_connect_packet_body-take p m (suc zero) h = refl
decode_connect_packet_body-take p m (suc (suc zero)) h = refl
decode_connect_packet_body-take p m (suc (suc (suc zero))) h = refl
decode_connect_packet_body-take p m (suc (suc (suc (suc zero)))) h = refl
decode_connect_packet_body-take p m (suc (suc (suc (suc (suc zero))))) h = refl
decode_connect_packet_body-take p m (suc (suc (suc (suc (suc (suc zero)))))) h = refl
decode_connect_packet_body-take p m (suc (suc (suc (suc (suc (suc (suc zero))))))) h = refl
decode_connect_packet_body-take p m (suc (suc (suc (suc (suc (suc (suc (suc zero)))))))) h =
    rw (flags_byte-ok m.clean_start m.user_name _)
decode_connect_packet_body-take p m (suc (suc (suc (suc (suc (suc (suc (suc (suc zero))))))))) h =
    rw (flags_byte-ok m.clean_start m.user_name _)
decode_connect_packet_body-take p m (suc (suc (suc (suc (suc (suc (suc (suc (suc (suc k))))))))))
      h =
    absurd (omega arith)
