-- ===== src/Packet/PayloadTotal.antt =====
-- decode_payload (include/lmqtt_packet.h) on any bytes: it comes back.
use lmqtt_cpp.Common.{
  ℕ, ◌+◌, ◌-◌, ◌^◌, ◌≤◌, ◌<◌, ◌≡◌, refl, ◌⊎◌, inl, inr, true, List, [], ◌∷◌, ltb, lt→ltb, ne→==,
  length, Result, ok, err, fault, no_fuel, arith,
}
use native.Mathlib.Decide.{dec_lt, ℕ_discrete}
use lmqtt_cpp.Common.{ReasonCode, malformed_packet}
use lmqtt_cpp.VarInt.{decode_variable_int}
use lmqtt_cpp.VarInt.Decode.{IsDecoded, decode_variable_int-IsDecoded}
use lmqtt_cpp.Types.Packet.{PacketType}
use lmqtt_cpp.Types.Payload
use lmqtt_cpp.Types.Payload.{PayloadType, get_payload_data_type}
use lmqtt_cpp.Property.StringTotal.{IsQuiet, IsQuiet-IsByte, get_string_in, get_binary_in}
use lmqtt_cpp.Payload.{PayloadValue, payload_string, payload_binary, get_payload_value, get_payload}
use lmqtt_cpp.Config.{ClientConfig}
use lmqtt_cpp.Config.Payload.{configure_payload}
use lmqtt_cpp.Config.Total.{HasWill, IsSafe, FitsPart, part, configure_payload-IsSafe, if-IsSafe}
use lmqtt_cpp.Packet.Properties.{decode_properties}
use lmqtt_cpp.Packet.PropertiesTotal.{and_then-IsSafe, decode_properties-IsSafe}
use lmqtt_cpp.Packet.Payload.{
  or_malformed, will_properties_part, payload_part, payload_step, payload_loop, decode_payload,
  loop_end, loop_next,
}

module _ (mem : List ℕ) (q : IsQuiet mem) where
  get_payload_in :
      (t : PayloadType) (p remaining : ℕ)
      → p + remaining ≤ length mem
      → (get_payload t mem p remaining ≡ err malformed_packet)
        ⊎ ((v : PayloadValue) × (n : ℕ) × (get_payload t mem p remaining ≡ ok (part t v, n))
            × FitsPart t v)
  unfolding get_payload get_payload_value get_payload_data_type
  get_payload_in Payload.client_id p remaining h = elim (get_string_in mem q p remaining h) [
    | inl e ↦ inl (rw e)
    | inr (s, n, e, lo, hi) ↦ inr (payload_string s, n, rw e, tt)
  ]
  get_payload_in Payload.will_topic p remaining h = elim (get_string_in mem q p remaining h) [
    | inl e ↦ inl (rw e)
    | inr (s, n, e, lo, hi) ↦ inr (payload_string s, n, rw e, tt)
  ]
  get_payload_in Payload.user_name p remaining h = elim (get_string_in mem q p remaining h) [
    | inl e ↦ inl (rw e)
    | inr (s, n, e, lo, hi) ↦ inr (payload_string s, n, rw e, tt)
  ]
  get_payload_in Payload.will_payload p remaining h = elim (get_binary_in mem q p remaining h) [
    | inl e ↦ inl (rw e)
    | inr (s, n, e, lo, hi) ↦ inr (payload_binary s, n, rw e, tt)
  ]
  get_payload_in Payload.password p remaining h = elim (get_binary_in mem q p remaining h) [
    | inl e ↦ inl (rw e)
    | inr (s, n, e, lo, hi) ↦ inr (payload_binary s, n, rw e, tt)
  ]
  get_payload_in t p remaining h = inl refl

  payload_part-IsSafe :
      (t : PayloadType) (packet : PacketType) (p remaining : ℕ) (c : ClientConfig)
      → HasWill c
      → p + remaining ≤ length mem
      → IsSafe (payload_part t mem p remaining c)
  unfolding payload_part
  payload_part-IsSafe t packet p remaining c w h = elim (get_payload_in t p remaining h) [
    | inl e ↦ rw e (tt, w)
    | inr (v, n, e, s) ↦ rw e (
        and_then-IsSafe (configure_payload c (part t v)) _ (configure_payload-IsSafe t c v s w)
          λ c' u e' w'. (tt, w'))
  ]

  pub decoded_length :
      (p remaining : ℕ)
      → p + remaining ≤ length mem
      → ((e : ReasonCode) × (or_malformed (decode_variable_int mem p remaining) ≡ err e))
        ⊎ ((value : ℕ) × (offset : ℕ) × (or_malformed (decode_variable_int mem p remaining)
              ≡ ok (value, offset))
            × (value < 16384)
            × (offset ≤ remaining))
  decoded_length p remaining h =
      cases (decode_variable_int mem p remaining)
        (decode_variable_int-IsDecoded mem p remaining h (IsQuiet-IsByte mem q))
    where
      cases :
          (r : Result (ℕ × ℕ))
          → IsDecoded remaining r
          → ((e : ReasonCode) × (or_malformed r ≡ err e))
            ⊎ ((value : ℕ) × (offset : ℕ) × (or_malformed r ≡ ok (value, offset))
                × (value < 16384)
                × (offset ≤ remaining))
      cases (ok (value, offset)) d = inr (value, offset, refl, d.0, d.2)
      cases (err e) d = inl (malformed_packet, refl)
      cases fault d = absurd d
      cases no_fuel d = absurd d

  will_properties_part-IsSafe :
      (packet : PacketType) (p remaining : ℕ) (c : ClientConfig)
      → HasWill c
      → p + remaining ≤ length mem
      → length mem < 2 ^ 31
      → IsSafe (will_properties_part packet mem p remaining c)
  unfolding will_properties_part
  will_properties_part-IsSafe packet p remaining c w h l = elim (decoded_length p remaining h) [
    | inl (x, e) ↦ rw e (tt, w)
    | inr (value, offset, e, lv, lo) ↦ rw e (
        and_then-IsSafe (decode_properties packet mem (p + offset) value true c) _
          (decode_properties-IsSafe mem q packet (p + offset) value true c w (omega arith))
          λ c' u e' w'. (tt, w'))
  ]

  payload_step-IsSafe :
      (t : PayloadType) (packet : PacketType) (p : ℕ) (c : ClientConfig)
      → HasWill c
      → p ≤ length mem
      → length mem < 2 ^ 31
      → IsSafe (payload_step t packet mem p c)
  unfolding payload_step
  payload_step-IsSafe Payload.unknown_payload packet p c w h l = (tt, w)
  payload_step-IsSafe Payload.will_properties packet p c w h l =
      will_properties_part-IsSafe packet p (length mem - p) c w (omega arith) l
  payload_step-IsSafe t packet p c w h l =
      payload_part-IsSafe t packet p (length mem - p) c w (omega arith)

  payload_loop-IsSafe :
      (flags : List PayloadType) (packet : PacketType) (p : ℕ) (c : ClientConfig)
      → HasWill c
      → length mem < 2 ^ 31
      → IsSafe (payload_loop flags packet mem p c)
  unfolding payload_loop
  payload_loop-IsSafe [] packet p c w l = (tt, w)
  payload_loop-IsSafe (t ∷ rest) packet p c w l = elim (ℕ_discrete p (length mem)) [
    | yes e ↦ rw (loop_end (t ∷ rest) packet mem p c e) (tt, w)
    | no ne ↦ elim (dec_lt (length mem) p) [
      | yes past ↦ rw (ne→== p (length mem) ne, lt→ltb (length mem) p past) (tt, w)
      | no inside ↦ rw (loop_next t rest packet mem p c (omega arith)) (
          and_then-IsSafe (payload_step t packet mem p c) _
            (payload_step-IsSafe t packet p c w (omega arith) l)
            λ c' p' e' w'. payload_loop-IsSafe rest packet p' c' w' l)
    ]
  ]

  pub decode_payload-IsSafe :
      (flags : List PayloadType) (packet : PacketType) (p : ℕ) (c : ClientConfig)
      → HasWill c
      → length mem < 2 ^ 31
      → IsSafe (decode_payload flags packet mem p c)
  unfolding decode_payload
  decode_payload-IsSafe flags packet p c w l =
      if-IsSafe (ltb (length mem) p) _ _ (tt, w) λ e. payload_loop-IsSafe flags packet p c w l
