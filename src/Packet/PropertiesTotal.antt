-- ===== src/Packet/PropertiesTotal.antt =====
-- decode_properties (include/lmqtt_packet.h) on any bytes: it comes back.
use lmqtt_cpp.Common.{
  ◌||◌, ℕ, zero, suc, ◌+◌, ◌-◌, ◌%◌, ◌^◌, ◌≤◌, ◌<◌, ◌≡◌, refl, ◌⊎◌, inl, inr, Bool, true, false,
  ◌&&◌, List, [], ◌∷◌, ltb, ◌==◌, if◌then◌else◌, lt→ltb, le→ltb, Bool-cases, length, Result, ok,
  err, fault, no_fuel, arith,
}
use native.Mathlib.Decide.{dec_lt, ℕ_discrete}
use lmqtt_cpp.Common.{ReasonCode, malformed_packet, protocol_error}
use lmqtt_cpp.Memory.{load_in}
use lmqtt_cpp.Types.Packet.{PacketType}
use lmqtt_cpp.Types.Property.{
  PropertyType, property_of_code, get_property_data_type, is_property_unique,
  validate_packet_property_type,
}
use lmqtt_cpp.Property.{PropertyValue}
use lmqtt_cpp.Property.Print.{property}
use lmqtt_cpp.Property.Total.{HasType, get_property_data_in}
use lmqtt_cpp.Property.StringTotal.{IsQuiet, IsQuiet-IsByte}
use lmqtt_cpp.Config.{ClientConfig}
use lmqtt_cpp.Config.Total.{
  HasWill, IsSafe, configure_propriety-IsSafe, configure_will_propriety-IsSafe,
}
use lmqtt_cpp.Packet.Properties.{
  and_then, contains, read_property, apply_property, properties_loop, decode_properties,
}
use lmqtt_cpp.Packet.PropertyList.{loop_done, loop_step}

pub and_then-IsSafe :
    {A B : Type 0} (m : ClientConfig × Result A) (k : ClientConfig → A → ClientConfig × Result B)
    → IsSafe m
    → ((c : ClientConfig) (a : A) → m ≡ (c, ok a) → HasWill c → IsSafe (k c a))
    → IsSafe (and_then m k)
and_then-IsSafe (c, ok a) k h g = g c a refl h.1
and_then-IsSafe (c, err e) k h g = h
and_then-IsSafe (c, fault) k h g = h
and_then-IsSafe (c, no_fuel) k h g = h

apply_property-IsSafe :
    (is_will : Bool) (t : PropertyType) (c : ClientConfig) (v : PropertyValue)
    → HasType (get_property_data_type t) v
    → HasWill c
    → IsSafe (apply_property is_will c (property t v))
unfolding apply_property
apply_property-IsSafe true t c v h w = configure_will_propriety-IsSafe t c v h w
apply_property-IsSafe false t c v h w = configure_propriety-IsSafe t c v h w

module _ (mem : List ℕ) (q : IsQuiet mem) where
  -- A round that goes on has read a value of the property's data type, inside the stretch.
  read_property_in :
      (packet : PacketType) (size buff buff_end : ℕ) (seen : List PropertyType)
      → buff < buff_end
      → buff_end ≤ length mem
      → buff_end < 2 ^ 32
      → ((e : ReasonCode) × (read_property packet mem size buff buff_end seen ≡ err e))
        ⊎ ((t : PropertyType) × (v : PropertyValue) × (n : ℕ) × (seen' : List PropertyType)
            × (read_property packet mem size buff buff_end seen ≡ ok (property t v, n, seen'))
            × (buff + 1 + n ≤ buff_end)
            × HasType (get_property_data_type t) v)
  unfolding read_property
  read_property_in packet size buff buff_end seen lo hi w =
      let (b, e, l) = load_in mem buff (omega arith) (IsQuiet-IsByte mem q) in
      let t = property_of_code b in
      let rem : (buff_end + 2 ^ 32 - (buff + 1)) % 2 ^ 32 ≡ buff_end - (buff + 1) = omega arith in
      let r = buff_end - (buff + 1) in
      elim (Bool-cases (validate_packet_property_type t packet)) [
        | inr no_valid ↦ inl (malformed_packet, rw (e, no_valid))
        | inl valid ↦ elim (Bool-cases (is_property_unique t && contains t seen)) [
          | inl twice ↦ inl (protocol_error, rw (e, valid, twice))
          | inr once ↦ elim (Bool-cases (r == 0 || ltb size r)) [
            | inl short ↦ inl (malformed_packet, rw (e, valid, once, rem, short))
            | inr room ↦ elim (get_property_data_in mem q t (buff + 1) r (omega arith)) [
              | inl bad ↦ inl (malformed_packet, rw (e, valid, once, rem, room, bad))
              | inr (v, n, good, one, fits, s) ↦ inr (
                t,
                v,
                n,
                (if is_property_unique t then t ∷ seen else seen),
                rw (e, valid, once, rem, room, good),
                omega arith,
                s,
              )
            ]
          ]
        ]
      ]

  properties_loop-IsSafe :
      (k : ℕ) (packet : PacketType) (is_will : Bool) (size buff buff_end : ℕ)
      (seen : List PropertyType) (c : ClientConfig)
      → HasWill c
      → buff ≤ buff_end
      → buff_end ≤ length mem
      → buff_end < 2 ^ 32
      → buff_end - buff < k
      → IsSafe (properties_loop k packet is_will mem size buff buff_end seen c)
  properties_loop-IsSafe zero packet is_will size buff buff_end seen c w lo hi l f =
      absurd (omega arith)
  properties_loop-IsSafe (suc k) packet is_will size buff buff_end seen c w lo hi l f =
      elim (ℕ_discrete buff buff_end) [
        | yes e ↦ rw (loop_done k packet is_will mem size buff buff_end seen c e) (tt, w)
        | no ne ↦
            rw (loop_step k packet is_will mem size buff buff_end seen c ne)
              (elim (read_property_in packet size buff buff_end seen (omega arith) hi l) [
                | inl (x, e) ↦ rw e (tt, w)
                | inr (t, v, n, seen', e, fits, s) ↦ rw e (
                    and_then-IsSafe (apply_property is_will c (property t v)) _
                      (apply_property-IsSafe is_will t c v s w)
                      λ c' u e' w'.
                        properties_loop-IsSafe k packet is_will size (buff + 1 + n) buff_end seen'
                          c' w' fits hi l (omega arith))
              ])
      ]

  -- On a body of bytes of which none is from 0xE0 to 0xEF and so leads a three-byte UTF-8
  -- character, for a start and a size whose sum is below 2 ^ 32, and a client that has the
  -- will's configuration if its will flag is 1, decode_properties comes back, reads no byte
  -- outside the body, and leaves such a client.
  pub decode_properties-IsSafe :
      (packet : PacketType) (start size : ℕ) (is_will : Bool) (c : ClientConfig)
      → HasWill c
      → start + size < 2 ^ 32
      → IsSafe (decode_properties packet mem start size is_will c)
  unfolding decode_properties
  decode_properties-IsSafe packet start size is_will c w l =
      let small : (start + size) % 2 ^ 32 ≡ start + size = omega arith in
      elim (dec_lt (length mem) (start + size)) [
        | yes long ↦ rw (small, lt→ltb (length mem) (start + size) long) (tt, w)
        | no fits ↦
            rw (small, le→ltb (length mem) (start + size) (omega arith))
              (properties_loop-IsSafe (suc (length mem)) packet is_will size start (start + size) []
                c w (omega arith) (omega arith) l (omega arith))
      ]
