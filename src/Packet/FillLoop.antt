-- ===== src/Packet/FillLoop.antt =====
-- The property loop of create_connack_packet (include/lmqtt_packet.h): the bytes that it writes.
use lmqtt_cpp.Common.{
  ℕ, ◌+◌, ◌-◌, ◌%◌, ◌^◌, ◌<◌, ◌≡◌, refl, sym, ap, ◌∙◌, List, [], ◌∷◌, ◌++◌, ne→==, length, drop,
  All, length-append, length-drop, ok, arith,
}
use native.Mathlib.Decide.{ℕ_discrete}
use mathlib.Core.List.{append_assoc}
use lmqtt_cpp.Types.Property
use lmqtt_cpp.Types.Property.{
  PropertyType, connack_properties, is_property_fixed, get_property_data_type, data_code,
}
use lmqtt_cpp.Config.{ClientConfig}
use lmqtt_cpp.Config.FillPrint.{
  IsPlain, IsSupported, connack_bytes, get_property_size-connack_bytes, fill_property-Puts,
}
use lmqtt_cpp.Packet.Connack.{fill_loop}

unfoldable pub all_bytes : ClientConfig → List PropertyType → List ℕ
all_bytes c [] = []
all_bytes c (t ∷ ts) = connack_bytes c t ++ all_bytes c ts

-- Those of `connack_properties` that the server supports.
abbrev pub supported : List PropertyType
supported =
    Property.session_expiry_interval ∷ Property.receive_maximum ∷ Property.maximum_qos
    ∷ Property.retain_available ∷ Property.maximum_packet_size ∷ Property.assigned_client_id
    ∷ Property.topic_alias_maximum ∷ Property.reason_string ∷ Property.user_property
    ∷ Property.wildcard_subscription_available ∷ Property.subscription_id_available
    ∷ Property.shared_subscription_available ∷ Property.server_keep_alive ∷ []

fill_loop_end :
    (ts : List PropertyType) (c : ClientConfig) (mem : List ℕ) (buff n : ℕ)
    → buff ≡ length mem
    → fill_loop ts c mem buff n ≡ (mem, ok tt)
unfolding fill_loop
fill_loop_end [] c mem buff n e = ground arith
fill_loop_end (t ∷ ts) c mem buff n e = ground arith

no_more : (xs : List ℕ) → length xs ≡ 0 → xs ≡ []
no_more [] e = refl
no_more (x ∷ xs) e = absurd (omega arith)

pub fill_loop-print :
    (ts rest : List PropertyType) (c : ClientConfig) (pre old : List ℕ)
    → IsPlain c
    → All IsSupported ts
    → length old ≡ length (all_bytes c ts)
    → length old < 2 ^ 32
    → fill_loop (ts ++ rest) c (pre ++ old) (length pre) (length old)
      ≡ (pre ++ all_bytes c ts, ok tt)
unfolding all_bytes fill_loop
fill_loop-print [] rest c pre old v s e l =
    fill_loop_end rest c (pre ++ old) (length pre) (length old)
      (omega (arith, length-append pre old))
    ∙ rw (no_more old e) refl
fill_loop-print (t ∷ ts) rest c pre old v (s, ss) e l = elim (ℕ_discrete (length old) 0) [
  | yes z ↦
      fill_loop_end (t ∷ ts ++ rest) c (pre ++ old) (length pre) (length old)
        (omega (arith, length-append pre old))
      ∙ rw (no_more old z, no_more (connack_bytes c t ++ all_bytes c ts) (sym e ∙ z)) refl
  | no nz ↦
      let bs = connack_bytes c t in
      let len = length-append bs (all_bytes c ts) in
      let size = get_property_size-connack_bytes c t v s in
      let left = length-drop (length bs) old in
      let remaining : (length old + 2 ^ 32 - length bs) % 2 ^ 32 ≡ length (drop (length bs) old) =
        omega arith in
      rw
        (
          ne→== (length pre) (length (pre ++ old)) (omega (arith, length-append pre old)),
          fill_property-Puts c t pre old v s (omega arith) l,
          size,
          remaining,
          sym (append_assoc pre bs (drop (length bs) old)),
          sym (length-append pre bs),
        )
        (fill_loop-print ts rest c (pre ++ bs) (drop (length bs) old) v ss (omega arith)
            (omega arith)
          ∙ ap (λ x. (x, ok tt)) (append_assoc pre bs (all_bytes c ts)))
]
