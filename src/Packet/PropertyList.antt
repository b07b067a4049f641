-- ===== src/Packet/PropertyList.antt =====
-- decode_properties (include/lmqtt_packet.h) on the encoding of a list of properties.
use lmqtt_cpp.Common.{
  ℕ, zero, suc, ◌+◌, ◌-◌, ◌%◌, ◌^◌, ◌≤◌, ◌<◌, ◌≡◌, refl, ap, ◌∙◌, ◌≢◌, Bool, true, false, ◌&&◌,
  List, [], ◌∷◌, ◌++◌, if◌then◌else◌, le→ltb, ne→==, length, drop, length-append, length-drop,
  Result, ok, err, fault, no_fuel, arith,
}
use mathlib.Core.List.{append_assoc}
use lmqtt_cpp.Memory.{load_at, drop_next, drop_past}
use lmqtt_cpp.Types.Packet.{PacketType}
use lmqtt_cpp.Types.Property.{
  PropertyType, property_code, is_property_unique, validate_packet_property_type,
  get_property_data_type,
}
use lmqtt_cpp.Types.Tables.{validated_code}
use lmqtt_cpp.Property.{PropertyValue}
use lmqtt_cpp.Property.Print.{print_value, print_property, print_properties, IsValue, property}
use lmqtt_cpp.Property.RoundTrip.{get_property_data-print_value, print_value_pos}
use lmqtt_cpp.Config.{ClientConfig, Configured}
use lmqtt_cpp.Packet.Properties.{
  and_then, contains, read_property, apply_property, properties_loop, decode_properties,
}

-- What a list of properties comes to: each is applied in turn, up to the first that is refused.
unfoldable pub apply_all : Bool → ClientConfig → List (PropertyType × PropertyValue) → Configured
apply_all is_will c [] = (c, ok tt)
apply_all is_will c ((t, v) ∷ ps) =
    and_then (apply_property is_will c (property t v)) λ c' u. apply_all is_will c' ps

abbrev pub mark_seen : PropertyType → List PropertyType → List PropertyType
mark_seen t seen = if is_property_unique t then t ∷ seen else seen

-- The packet may carry each of the properties, their values are in range, and a unique one comes once.
abbrev pub IsCarried : PacketType → List PropertyType → List (PropertyType × PropertyValue) → Type 0
IsCarried packet seen [] = Unit {0}
IsCarried packet seen ((t, v) ∷ ps) =
    (validate_packet_property_type t packet ≡ true)
    × ((is_property_unique t && contains t seen) ≡ false)
    × IsValue (get_property_data_type t) v
    × IsCarried packet (mark_seen t seen) ps

-- The remaining size, as a uint32_t, inside the stretch.
remaining_lem :
    (buff buff_end : ℕ)
    → buff < buff_end
    → buff_end < 2 ^ 32
    → (buff_end + 2 ^ 32 - (buff + 1)) % 2 ^ 32 ≡ buff_end - (buff + 1)
remaining_lem buff buff_end h l = omega arith

read_property-print :
    (packet : PacketType) (mem : List ℕ) (size buff buff_end : ℕ) (seen : List PropertyType)
    (t : PropertyType) (v : PropertyValue) (rest : List ℕ)
    → validate_packet_property_type t packet ≡ true
    → (is_property_unique t && contains t seen) ≡ false
    → IsValue (get_property_data_type t) v
    → drop buff mem ≡ property_code t ∷ (print_value v ++ rest)
    → buff + 1 + length (print_value v) ≤ buff_end
    → buff_end ≤ buff + size
    → buff_end < 2 ^ 32
    → read_property packet mem size buff buff_end seen
      ≡ ok (property t v, length (print_value v), mark_seen t seen)
unfolding read_property
read_property-print packet mem size buff buff_end seen t v rest hv hu hi d h hs l =
    let k = print_value_pos v in
    rw (
      load_at mem buff (property_code t) _ d,
      validated_code t packet hv,
      hv,
      hu,
      remaining_lem buff buff_end (omega arith) l,
      ne→== (buff_end - (buff + 1)) 0 (omega arith),
      le→ltb size (buff_end - (buff + 1)) (omega arith),
      get_property_data-print_value t v mem (buff + 1) (buff_end - (buff + 1)) rest hi
          (drop_next mem buff _ _ d) (omega arith),
    )

pub loop_done :
    (k : ℕ) (packet : PacketType) (is_will : Bool) (mem : List ℕ) (size buff buff_end : ℕ)
    (seen : List PropertyType) (c : ClientConfig)
    → buff ≡ buff_end
    → properties_loop (suc k) packet is_will mem size buff buff_end seen c ≡ (c, ok tt)
unfolding properties_loop
loop_done k packet is_will mem size buff buff_end seen c e = ground arith

pub loop_step :
    (k : ℕ) (packet : PacketType) (is_will : Bool) (mem : List ℕ) (size buff buff_end : ℕ)
    (seen : List PropertyType) (c : ClientConfig)
    → buff ≢ buff_end
    → properties_loop (suc k) packet is_will mem size buff buff_end seen c
      ≡ and_then
          (c, read_property packet mem size buff buff_end seen)
          λ c' r.
            and_then
              (apply_property is_will c' r.0)
              λ c'' u. properties_loop k packet is_will mem size (buff + 1 + r.1) buff_end r.2 c''
unfolding properties_loop
loop_step k packet is_will mem size buff buff_end seen c ne =
    rw (ne→== buff buff_end ne, properties_loop)

-- The continuation may be exchanged for one that agrees on every configuration.
pub and_then-congr :
    {A B : Type 0} (m : ClientConfig × Result A) (f g : ClientConfig → A → ClientConfig × Result B)
    → ((c : ClientConfig) (a : A) → f c a ≡ g c a)
    → and_then m f ≡ and_then m g
and_then-congr (c, ok a) f g h = h c a
and_then-congr (c, err e) f g h = refl
and_then-congr (c, fault) f g h = refl
and_then-congr (c, no_fuel) f g h = refl

properties_loop-print :
    (k : ℕ) (packet : PacketType) (is_will : Bool) (mem : List ℕ) (size buff buff_end : ℕ)
    (seen : List PropertyType) (c : ClientConfig) (ps : List (PropertyType × PropertyValue))
    (rest : List ℕ)
    → IsCarried packet seen ps
    → drop buff mem ≡ print_properties ps ++ rest
    → buff + length (print_properties ps) ≡ buff_end
    → buff_end ≤ buff + size
    → buff_end < 2 ^ 32
    → length (print_properties ps) < k
    → properties_loop k packet is_will mem size buff buff_end seen c ≡ apply_all is_will c ps
unfolding apply_all print_properties print_property
properties_loop-print zero packet is_will mem size buff buff_end seen c ps rest h d e hs l f =
    absurd (omega arith)
properties_loop-print (suc k) packet is_will mem size buff buff_end seen c [] rest h d e hs l f =
    loop_done k packet is_will mem size buff buff_end seen c (omega arith)
properties_loop-print (suc k) packet is_will mem size buff buff_end seen c ((t, v) ∷ ps) rest
      (hv, hu, hi, hp) d e hs l f =
    let len = length-append (print_value v) (print_properties ps) in
    let d' =
      d ∙ ap (λ r. property_code t ∷ r) (append_assoc (print_value v) (print_properties ps) rest) in
    let d1 = drop_next mem buff _ _ d' in
    loop_step k packet is_will mem size buff buff_end seen c (omega arith)
    ∙ rw
        (read_property-print packet mem size buff buff_end seen t v (print_properties ps ++ rest) hv
          hu hi d' (omega (arith, len)) hs l)
        (and_then-congr (apply_property is_will c (property t v)) _ _ λ c' u.
          properties_loop-print k packet is_will mem size (buff + 1 + length (print_value v))
            buff_end (mark_seen t seen) c' ps rest hp
            (drop_past mem (buff + 1) (print_value v) _ d1) (omega (arith, len)) (omega arith) l
            (omega (arith, len)))

-- On the encoding of a list of properties that the packet may carry, whose values are in range
-- and whose unique properties come once, in whatever bytes of a body of less than 2 ^ 32 it
-- stands, decode_properties applies the properties in turn, up to the first that is refused.
pub decode_properties-print :
    (packet : PacketType) (mem : List ℕ) (start : ℕ) (is_will : Bool) (c : ClientConfig)
    (ps : List (PropertyType × PropertyValue)) (rest : List ℕ)
    → IsCarried packet [] ps
    → drop start mem ≡ print_properties ps ++ rest
    → start ≤ length mem
    → length mem < 2 ^ 32
    → decode_properties packet mem start (length (print_properties ps)) is_will c
      ≡ apply_all is_will c ps
unfolding decode_properties
decode_properties-print packet mem start is_will c ps rest h d hl l =
    let size = length (print_properties ps) in
    let fits : start + size ≤ length mem =
      omega (arith, length-drop start mem, ap length d, length-append (print_properties ps) rest) in
    let small : (start + size) % 2 ^ 32 ≡ start + size = omega arith in
    rw (small, le→ltb (length mem) (start + size) fits)
      (properties_loop-print (suc (length mem)) packet is_will mem size start (start + size) [] c ps
        rest h d refl (omega arith) (omega arith) (omega arith))
