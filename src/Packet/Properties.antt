-- ===== src/Packet/Properties.antt =====
-- decode_properties of include/lmqtt_packet.h.
use lmqtt_cpp.Common.{
  ◌>>◌, ◌>>=◌, ◌||◌, ℕ, zero, suc, ◌+◌, ◌-◌, ◌%◌, ◌^◌, ◌≡◌, refl, Bool, true, false, not, ◌&&◌,
  List, [], ◌∷◌, ltb, ◌==◌, if◌then◌else◌, length, Result, ok, err, fault, no_fuel, require,
}
use lmqtt_cpp.Common.{malformed_packet, protocol_error}
use lmqtt_cpp.Memory.{load}
use lmqtt_cpp.Types.Packet.{PacketType}
use lmqtt_cpp.Types.Property.{
  PropertyType, property_of_code, same_property, is_property_unique, validate_packet_property_type,
}
use lmqtt_cpp.Property.{PropertyData, get_property_data}
use lmqtt_cpp.Config.{ClientConfig, Configured, configure_propriety}
use lmqtt_cpp.Config.Will.{configure_will_propriety}

-- A step that may change the client configuration, and what comes after it.
abbrev pub and_then :
    {A B : Type 0}
    → ClientConfig × Result A
    → (ClientConfig → A → ClientConfig × Result B)
    → ClientConfig × Result B
and_then (c, ok a) k = k c a
and_then (c, err e) k = (c, err e)
and_then (c, fault) k = (c, fault)
and_then (c, no_fuel) k = (c, no_fuel)

-- `propertySet`, an unordered_set.
unfoldable pub contains : PropertyType → List PropertyType → Bool
contains t [] = false
contains t (u ∷ us) = same_property u t || contains t us

-- One round of the loop up to the call of get_property_data: the property with its size, and the
-- set. `seen` is `propertySet`, and `buff_end - buff` is taken as a uint32_t.
unfoldable pub read_property :
    PacketType
    → List ℕ
    → ℕ
    → ℕ
    → ℕ
    → List PropertyType
    → Result (PropertyData × ℕ × List PropertyType)
read_property packet mem size buff buff_end seen = do
  code ← load mem buff
  let ptype = property_of_code code
  require (validate_packet_property_type ptype packet) malformed_packet
  require (not (is_property_unique ptype && contains ptype seen)) protocol_error
  let remaining_size = (buff_end + 2 ^ 32 - (buff + 1)) % 2 ^ 32
  require (not (remaining_size == 0 || ltb size remaining_size)) malformed_packet
  (d, property_size) ← get_property_data ptype mem (buff + 1) remaining_size
  ok (d, property_size, if is_property_unique ptype then ptype ∷ seen else seen)

unfoldable pub apply_property : Bool → ClientConfig → PropertyData → Configured
apply_property is_will_properties c d =
    if is_will_properties then configure_will_propriety c d else configure_propriety c d

-- `while (buff != buffEnd)`.
unfoldable pub properties_loop :
    ℕ → PacketType → Bool → List ℕ → ℕ → ℕ → ℕ → List PropertyType → ClientConfig → Configured
properties_loop zero packet is_will mem size buff buff_end seen c = (c, no_fuel)
properties_loop (suc fuel) packet is_will mem size buff buff_end seen c = elim (buff == buff_end) [
  | true ↦ (c, ok tt)
  | false ↦
      and_then (c, read_property packet mem size buff buff_end seen)
        λ c' r.
          and_then (apply_property is_will c' r.0)
            λ c'' u. properties_loop fuel packet is_will mem size (buff + 1 + r.1) buff_end r.2 c''
]

-- A round takes a byte of the body at least, so one round for each byte, and the last test, are
-- enough.
unfoldable pub decode_properties : PacketType → List ℕ → ℕ → ℕ → Bool → ClientConfig → Configured
decode_properties packet mem start size is_will c =
    if ltb (length mem) ((start + size) % 2 ^ 32)
    then (c, err malformed_packet)
    else properties_loop (suc (length mem)) packet is_will mem size start (start + size) [] c

pub and_then-eq-ok :
    {A B : Type 0} (m : ClientConfig × Result A) (k : ClientConfig → A → ClientConfig × Result B)
    (c' : ClientConfig) (b : B)
    → and_then m k ≡ (c', ok b)
    → (c : ClientConfig) × (a : A) × (m ≡ (c, ok a)) × (k c a ≡ (c', ok b))
and_then-eq-ok (c, ok a) k c' b e = (c, a, refl, e)
and_then-eq-ok (c, err x) k c' b e = cc
and_then-eq-ok (c, fault) k c' b e = cc
and_then-eq-ok (c, no_fuel) k c' b e = cc
