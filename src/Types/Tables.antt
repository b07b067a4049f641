-- ===== src/Types/Tables.antt =====
-- What the tables of include/lmqtt_types.h have in common with one another.
use lmqtt_cpp.Common.{◌≡◌, refl, true}
use lmqtt_cpp.Types.Packet.{PacketType}
use lmqtt_cpp.Types.Property.{
  PropertyType, other_property, property_code, property_of_code, validate_packet_property_type,
  payload_format_indicator,
}

-- A property that some packet may carry is read from its own code.
pub validated_code :
    (t : PropertyType) (packet : PacketType)
    → validate_packet_property_type t packet ≡ true
    → property_of_code (property_code t) ≡ t
unfolding property_code property_of_code validate_packet_property_type
validated_code (other_property n) packet h = cc
validated_code payload_format_indicator packet h = refl
validated_code t packet h = refl
