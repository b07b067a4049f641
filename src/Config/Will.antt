-- ===== src/Config/Will.antt =====
-- configure_will_propriety of include/lmqtt_client_config.h.
use lmqtt_cpp.Common.{not, none, some, [], ◌∷◌, ◌++◌, ltb, Result, ok, err, require}
use lmqtt_cpp.Common.{malformed_packet, protocol_error}
use lmqtt_cpp.Types.Property.{
  PropertyType, payload_format_indicator, message_expiry_interval, content_type, response_topic,
  correlation_data, will_delay_interval, user_property,
}
use lmqtt_cpp.Property.{PropertyData}
use lmqtt_cpp.Config.{
  WillConfig, ClientConfig, Configured, given, data_of, as_u8, as_u32, as_string, as_binary,
  as_pair,
}

-- The `switch` of configure_will_propriety, on the object behind `_willCfg`.
unfoldable pub configure_will :
    PropertyType → WillConfig → PropertyData → WillConfig × Result (Unit {0})
configure_will will_delay_interval w d =
    given w (data_of as_u32 d will_delay_interval)
      λ n. (record w { will_delay_interval = n }, ok tt)
configure_will payload_format_indicator w d =
    given w (data_of as_u8 d payload_format_indicator)
      λ n. (record w { payload_format_indicator = n }, require (not (ltb 1 n)) protocol_error)
configure_will message_expiry_interval w d =
    given w (data_of as_u32 d message_expiry_interval)
      λ n. (record w { message_expiry_interval = n }, ok tt)
configure_will content_type w d =
    given w (data_of as_string d content_type) λ s. (record w { content_type = s }, ok tt)
configure_will response_topic w d =
    given w (data_of as_string d response_topic) λ s. (record w { response_topic = s }, ok tt)
configure_will correlation_data w d =
    given w (data_of as_binary d correlation_data) λ s. (record w { correlation_data = s }, ok tt)
configure_will user_property w d =
    given w (data_of as_pair d user_property)
      λ p. (record w { user_proprieties = w.user_proprieties ++ p ∷ [] }, ok tt)
configure_will other w d = (w, err protocol_error)

-- `_willCfg` is left pointing at the changed object.
abbrev put_will : ClientConfig → WillConfig × Result (Unit {0}) → Configured
put_will c (w, r) = (record c { will_cfg = some w }, r)

unfoldable pub configure_will_propriety : ClientConfig → PropertyData → Configured
configure_will_propriety c d = elim c.will_cfg [
  | none ↦ (c, err malformed_packet)
  | some w ↦ put_will c (configure_will d.property_type w d)
]
