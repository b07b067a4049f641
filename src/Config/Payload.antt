-- ===== src/Config/Payload.antt =====
-- configure_payload of include/lmqtt_client_config.h.
use lmqtt_cpp.Common.{ℕ, not, none, some, List, ◌==◌, if◌then◌else◌, Result, ok, err, fault}
use lmqtt_cpp.Common.{protocol_error}
use lmqtt_cpp.Types.Payload
use lmqtt_cpp.Types.Payload.{PayloadType}
use lmqtt_cpp.Payload.{
  PayloadValue, PayloadData, payload_string, payload_binary, check_payload_type,
}
use lmqtt_cpp.Config.{WillConfig, ClientConfig, Configured, given}

abbrev as_payload_string : PayloadValue → Result (List ℕ)
as_payload_string (payload_string s) = ok s
as_payload_string (payload_binary s) = fault

abbrev as_payload_binary : PayloadValue → Result (List ℕ)
as_payload_binary (payload_binary s) = ok s
as_payload_binary (payload_string s) = fault

abbrev pub payload_of :
    (PayloadValue → Result (List ℕ)) → PayloadData → PayloadType → Result (List ℕ)
payload_of cast d ptype = if check_payload_type d ptype then cast d.content else err protocol_error

-- `_willCfg->...`, a fault where the pointer is null.
abbrev pub on_will : ClientConfig → (WillConfig → WillConfig) → Configured
on_will c f = elim c.will_cfg [
  | none ↦ (c, fault)
  | some w ↦ (record c { will_cfg = some (f w) }, ok tt)
]

-- The `switch` of configure_payload. The PASSWORD case looks at `_willFlag`.
unfoldable pub configure_part : PayloadType → ClientConfig → PayloadData → Configured
configure_part Payload.client_id c d =
    given c (payload_of as_payload_string d Payload.client_id)
      λ s. (record c { client_id = s }, ok tt)
configure_part Payload.will_topic c d =
    if not (c.will_flag == 1)
    then (c, err protocol_error)
    else given c (payload_of as_payload_string d Payload.will_topic)
        λ s. on_will c (λ w. record w { topic = s })
configure_part Payload.will_payload c d =
    if not (c.will_flag == 1)
    then (c, err protocol_error)
    else given c (payload_of as_payload_binary d Payload.will_payload)
        λ s. on_will c (λ w. record w { will_payload = s })
configure_part Payload.user_name c d =
    if not (c.user_name_flag == 1)
    then (c, err protocol_error)
    else given c (payload_of as_payload_string d Payload.user_name)
        λ s. (record c { user_name = s }, ok tt)
configure_part Payload.password c d =
    if not (c.will_flag == 1)
    then (c, err protocol_error)
    else given c (payload_of as_payload_binary d Payload.password)
        λ s. (record c { password = s }, ok tt)
configure_part other c d = (c, err protocol_error)

unfoldable pub configure_payload : ClientConfig → PayloadData → Configured
configure_payload c d = configure_part d.payload_type c d
