-- ===== src/Config/Fill.antt =====
-- get_property_size and fill_property of include/lmqtt_client_config.h.
use lmqtt_cpp.Common.{ℕ, ◌+◌, ◌-◌, ◌%◌, ◌^◌, List, [], ◌∷◌, leb, if◌then◌else◌, length, ok}
use lmqtt_cpp.Types.Property
use lmqtt_cpp.Types.Property.{
  PropertyType, is_property_fixed, get_property_data_type, data_code, property_code,
}
use lmqtt_cpp.Property.Write.{
  Written, and_write, store_all, or_fail, write_u8, write_u16, write_u32, write_string, write_pair,
}
use lmqtt_cpp.Config.{ClientConfig}

-- The sum over `_userProprieties`.
unfoldable pub user_size : ℕ → List (List ℕ × List ℕ) → ℕ
user_size total [] = total
user_size total ((s, t) ∷ ps) =
    user_size (((total + (length s + 2)) % 2 ^ 32 + (length t + 2)) % 2 ^ 32) ps

-- With an empty `_clientId`, the size of its property.
abbrev pub assigned_size : List ℕ → ℕ
assigned_size [] = 3
assigned_size (x ∷ xs) = 0

-- The `switch` for the properties without a fixed size.
unfoldable pub variable_size : PropertyType → ClientConfig → ℕ
variable_size Property.assigned_client_id c = assigned_size c.client_id
variable_size Property.reason_string c = (1 + 2 + length c.reason_string) % 2 ^ 32
variable_size Property.user_property c = user_size 1 c.user_proprieties
variable_size other c = 0

unfoldable pub get_property_size : ClientConfig → PropertyType → ℕ
get_property_size c ptype =
    if is_property_fixed ptype
    then 1 + data_code (get_property_data_type ptype)
    else variable_size ptype c

-- `buffSize - 1`, a uint32_t.
abbrev pub one_less : ℕ → ℕ
one_less size = (size + 2 ^ 32 - 1) % 2 ^ 32

-- The loop over `_userProprieties`.
unfoldable pub write_users : List (List ℕ × List ℕ) → List ℕ → ℕ → ℕ → Written
write_users [] mem buff_pos size = (mem, ok tt)
write_users ((s, t) ∷ ps) mem buff_pos size =
    and_write (write_pair mem buff_pos size (s, t))
      λ mem'. write_users ps mem' (buff_pos + (length s + length t + 4)) size

-- The test of the size, and the identifier.
abbrev pub with_id : List ℕ → ℕ → ℕ → ℕ → PropertyType → (List ℕ → Written) → Written
with_id mem buff size property_size ptype next =
    or_fail (leb property_size size) mem
      (and_write (store_all mem buff (property_code ptype ∷ [])) next)

-- The `switch` of fill_property; a property without a case writes nothing. The fourth number is
-- `propertySize`.
unfoldable pub fill_case : PropertyType → ClientConfig → List ℕ → ℕ → ℕ → ℕ → Written
fill_case Property.session_expiry_interval c mem buff size n =
    with_id mem buff size n Property.session_expiry_interval
      λ m. write_u32 m (buff + 1) (one_less size) c.session_expiry_interval
fill_case Property.receive_maximum c mem buff size n =
    with_id mem buff size n Property.receive_maximum
      λ m. write_u16 m (buff + 1) (one_less size) c.receive_maximum
fill_case Property.maximum_qos c mem buff size n =
    with_id mem buff size n Property.maximum_qos
      λ m. write_u8 m (buff + 1) (one_less size) c.maximum_qos
fill_case Property.retain_available c mem buff size n =
    with_id mem buff size n Property.retain_available
      λ m. write_u8 m (buff + 1) (one_less size) c.retain_available
fill_case Property.maximum_packet_size c mem buff size n =
    with_id mem buff size n Property.maximum_packet_size
      λ m. write_u32 m (buff + 1) (one_less size) c.maximum_packet_size
fill_case Property.assigned_client_id c mem buff size n =
    if c.assigned_client_id
    then with_id mem buff size n Property.assigned_client_id
        (λ m. write_string m (buff + 1) (one_less size) c.client_id)
    else or_fail (leb n size) mem (mem, ok tt)
fill_case Property.topic_alias_maximum c mem buff size n =
    with_id mem buff size n Property.topic_alias_maximum
      λ m. write_u16 m (buff + 1) (one_less size) c.topic_alias_maximum
fill_case Property.reason_string c mem buff size n =
    with_id mem buff size n Property.reason_string
      λ m. write_string m (buff + 1) (one_less size) c.reason_string
fill_case Property.user_property c mem buff size n =
    with_id mem buff size n Property.user_property
      λ m. write_users c.user_proprieties m (buff + 1) (one_less size)
fill_case Property.wildcard_subscription_available c mem buff size n =
    with_id mem buff size n Property.wildcard_subscription_available
      λ m. write_u8 m (buff + 1) (one_less size) c.wildcard_subscription
fill_case Property.subscription_id_available c mem buff size n =
    with_id mem buff size n Property.subscription_id_available
      λ m. write_u8 m (buff + 1) (one_less size) 1
fill_case Property.shared_subscription_available c mem buff size n =
    with_id mem buff size n Property.shared_subscription_available
      λ m. write_u8 m (buff + 1) (one_less size) 1
fill_case Property.server_keep_alive c mem buff size n =
    with_id mem buff size n Property.server_keep_alive
      λ m. write_u16 m (buff + 1) (one_less size) c.keep_alive
fill_case Property.response_information c mem buff size n =
    with_id mem buff size n Property.response_information
      λ m. write_u8 m (buff + 1) (one_less size) c.request_response_information
fill_case Property.server_reference c mem buff size n =
    with_id mem buff size n Property.server_reference
      λ m. write_u8 m (buff + 1) (one_less size) c.request_response_information
fill_case other c mem buff size n = (mem, ok tt)

unfoldable pub fill_property : ClientConfig → List ℕ → ℕ → ℕ → PropertyType → Written
fill_property c mem buff size ptype = fill_case ptype c mem buff size (get_property_size c ptype)
