-- ===== src/Packet/ConnectPrint.antt =====
-- The standard's encoding of a CONNECT packet without a will and a password, which
-- decode_connect_packet_body (include/lmqtt_packet.h) is held against.
use lmqtt_cpp.Common.{
  ℕ, ◌/◌, ◌%◌, ◌<◌, Bool, true, false, Option, none, some, List, [], ◌∷◌, ◌++◌, length,
}
use lmqtt_cpp.VarInt.Spec.{var_bytes}
use lmqtt_cpp.Types.Property.{PropertyType}
use lmqtt_cpp.Types.Payload
use lmqtt_cpp.Types.Payload.{PayloadType, unknown_payload}
use lmqtt_cpp.Types.Packet.{connect}
use lmqtt_cpp.Property.{PropertyValue}
use lmqtt_cpp.Property.Print.{print_block, print_properties, IsText}
use lmqtt_cpp.Config.{ClientConfig}
use lmqtt_cpp.Packet.PropertyList.{IsCarried}

pub record ConnectMessage : Type 0 where
  pub clean_start : Bool
  pub keep_alive : ℕ
  pub properties : List (PropertyType × PropertyValue)
  pub client_id : List ℕ
  pub user_name : Option (List ℕ)

-- Bit 1 is the clean start, bit 7 the user name.
abbrev pub flags_byte : Bool → Option (List ℕ) → ℕ
flags_byte false none = 0
flags_byte true none = 2
flags_byte false (some s) = 128
flags_byte true (some s) = 130

abbrev pub print_user_name : Option (List ℕ) → List ℕ
print_user_name none = []
print_user_name (some s) = print_block s

-- The client identifier and the user name.
abbrev pub print_payload : ConnectMessage → List ℕ
print_payload m = print_block m.client_id ++ print_user_name m.user_name

-- From byte 10 on.
abbrev pub print_rest : ConnectMessage → List ℕ
print_rest m =
    var_bytes (length (print_properties m.properties))
    ++ (print_properties m.properties ++ print_payload m)

unfoldable pub print_connect : ConnectMessage → List ℕ
print_connect m =
    0
    ∷ 4
    ∷ b'M'
    ∷ b'Q'
    ∷ b'T'
    ∷ b'T'
    ∷ 5
    ∷ flags_byte m.clean_start m.user_name
    ∷ m.keep_alive / 256
    ∷ m.keep_alive % 256
    ∷ print_rest m

abbrev pub IsUserName : Option (List ℕ) → Type 0
IsUserName none = Unit {0}
IsUserName (some s) = IsText s

-- A message whose parts are in range, as a packet that is not longer than the limit holds.
pub record IsMessage (m : ConnectMessage) : Type 0 where
  pub times : m.keep_alive < 65536
  pub carried : IsCarried connect [] m.properties
  pub short : length (print_connect m) < 16384
  pub named : IsText m.client_id
  pub users : IsUserName m.user_name

abbrev pub bit : Bool → ℕ
bit false = 0
bit true = 1

abbrev pub user_bit : Option (List ℕ) → ℕ
user_bit none = 0
user_bit (some s) = 1

-- The configuration when bytes 7 to 9 have been read.
abbrev pub flagged : ConnectMessage → ClientConfig → ClientConfig
flagged m c = record c {
  clean_start = bit m.clean_start;
  will_flag = 0;
  will_qos = 0;
  will_retain = 0;
  password_flag = 0;
  user_name_flag = user_bit m.user_name;
  keep_alive = m.keep_alive;
}

abbrev pub with_user_name : Option (List ℕ) → ClientConfig → ClientConfig
with_user_name none c = c
with_user_name (some s) c = record c { user_name = s }

-- And when the payload has been read.
abbrev pub identified : ConnectMessage → ClientConfig → ClientConfig
identified m c = with_user_name m.user_name (record c { client_id = m.client_id })

abbrev pub expected_flags : Option (List ℕ) → List PayloadType
expected_flags none =
    Payload.client_id ∷ unknown_payload ∷ unknown_payload ∷ unknown_payload ∷ unknown_payload
    ∷ unknown_payload ∷ []
expected_flags (some s) =
    Payload.client_id ∷ unknown_payload ∷ unknown_payload ∷ unknown_payload ∷ Payload.user_name
    ∷ unknown_payload ∷ []
