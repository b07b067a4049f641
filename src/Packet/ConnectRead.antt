-- ===== src/Packet/ConnectRead.antt =====
-- decode_connect_packet_body (include/lmqtt_packet.h) on the encoding of a CONNECT packet.
use lmqtt_cpp.Common.{
  ℕ, ◌+◌, ◌-◌, ◌≤◌, ◌<◌, ◌≡◌, refl, sym, ap, ◌∙◌, Bool, true, false, Option, none, some, List, [],
  ◌∷◌, ◌++◌, le→ltb, length, drop, length-append, length-drop, Result, ok, err, fault, no_fuel,
  arith,
}
use mathlib.Core.List.{append-nil}
use lmqtt_cpp.Types.Property
use lmqtt_cpp.Memory.{load, load_u16, read_bytes, drop_past, drop_inside}
use lmqtt_cpp.VarInt.{decode_variable_int}
use lmqtt_cpp.VarInt.Spec.{var_bytes, length-var_bytes}
use lmqtt_cpp.VarInt.Decode.{decode_variable_int-var_bytes}
use lmqtt_cpp.Types.Packet.{PacketType, connect}
use lmqtt_cpp.Types.Property.{PropertyType, same_data}
use lmqtt_cpp.Types.Payload
use lmqtt_cpp.Types.Payload.{PayloadType, unknown_payload, get_payload_data_type}
use lmqtt_cpp.Property.{PropertyValue, PropertyData}
use lmqtt_cpp.Property.Print.{print_block, print_properties, IsText, property}
use lmqtt_cpp.Property.RoundTrip.{get_string_block}
use lmqtt_cpp.Payload.{get_payload, get_payload_value, check_payload_type}
use lmqtt_cpp.Config.{ClientConfig, configure, configure_propriety}
use lmqtt_cpp.Config.Payload.{configure_payload, configure_part}
use lmqtt_cpp.Packet.{LmqttPacket}
use lmqtt_cpp.Packet.Properties.{and_then, and_then-eq-ok, apply_property}
use lmqtt_cpp.Packet.Payload.{
  payload_part, payload_step, payload_loop, decode_payload, loop_end, loop_next,
}
use lmqtt_cpp.Packet.Connect.{
  check_protocol, read_will_flags, read_user_flags, read_connect_flags, decode_rest,
  decode_after_flags, with_cfg, decode_connect_packet_body,
}
use lmqtt_cpp.Packet.PropertyList.{apply_all, decode_properties-print}
use lmqtt_cpp.Packet.ConnectPrint.{
  ConnectMessage, flags_byte, print_user_name, print_payload, print_rest, print_connect, IsUserName,
  IsMessage, bit, user_bit, flagged, with_user_name, identified, expected_flags,
}

-- The client identifier, and the user name if its flag is set.
client_id_step :
    (packet : PacketType) (mem : List ℕ) (buff : ℕ) (c : ClientConfig) (s rest : List ℕ)
    → drop buff mem ≡ print_block s ++ rest
    → IsText s
    → payload_step Payload.client_id packet mem buff c
      ≡ (record c { client_id = s }, ok (buff + (2 + length s)))
unfolding payload_step payload_part get_payload get_payload_value get_payload_data_type
    configure_payload configure_part check_payload_type same_data
client_id_step packet mem buff c s rest d t = rw (
    get_string_block mem buff (length mem - buff) s rest d t
      (omega (arith, length-drop buff mem, ap length d, length-append s rest)))

user_name_step :
    (packet : PacketType) (mem : List ℕ) (buff : ℕ) (c : ClientConfig) (s rest : List ℕ)
    → drop buff mem ≡ print_block s ++ rest
    → IsText s
    → c.user_name_flag ≡ 1
    → payload_step Payload.user_name packet mem buff c
      ≡ (record c { user_name = s }, ok (buff + (2 + length s)))
unfolding payload_step payload_part get_payload get_payload_value get_payload_data_type
    configure_payload configure_part check_payload_type same_data
user_name_step packet mem buff c s rest d t f =
    rw
      (get_string_block mem buff (length mem - buff) s rest d t
        (omega (arith, length-drop buff mem, ap length d, length-append s rest)))
      (ground arith)

loop_unknown :
    (rest : List PayloadType) (packet : PacketType) (mem : List ℕ) (buff : ℕ) (c : ClientConfig)
    → buff < length mem
    → payload_loop (unknown_payload ∷ rest) packet mem buff c ≡ payload_loop rest packet mem buff c
unfolding payload_step
loop_unknown rest packet mem buff c h = loop_next unknown_payload rest packet mem buff c h

payload_print :
    (u : Option (List ℕ)) (packet : PacketType) (mem : List ℕ) (buff : ℕ) (c : ClientConfig)
    (s : List ℕ)
    → drop buff mem ≡ print_block s ++ print_user_name u
    → IsText s
    → IsUserName u
    → c.user_name_flag ≡ user_bit u
    → decode_payload (expected_flags u) packet mem buff c
      ≡ (with_user_name u (record c { client_id = s }), ok tt)
unfolding decode_payload
payload_print none packet mem buff c s d t tu f =
    let size : length mem ≡ buff + (2 + length s) =
      omega (
        arith,
        drop_inside mem buff _ _ d,
        length-drop buff mem,
        ap length d,
        length-append s [],
      ) in
    rw (le→ltb (length mem) buff (omega arith)) (
      loop_next Payload.client_id _ packet mem buff c (omega arith)
      ∙ rw (client_id_step packet mem buff c s [] d t)
          (loop_end _ packet mem _ (record c { client_id = s }) (sym size)))
payload_print (some u) packet mem buff c s d t tu f =
    let size : length mem ≡ buff + (2 + length s) + (2 + length u) = omega (
      arith,
      drop_inside mem buff _ _ d,
      length-drop buff mem,
      ap length d,
      length-append s (print_block u),
    ) in
    let buff' = buff + (2 + length s) in
    let c' = record c { client_id = s } in
    let reach : buff + length (print_block s) ≡ buff' = omega arith in
    let d' : drop buff' mem ≡ print_block u ++ [] =
      ap (λ q. drop q mem) (sym reach)
      ∙ drop_past mem buff (print_block s) (print_block u) d
      ∙ sym (append-nil (print_block u)) in
    rw (le→ltb (length mem) buff (omega arith)) (
      loop_next Payload.client_id _ packet mem buff c (omega arith)
      ∙ rw (client_id_step packet mem buff c s (print_block u) d t) (
          loop_unknown _ packet mem buff' c' (omega arith)
          ∙ loop_unknown _ packet mem buff' c' (omega arith)
          ∙ loop_unknown _ packet mem buff' c' (omega arith)
          ∙ loop_next Payload.user_name _ packet mem buff' c' (omega arith)
          ∙ rw (user_name_step packet mem buff' c' u [] d' tu f)
              (loop_end _ packet mem _ (record c' { user_name = u }) (sym size))))

-- Properties leave the user name's flag alone.
configure-user_name_flag :
    (t : PropertyType) (c : ClientConfig) (d : PropertyData)
    → (configure t c d).0.user_name_flag ≡ c.user_name_flag
unfolding configure
configure-user_name_flag Property.session_expiry_interval c d = ground arith
configure-user_name_flag t c d = ground arith

apply_all-user_name_flag :
    (c c' : ClientConfig) (ps : List (PropertyType × PropertyValue))
    → apply_all false c ps ≡ (c', ok tt)
    → c'.user_name_flag ≡ c.user_name_flag
unfolding apply_all apply_property configure_propriety
apply_all-user_name_flag c c' [] e = cc
apply_all-user_name_flag c c' ((t, v) ∷ ps) e =
    let (c1, u, e1, e2) = and_then-eq-ok (configure t c (property t v)) _ c' tt e in
    apply_all-user_name_flag c1 c' ps e2
    ∙ sym (ap (λ m. m.0.user_name_flag) e1)
    ∙ configure-user_name_flag t c (property t v)

-- A chain whose second part agrees with another wherever the first part succeeds.
and_then_where :
    {A B : Type 0} (m : ClientConfig × Result A) (f g : ClientConfig → A → ClientConfig × Result B)
    → ((c : ClientConfig) (a : A) → m ≡ (c, ok a) → f c a ≡ g c a)
    → and_then m f ≡ and_then m g
and_then_where (c, ok a) f g h = h c a refl
and_then_where (c, err e) f g h = refl
and_then_where (c, fault) f g h = refl
and_then_where (c, no_fuel) f g h = refl

rest_print :
    (m : ConnectMessage) (mem : List ℕ) (c : ClientConfig)
    → IsMessage m
    → drop 10 mem ≡ print_rest m
    → length mem < 16384
    → c.user_name_flag ≡ user_bit m.user_name
    → decode_rest (expected_flags m.user_name) connect mem c
      ≡ and_then (apply_all false c m.properties) λ c' u. (identified m c', ok tt)
unfolding decode_rest
rest_print m mem c v d l f =
    let text = print_properties m.properties in
    let n = length text in
    let k = length (var_bytes n) in
    let some_byte = length-var_bytes n in
    let len1 = length-append (var_bytes n) (text ++ print_payload m) in
    let len2 = length-append text (print_payload m) in
    let whole : length mem - 10 ≡ k + (n + length (print_payload m)) =
      sym (length-drop 10 mem) ∙ ap length d ∙ len1 ∙ ap (λ t. k + t) len2 in
    let payload_size : 2 ≤ length (print_payload m) = omega arith in
    let start = 10 + (k - 1) + 1 in
    let start_lem : 10 + k ≡ start = omega arith in
    let number : decode_variable_int mem 10 (length mem - 10) ≡ ok (n, k - 1) =
      decode_variable_int-var_bytes mem 10 (length mem - 10) n (text ++ print_payload m) d
        (omega arith) (omega arith)
      ∙ ap (λ t. ok (t, k - 1)) (omega arith) in
    let d1 : drop start mem ≡ text ++ print_payload m =
      ap (λ q. drop q mem) (sym start_lem) ∙ drop_past mem 10 (var_bytes n) _ d in
    let d2 = drop_past mem start text (print_payload m) d1 in
    rw
      (
        le→ltb (length mem) 13 (omega arith),
        number,
        decode_properties-print connect mem start false c m.properties (print_payload m) v.carried
            d1 (omega arith) (omega arith),
      )
      (and_then_where (apply_all false c m.properties) _ _ λ c' u e.
        payload_print m.user_name connect mem (start + n) c' m.client_id d2 v.named v.users
          (apply_all-user_name_flag c c' m.properties e ∙ f))

protocol_print : (m : ConnectMessage) → check_protocol (print_connect m) ≡ ok tt
unfolding check_protocol print_connect load read_bytes
protocol_print m = ground arith

-- Byte 7 in its four forms.
flags_print :
    (clean : Bool) (u : Option (List ℕ)) (c : ClientConfig)
    → read_connect_flags (flags_byte clean u) (c, expected_flags none) ≡ (
      (
        record c {
          clean_start = bit clean;
          will_flag = 0;
          will_qos = 0;
          will_retain = 0;
          password_flag = 0;
          user_name_flag = user_bit u;
        },
        expected_flags u,
      ),
      ok tt,
    )
unfolding read_connect_flags read_will_flags read_user_flags
flags_print false none c = refl
flags_print true none c = refl
flags_print false (some s) c = refl
flags_print true (some s) c = refl

flag_load :
    (m : ConnectMessage) → load (print_connect m) 7 ≡ ok (flags_byte m.clean_start m.user_name)
unfolding print_connect load
flag_load m = refl

keep_alive_load : (m : ConnectMessage) → load_u16 (print_connect m) 8 ≡ ok m.keep_alive
unfolding print_connect load_u16 load
keep_alive_load m = ground arith

tail_print : (m : ConnectMessage) → drop 10 (print_connect m) ≡ print_rest m
unfolding print_connect
tail_print m = refl

abbrev pub received : LmqttPacket → ConnectMessage → LmqttPacket
received p m = record p {
  body = print_connect m;
  packet_type = connect;
  payload_flags = expected_flags none;
}

-- A CONNECT packet without a will and a password, shorter than 16384 bytes, whose parts are in
-- range (a keep alive time of 16 bits, properties that CONNECT may carry, the unique ones once,
-- and strings of accepted text), encoded by the standard and received with the payload flags in
-- their first state, is decoded by decode_connect_packet_body as it was meant: the flags and
-- the keep alive time are set, the properties are applied in turn up to the first that is
-- refused, and if none is, the client identifier and the user name are set.
pub decode_connect_packet_body-print :
    (p : LmqttPacket) (m : ConnectMessage)
    → IsMessage m
    → decode_connect_packet_body (received p m)
      ≡ with_cfg
          (record (received p m) { payload_flags = expected_flags m.user_name })
          (and_then
            (apply_all false (flagged m p.client_cfg) m.properties)
            λ c' u. (identified m c', ok tt))
unfolding decode_connect_packet_body decode_after_flags
decode_connect_packet_body-print p m v = rw (
  protocol_print m,
  flag_load m,
  flags_print m.clean_start m.user_name p.client_cfg,
  keep_alive_load m,
  rest_print m (print_connect m) (flagged m p.client_cfg) v (tail_print m) v.short refl,
)
