-- ===== src/Packet/ConnackPrint.antt =====
-- create_connack_packet (include/lmqtt_packet.h): the packet that it writes.
use lmqtt_cpp.Common.{
  ℕ, zero, suc, ◌+◌, ◌-◌, ◌/◌, ◌%◌, ◌^◌, ◌≤◌, ◌<◌, ◌≡◌, refl, sym, ap, ◌∙◌, true, List, [], ◌∷◌,
  ◌++◌, ◌==◌, lt→ltb, le→ltb, ne→==, length, take, set, replicate, All, length-append, length-take,
  ok, arith,
}
use lmqtt_cpp.VarInt.{encode_loop, encode_variable_int, get_variable_int_size}
use lmqtt_cpp.Types.Packet.{connack, packet_code, is_server_packet, get_packet_owner}
use lmqtt_cpp.Types.Property
use lmqtt_cpp.Types.Property.{
  PropertyType, connack_properties, is_property_fixed, get_property_data_type, data_code,
}
use lmqtt_cpp.Property.Write.{Written, and_write, or_fail}
use lmqtt_cpp.Config.{ClientConfig}
use lmqtt_cpp.Config.Fill.{variable_size, get_property_size}
use lmqtt_cpp.Config.FillPrint.{
  IsPlain, IsSupported, connack_bytes, get_property_size-connack_bytes, store_all-append,
}
use lmqtt_cpp.Packet.{LmqttPacket}
use lmqtt_cpp.Packet.Connack.{
  resize, properties_size, store_var, fill_loop, fill_body, fill_connack, create_connack_packet,
}
use lmqtt_cpp.Packet.FillLoop.{all_bytes, supported, fill_loop-print}

-- A value below 127 is one byte.
encode_small :
    (mem : List ℕ) (buffer size v : ℕ)
    → 0 < v
    → v < 127
    → buffer < length mem
    → 4 ≤ size
    → encode_variable_int mem buffer size v ≡ ok (set mem buffer v, 1)
unfolding encode_variable_int encode_loop
encode_small mem buffer size v h0 h l hs =
    let done : v / 127 ≡ 0 = omega arith in
    let digit : v % 127 ≡ v = omega arith in
    let here : buffer + 0 ≡ buffer = omega arith in
    rw (
      le→ltb size 4 hs,
      ne→== v 0 (omega arith),
      done,
      digit,
      here,
      lt→ltb buffer (length mem) l,
      encode_loop,
      done,
    )

store_var-small :
    (mem : List ℕ) (buffer size v : ℕ)
    → 0 < v
    → v < 127
    → buffer < length mem
    → 4 ≤ size
    → store_var mem buffer size v 1 ≡ (set mem buffer v, ok tt)
store_var-small mem buffer size v h0 h l hs =
    rw (store_var, encode_small mem buffer size v h0 h l hs) refl

==_self : (n : ℕ) → (n == n) ≡ true
==_self n = ground arith

unsupported : List PropertyType
unsupported =
    Property.response_information ∷ Property.server_reference ∷ Property.authentication_method
    ∷ Property.authentication_data ∷ []

fill_body-print :
    (c : ClientConfig) (code b0 b1 x2 x3 x4 : ℕ) (old : List ℕ)
    → IsPlain c
    → length old ≡ length (all_bytes c supported)
    → 0 < length old
    → length old < 127
    → fill_body c code 2 (length old) 1 (b0 ∷ b1 ∷ x2 ∷ x3 ∷ x4 ∷ old)
      ≡ (b0 ∷ b1 ∷ 0 ∷ code ∷ length old ∷ all_bytes c supported, ok tt)
unfolding fill_body unsupported
fill_body-print c code b0 b1 x2 x3 x4 old v e h0 h =
    let n = length old in
    let mem1 = b0 ∷ b1 ∷ 0 ∷ code ∷ x4 ∷ old in
    let mem2 = b0 ∷ b1 ∷ 0 ∷ code ∷ n ∷ old in
    let tail : List ℕ → Written =
      λ m. or_fail (length m - 5 == n) m (fill_loop connack_properties c m 5 (length m - 5)) in
    let left : length mem2 - 5 ≡ n = omega arith in
    let last : tail mem2 ≡ (b0 ∷ b1 ∷ 0 ∷ code ∷ n ∷ all_bytes c supported, ok tt) =
      rw (left, ==_self n)
        (fill_loop-print supported unsupported c (b0 ∷ b1 ∷ 0 ∷ code ∷ n ∷ []) old v (ground arith)
          e (omega arith)) in
    rw (store_all-append (b0 ∷ b1 ∷ []) (x2 ∷ x3 ∷ x4 ∷ old) (0 ∷ code ∷ []) (omega arith)) (
      ap (λ w. and_write w tail)
        (store_var-small mem1 4 (length mem1 - 1) n h0 h (omega arith) (omega arith))
      ∙ last)

get_variable_int_size_one : (n : ℕ) → n < 128 → get_variable_int_size n ≡ 1
unfolding get_variable_int_size
get_variable_int_size_one n h = ground arith

five :
    (xs : List ℕ) (n : ℕ)
    → length xs ≡ n + 5
    → (x0 : ℕ) × (x1 : ℕ) × (x2 : ℕ) × (x3 : ℕ) × (x4 : ℕ) × (old : List ℕ) × (xs
        ≡ x0 ∷ x1 ∷ x2 ∷ x3 ∷ x4 ∷ old)
      × (length old ≡ n)
five (x0 ∷ x1 ∷ x2 ∷ x3 ∷ x4 ∷ old) n e = (x0, x1, x2, x3, x4, old, refl, omega arith)
five xs n e = absurd (omega arith)

length-replicate : (n : ℕ) → length {A = ℕ} (replicate n 0) ≡ n
length-replicate zero = refl
length-replicate (suc n) = ap suc (length-replicate n)

pub length-resize : (n : ℕ) (body : List ℕ) → length (resize n body) ≡ n
length-resize n body = omega (
  arith,
  length-append (take n body) (replicate (n - length body) 0),
  length-take n body,
  length-replicate (n - length body),
)

properties_size-bytes :
    (c : ClientConfig) (total : ℕ) (ts rest : List PropertyType)
    → IsPlain c
    → All IsSupported ts
    → total + length (all_bytes c ts) < 2 ^ 32
    → properties_size c total (ts ++ rest)
      ≡ properties_size c (total + length (all_bytes c ts)) rest
unfolding properties_size all_bytes
properties_size-bytes c total [] rest v s l =
    let e : total ≡ total + 0 = omega arith in ap (λ n. properties_size c n rest) e
properties_size-bytes c total (t ∷ ts) rest v (s, ss) l =
    let len = length-append (connack_bytes c t) (all_bytes c ts) in
    let small : (total + length (connack_bytes c t)) % 2 ^ 32 ≡ total + length (connack_bytes c t) =
      omega (arith, len) in
    let sum : total + length (connack_bytes c t) + length (all_bytes c ts)
        ≡ total + length (connack_bytes c t ++ all_bytes c ts) =
      omega (arith, len) in
    rw (properties_size, get_property_size-connack_bytes c t v s, small)
      (properties_size-bytes c (total + length (connack_bytes c t)) ts rest v ss
          (omega (arith, len))
        ∙ ap (λ n. properties_size c n rest) sum)

properties_size-unsupported :
    (c : ClientConfig) (n : ℕ) → n < 2 ^ 32 → properties_size c n unsupported ≡ n
unfolding properties_size get_property_size variable_size is_property_fixed get_property_data_type
    data_code unsupported
properties_size-unsupported c n h = omega arith

length-all_bytes : (c : ClientConfig) → length (all_bytes c supported) ≡ 33 + length c.reason_string
unfolding all_bytes
length-all_bytes c = omega (
  arith,
  length-append c.reason_string (
      0x26
      ∷ 0x28
      ∷ c.wildcard_subscription
      ∷ 0x29
      ∷ 1
      ∷ 0x2a
      ∷ 1
      ∷ 0x13
      ∷ c.keep_alive / 256
      ∷ c.keep_alive % 256
      ∷ []),
)

-- The first byte, the remaining length and what follows, for `n` bytes of properties.
abbrev pub connack_packet : ClientConfig → ℕ → List ℕ
connack_packet c code =
    let n = length (all_bytes c supported) in 0x20 ∷ (n + 3) ∷ 0 ∷ code ∷ n ∷ all_bytes c supported

fill_connack-print :
    (c : ClientConfig) (code : ℕ) (body : List ℕ)
    → IsPlain c
    → length c.reason_string ≤ 90
    → fill_connack c connack code body ≡ (connack_packet c code, ok tt)
unfolding fill_connack packet_code unsupported
fill_connack-print c code body v h =
    let n = length (all_bytes c supported) in
    let len = length-all_bytes c in
    let none_before : 0 + n ≡ n = omega arith in
    let total : properties_size c 0 connack_properties ≡ n =
      properties_size-bytes c 0 supported unsupported v (ground arith) (omega arith)
      ∙ ap (λ k. properties_size c k unsupported) none_before
      ∙ properties_size-unsupported c n (omega arith) in
    let one : get_variable_int_size n ≡ 1 = get_variable_int_size_one n (omega arith) in
    let size : (2 + n + 1) % 2 ^ 32 ≡ n + 3 = omega arith in
    let one' : get_variable_int_size (n + 3) ≡ 1 =
      get_variable_int_size_one (n + 3) (omega arith) in
    let full : (1 + (n + 3) + 1) % 2 ^ 32 ≡ n + 5 = omega arith in
    let (x0, x1, x2, x3, x4, old, e, lo) =
      five (resize (n + 5) body) n (length-resize (n + 5) body) in
    let mem1 = 0x20 ∷ x1 ∷ x2 ∷ x3 ∷ x4 ∷ old in
    let mem2 = 0x20 ∷ (n + 3) ∷ x2 ∷ x3 ∷ x4 ∷ old in
    let tail : List ℕ → Written = λ m. fill_body c code 2 n 1 m in
    rw
      (
        total,
        one,
        size,
        one',
        full,
        e,
        store_all-append [] (x0 ∷ x1 ∷ x2 ∷ x3 ∷ x4 ∷ old) (0x20 ∷ []) (omega arith),
      )
      (ap (λ w. and_write w tail)
          (store_var-small mem1 1 (length mem1 - 1) (n + 3) (omega arith) (omega arith)
            (omega arith) (omega arith))
        ∙ ap (λ k. fill_body c code 2 k 1 mem2) (sym lo)
        ∙ fill_body-print c code 0x20 (n + 3) x2 x3 x4 old v lo (omega arith) (omega arith)
        ∙ ap (λ k. (0x20 ∷ (n + 3) ∷ 0 ∷ code ∷ k ∷ all_bytes c supported, ok tt)) lo)

-- For a client with a client identifier, no assigned one and no user properties, whose reason
-- string is accepted text of at most 90 bytes, and whatever the body held,
-- create_connack_packet makes a CONNACK packet: the first byte, the remaining length, a flags
-- byte of zero, the reason code, the length of the properties, and for each supported property
-- its identifier and its value in the standard's encoding; of the user properties only the
-- identifier is written.
pub create_connack_packet-print :
    (p : LmqttPacket) (code : ℕ)
    → IsPlain p.client_cfg
    → length p.client_cfg.reason_string ≤ 90
    → create_connack_packet p connack code
      ≡ (record p { body = connack_packet p.client_cfg code }, ok tt)
unfolding create_connack_packet is_server_packet get_packet_owner
create_connack_packet-print p code v h = rw (fill_connack-print p.client_cfg code p.body v h) refl
