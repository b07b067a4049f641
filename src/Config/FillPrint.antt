-- ===== src/Config/FillPrint.antt =====
-- fill_property (include/lmqtt_client_config.h) in the middle of a buffer: the bytes that each CONNACK
-- property takes.
use lmqtt_cpp.Common.{
  ℕ, suc, ◌+◌, ◌-◌, ◌/◌, ◌%◌, ◌^◌, ◌≤◌, ◌<◌, ◌≡◌, refl, sym, ap, ◌∙◌, ◌≢◌, inl, inr, true, false,
  List, [], ◌∷◌, ◌++◌, ltb, leb, lt→ltb, Bool-cases, length, take, drop, set, length-append, ok,
  arith,
}
use mathlib.Core.List.{append_assoc}
use lmqtt_cpp.Types.Property
use lmqtt_cpp.Types.Property.{
  PropertyType, is_property_fixed, get_property_data_type, data_code, property_code,
}
use lmqtt_cpp.Property.Write.{
  Written, and_write, store, store_all, or_fail, check_string, string_bytes, u16_bytes, write_u8,
  write_u16, write_u32, write_string,
}
use lmqtt_cpp.Config.{ClientConfig}
use lmqtt_cpp.Config.Fill.{
  variable_size, assigned_size, user_size, get_property_size, one_less, write_users, with_id,
  fill_case, fill_property,
}

set-append : (pre old : List ℕ) (o b : ℕ) → set (pre ++ o ∷ old) (length pre) b ≡ pre ++ b ∷ old
set-append [] old o b = refl
set-append (x ∷ xs) old o b = ap (λ t. x ∷ t) (set-append xs old o b)

-- Bytes that fit in front of the rest of a buffer take its place there.
pub store_all-append :
    (pre old bs : List ℕ)
    → length bs ≤ length old
    → store_all (pre ++ old) (length pre) bs ≡ (pre ++ (bs ++ drop (length bs) old), ok tt)
unfolding store_all store
store_all-append pre old [] h = refl
store_all-append pre [] (b ∷ bs) h = absurd (omega arith)
store_all-append pre (o ∷ old) (b ∷ bs) h =
    let room = length-append pre (o ∷ old) in
    let next : pre ++ b ∷ old ≡ (pre ++ b ∷ []) ++ old = sym (append_assoc pre (b ∷ []) old) in
    let place : length pre + 1 ≡ length (pre ++ b ∷ []) =
      omega (arith, length-append pre (b ∷ [])) in
    rw
      (
        lt→ltb (length pre) (length (pre ++ o ∷ old)) (omega (arith, room)),
        set-append pre old o b,
        next,
        place,
      )
      (store_all-append (pre ++ b ∷ []) old bs (omega arith)
        ∙ ap (λ t. (t, ok tt)) (append_assoc pre (b ∷ []) (bs ++ drop (length bs) old)))

store_all-cons :
    (mem : List ℕ) (p b : ℕ) (bs : List ℕ)
    → and_write (store_all mem p (b ∷ [])) (λ m. store_all m (p + 1) bs) ≡ store_all mem p (b ∷ bs)
unfolding store_all store
store_all-cons mem p b bs = elim (Bool-cases (ltb p (length mem))) [
  | inl e ↦ rw (e, store_all)
  | inr e ↦ rw (e, store_all)
]

store_all-last :
    (mem : List ℕ) (p b : ℕ)
    → and_write (store_all mem p (b ∷ [])) (λ m. (m, ok tt)) ≡ store_all mem p (b ∷ [])
unfolding store_all
store_all-last mem p b = store_all-cons mem p b []

one_less_lem : (n : ℕ) → 1 ≤ n → n < 2 ^ 32 → one_less n ≡ n - 1
one_less_lem n h l = omega arith

le→leb : (a b : ℕ) → a ≤ b → leb a b ≡ true
le→leb a b h = ground arith

-- Where the next bytes go.
abbrev pub Puts : List ℕ → List ℕ → List ℕ → Written → Type 0
Puts pre old bytes w = w ≡ (pre ++ (bytes ++ drop (length bytes) old), ok tt)

with_id-Puts :
    (pre old bs : List ℕ) (n k : ℕ) (t : PropertyType)
    → suc (length bs) ≤ length old
    → length old < 2 ^ 32
    → n ≤ length old
    → k ≤ length bs
    → Puts pre old (property_code t ∷ bs) (
        with_id
          (pre ++ old)
          (length pre)
          (length old)
          n
          t
          λ m. or_fail (leb k (one_less (length old))) m (store_all m (length pre + 1) bs))
with_id-Puts pre old bs n k t h l hn hk =
    rw
      (
        le→leb n (length old) hn,
        one_less_lem (length old) (omega arith) l,
        le→leb k (length old - 1) (omega arith),
      )
      (store_all-cons (pre ++ old) (length pre) (property_code t) bs
        ∙ store_all-append pre old (property_code t ∷ bs) h)

abbrev pub u32_bytes : ℕ → List ℕ
u32_bytes n = n / 16777216 ∷ n / 65536 % 256 ∷ n / 256 % 256 ∷ n % 256 ∷ []

-- The bytes of a property that a CONNACK packet carries, for a client that has a client identifier
-- and no user properties; of these only the identifier is written.
abbrev pub connack_bytes : ClientConfig → PropertyType → List ℕ
connack_bytes c Property.session_expiry_interval = 0x11 ∷ u32_bytes c.session_expiry_interval
connack_bytes c Property.receive_maximum = 0x21 ∷ u16_bytes c.receive_maximum
connack_bytes c Property.maximum_qos = 0x24 ∷ c.maximum_qos ∷ []
connack_bytes c Property.retain_available = 0x25 ∷ c.retain_available ∷ []
connack_bytes c Property.maximum_packet_size = 0x27 ∷ u32_bytes c.maximum_packet_size
connack_bytes c Property.topic_alias_maximum = 0x22 ∷ u16_bytes c.topic_alias_maximum
connack_bytes c Property.reason_string =
    0x1f ∷ (u16_bytes (length c.reason_string) ++ c.reason_string)
connack_bytes c Property.user_property = 0x26 ∷ []
connack_bytes c Property.wildcard_subscription_available = 0x28 ∷ c.wildcard_subscription ∷ []
connack_bytes c Property.subscription_id_available = 0x29 ∷ 1 ∷ []
connack_bytes c Property.shared_subscription_available = 0x2a ∷ 1 ∷ []
connack_bytes c Property.server_keep_alive = 0x13 ∷ u16_bytes c.keep_alive
connack_bytes c other = []

-- A client whose CONNACK packet can be written: it has a client identifier, no assigned one and no user
-- properties, and its reason string is accepted text.
pub record IsPlain (c : ClientConfig) : Type 0 where
  pub named : c.client_id ≢ []
  pub unassigned : c.assigned_client_id ≡ false
  pub no_users : c.user_proprieties ≡ []
  pub text : check_string c.reason_string ≡ ok true
  pub short : length c.reason_string < 65536

-- The properties of a CONNACK packet that the server supports.
abbrev pub IsSupported : PropertyType → Type 0
IsSupported Property.session_expiry_interval = Unit {0}
IsSupported Property.receive_maximum = Unit {0}
IsSupported Property.maximum_qos = Unit {0}
IsSupported Property.retain_available = Unit {0}
IsSupported Property.maximum_packet_size = Unit {0}
IsSupported Property.assigned_client_id = Unit {0}
IsSupported Property.topic_alias_maximum = Unit {0}
IsSupported Property.reason_string = Unit {0}
IsSupported Property.user_property = Unit {0}
IsSupported Property.wildcard_subscription_available = Unit {0}
IsSupported Property.subscription_id_available = Unit {0}
IsSupported Property.shared_subscription_available = Unit {0}
IsSupported Property.server_keep_alive = Unit {0}
IsSupported other = ⊥

client_id_size : (s : List ℕ) → s ≢ [] → assigned_size s ≡ 0
client_id_size [] h = absurd (h refl)
client_id_size (x ∷ xs) h = refl

pub get_property_size-connack_bytes :
    (c : ClientConfig) (t : PropertyType)
    → IsPlain c
    → IsSupported t
    → get_property_size c t ≡ length (connack_bytes c t)
unfolding get_property_size variable_size is_property_fixed get_property_data_type data_code
    user_size
get_property_size-connack_bytes c Property.assigned_client_id v s =
    client_id_size c.client_id v.named
get_property_size-connack_bytes c Property.reason_string v s = let w = v.short in omega arith
get_property_size-connack_bytes c Property.user_property v s = rw v.no_users
get_property_size-connack_bytes c Property.session_expiry_interval v s = refl
get_property_size-connack_bytes c t v s = ground arith

take-all : (s : List ℕ) → take (length s) s ≡ s
take-all [] = refl
take-all (x ∷ xs) = ap (λ t. x ∷ t) (take-all xs)

size_fits :
    (c : ClientConfig) (t : PropertyType) (n : ℕ)
    → IsPlain c
    → IsSupported t
    → length (connack_bytes c t) ≤ n
    → get_property_size c t ≤ n
size_fits c t n v s h = rw (get_property_size-connack_bytes c t v s) h

-- fill_property puts the bytes of a supported property where the buffer has room for them.
pub fill_property-Puts :
    (c : ClientConfig) (t : PropertyType) (pre old : List ℕ)
    → IsPlain c
    → IsSupported t
    → length (connack_bytes c t) ≤ length old
    → length old < 2 ^ 32
    → Puts pre old (connack_bytes c t) (fill_property c (pre ++ old) (length pre) (length old) t)
unfolding fill_property fill_case write_u8 write_u16 write_u32 write_string write_users
    property_code
fill_property-Puts c Property.session_expiry_interval pre old v s h l =
    with_id-Puts pre old _ _ 4 Property.session_expiry_interval h l (size_fits c _ _ v s h)
      (omega arith)
fill_property-Puts c Property.receive_maximum pre old v s h l =
    with_id-Puts pre old _ _ 2 Property.receive_maximum h l (size_fits c _ _ v s h) (omega arith)
fill_property-Puts c Property.maximum_qos pre old v s h l =
    with_id-Puts pre old _ _ 1 Property.maximum_qos h l (size_fits c _ _ v s h) (omega arith)
fill_property-Puts c Property.retain_available pre old v s h l =
    with_id-Puts pre old _ _ 1 Property.retain_available h l (size_fits c _ _ v s h) (omega arith)
fill_property-Puts c Property.maximum_packet_size pre old v s h l =
    with_id-Puts pre old _ _ 4 Property.maximum_packet_size h l (size_fits c _ _ v s h)
      (omega arith)
fill_property-Puts c Property.topic_alias_maximum pre old v s h l =
    with_id-Puts pre old _ _ 2 Property.topic_alias_maximum h l (size_fits c _ _ v s h)
      (omega arith)
fill_property-Puts c Property.wildcard_subscription_available pre old v s h l =
    with_id-Puts pre old _ _ 1 Property.wildcard_subscription_available h l (size_fits c _ _ v s h)
      (omega arith)
fill_property-Puts c Property.subscription_id_available pre old v s h l =
    with_id-Puts pre old _ _ 1 Property.subscription_id_available h l (size_fits c _ _ v s h)
      (omega arith)
fill_property-Puts c Property.shared_subscription_available pre old v s h l =
    with_id-Puts pre old _ _ 1 Property.shared_subscription_available h l (size_fits c _ _ v s h)
      (omega arith)
fill_property-Puts c Property.server_keep_alive pre old v s h l =
    with_id-Puts pre old _ _ 2 Property.server_keep_alive h l (size_fits c _ _ v s h) (omega arith)
fill_property-Puts c Property.assigned_client_id pre old v s h l =
    rw
      (
        le→leb (get_property_size c Property.assigned_client_id) (length old)
            (size_fits c Property.assigned_client_id _ v s h),
        v.unassigned,
      )
      refl
fill_property-Puts c Property.user_property pre old v s h l =
    rw
      (
        get_property_size-connack_bytes c Property.user_property v s,
        v.no_users,
        le→leb 1 (length old) h,
      )
      (store_all-last (pre ++ old) (length pre) 0x26 ∙ store_all-append pre old (0x26 ∷ []) h)
fill_property-Puts c Property.reason_string pre old v s h l =
    let r = c.reason_string in
    let small : length r % 65536 ≡ length r = let w = v.short in omega arith in
    let whole : string_bytes r ≡ u16_bytes (length r) ++ r = rw (small, take-all r) refl in
    rw (v.text, whole)
      (with_id-Puts pre old (u16_bytes (length r) ++ r) _ (length r + 2) Property.reason_string h l
        (size_fits c Property.reason_string _ v s h) (omega arith))
fill_property-Puts c t pre old v s h l = absurd s
