-- ===== src/Config/Total.antt =====
-- The `configure` functions of include/lmqtt_client_config.h come back on a property or a payload part
-- of its own type, and keep the will's configuration where the will flag is set.
use lmqtt_cpp.Common.{
  ℕ, ◌≡◌, refl, sym, ◌∙◌, ◌≢◌, Bool, true, false, not, Option, none, some, ◌==◌, if◌then◌else◌,
  Result, ok, err, fault, no_fuel, ReasonCode, require, Returns, arith,
}
use lmqtt_cpp.Types.Property
use lmqtt_cpp.Types.Property.{PropertyType, get_property_data_type, same_data}
use lmqtt_cpp.Types.Payload
use lmqtt_cpp.Types.Payload.{PayloadType, get_payload_data_type}
use lmqtt_cpp.Property.{
  PropertyValue, PropertyData, value_u8, value_u16, value_u32, value_string, value_binary,
  value_pair, check_data_type,
}
use lmqtt_cpp.Property.Print.{property}
use lmqtt_cpp.Property.Total.{HasType}
use lmqtt_cpp.Payload.{
  PayloadValue, PayloadData, payload_string, payload_binary, check_payload_type,
}
use lmqtt_cpp.Config.{ClientConfig, WillConfig, Configured, configure, configure_propriety, given}
use lmqtt_cpp.Config.Payload.{configure_part, configure_payload, on_will}
use lmqtt_cpp.Config.Will.{configure_will, configure_will_propriety}

-- Where the will flag is set, the will's configuration is there.
abbrev pub HasWill : ClientConfig → Type 0
HasWill c = c.will_flag ≡ 1 → c.will_cfg ≢ none

-- The call comes back, with such a configuration.
abbrev pub IsSafe : {A : Type 0} → ClientConfig × Result A → Type 0
IsSafe (c, r) = Returns r × HasWill c

given-Returns :
    {S A : Type 0} (s : S) (r : Result A) (k : A → S × Result (Unit {0}))
    → Returns r
    → ((a : A) → Returns (k a).1)
    → Returns (given s r k).1
given-Returns s (ok a) k h g = g a
given-Returns s (err e) k h g = tt
given-Returns s fault k h g = h
given-Returns s no_fuel k h g = h

pub require-Returns : (b : Bool) (e : ReasonCode) → Returns (require b e)
require-Returns true e = tt
require-Returns false e = tt

-- A property of its own data type is set, or refused.
pub configure-Returns :
    (t : PropertyType) (c : ClientConfig) (v : PropertyValue)
    → HasType (get_property_data_type t) v
    → Returns (configure t c (property t v)).1
unfolding configure get_property_data_type check_data_type same_data
configure-Returns Property.session_expiry_interval c (value_u32 n) h = ground arith
configure-Returns Property.receive_maximum c (value_u16 n) h = require-Returns _ _
configure-Returns Property.maximum_packet_size c (value_u32 n) h = require-Returns _ _
configure-Returns Property.topic_alias_maximum c (value_u16 n) h = ground arith
configure-Returns Property.request_response_information c (value_u8 n) h = require-Returns _ _
configure-Returns Property.request_problem_information c (value_u8 n) h = require-Returns _ _
configure-Returns Property.user_property c (value_pair s u) h = ground arith
configure-Returns Property.authentication_method c (value_string s) h = ground arith
configure-Returns Property.authentication_data c (value_binary s) h = ground arith
configure-Returns t c v h = ground arith

pub configure_will-Returns :
    (t : PropertyType) (w : WillConfig) (v : PropertyValue)
    → HasType (get_property_data_type t) v
    → Returns (configure_will t w (property t v)).1
unfolding configure_will get_property_data_type check_data_type same_data
configure_will-Returns Property.will_delay_interval w (value_u32 n) h = ground arith
configure_will-Returns Property.payload_format_indicator w (value_u8 n) h = require-Returns _ _
configure_will-Returns Property.message_expiry_interval w (value_u32 n) h = ground arith
configure_will-Returns Property.content_type w (value_string s) h = ground arith
configure_will-Returns Property.response_topic w (value_string s) h = ground arith
configure_will-Returns Property.correlation_data w (value_binary s) h = ground arith
configure_will-Returns Property.user_property w (value_pair s u) h = ground arith
configure_will-Returns t w v h = ground arith

-- Properties leave the will flag, and what stands for the will, alone.
configure-will_flag :
    (t : PropertyType) (c : ClientConfig) (d : PropertyData)
    → ((configure t c d).0.will_flag ≡ c.will_flag) × ((configure t c d).0.will_cfg ≡ c.will_cfg)
unfolding configure
configure-will_flag Property.session_expiry_interval c d = (ground arith, ground arith)
configure-will_flag t c d = (ground arith, ground arith)

pub configure_propriety-IsSafe :
    (t : PropertyType) (c : ClientConfig) (v : PropertyValue)
    → HasType (get_property_data_type t) v
    → HasWill c
    → IsSafe (configure_propriety c (property t v))
unfolding configure_propriety
configure_propriety-IsSafe t c v h w =
    let (f, g) = configure-will_flag t c (property t v) in
    (configure-Returns t c v h, λ e n. w (sym f ∙ e) (sym g ∙ n))

pub configure_will_propriety-IsSafe :
    (t : PropertyType) (c : ClientConfig) (v : PropertyValue)
    → HasType (get_property_data_type t) v
    → HasWill c
    → IsSafe (configure_will_propriety c (property t v))
unfolding configure_will_propriety
configure_will_propriety-IsSafe t c v h w = on_pointer c.will_cfg refl
  where
    on_pointer :
        (o : Option WillConfig)
        → c.will_cfg ≡ o
        → IsSafe (configure_will_propriety c (property t v))
    on_pointer none e = rw e (tt, λ f n. w f e)
    on_pointer (some x) e = rw e (configure_will-Returns t x v h, λ f n. cc)

-- What get_payload makes for a payload part.
abbrev pub FitsPart : PayloadType → PayloadValue → Type 0
FitsPart Payload.client_id (payload_string s) = Unit
FitsPart Payload.will_topic (payload_string s) = Unit
FitsPart Payload.user_name (payload_string s) = Unit
FitsPart Payload.will_payload (payload_binary s) = Unit
FitsPart Payload.password (payload_binary s) = Unit
FitsPart t v = ⊥

abbrev pub part : PayloadType → PayloadValue → PayloadData
part t v = record { payload_type = t; content = v; data_type = get_payload_data_type t }

on_will-IsSafe :
    (c : ClientConfig) (f : WillConfig → WillConfig)
    → HasWill c
    → c.will_flag ≡ 1
    → IsSafe (on_will c f)
on_will-IsSafe c f w e = on_pointer c.will_cfg refl
  where
    on_pointer : (o : Option WillConfig) → c.will_cfg ≡ o → IsSafe (on_will c f)
    on_pointer none n = absurd (w e n)
    on_pointer (some x) n = rw n (tt, λ g m. cc)

pub if-IsSafe :
    (b : Bool) (m n : Configured) → IsSafe m → (b ≡ false → IsSafe n) → IsSafe (if b then m else n)
if-IsSafe true m n h g = h
if-IsSafe false m n h g = g refl

flag_set : (n : ℕ) → not (n == 1) ≡ false → n ≡ 1
flag_set n e = ground arith

-- A payload part of its own type is set, or refused; no null pointer is followed.
pub configure_payload-IsSafe :
    (t : PayloadType) (c : ClientConfig) (v : PayloadValue)
    → FitsPart t v
    → HasWill c
    → IsSafe (configure_payload c (part t v))
unfolding configure_payload configure_part check_payload_type get_payload_data_type same_data
configure_payload-IsSafe Payload.client_id c (payload_string s) h w = (tt, w)
configure_payload-IsSafe Payload.user_name c (payload_string s) h w =
    if-IsSafe _ _ _ (tt, w) λ e. (tt, w)
configure_payload-IsSafe Payload.password c (payload_binary s) h w =
    if-IsSafe _ _ _ (tt, w) λ e. (tt, w)
configure_payload-IsSafe Payload.will_topic c (payload_string s) h w =
    if-IsSafe _ _ _ (tt, w)
      λ e. on_will-IsSafe c (λ x. record x { topic = s }) w (flag_set c.will_flag e)
configure_payload-IsSafe Payload.will_payload c (payload_binary s) h w =
    if-IsSafe _ _ _ (tt, w)
      λ e. on_will-IsSafe c (λ x. record x { will_payload = s }) w (flag_set c.will_flag e)
configure_payload-IsSafe t c v h w = absurd h
