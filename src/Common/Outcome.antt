-- ===== src/Common/Outcome.antt =====
-- The outcome of a C++ call, and the codes of include/lmqtt_reason_codes.h.
use mathlib.Core.Path.{◌≡◌, refl}
use mathlib.Core.Bool.{Bool, true, false}

-- The reason codes that the modelled code returns or tests.
pub data ReasonCode : Type 0 where
  success disconnect_with_will_message no_subscription_exists unspecified_error : ReasonCode
  malformed_packet protocol_error implementation_specific_error : ReasonCode
  unsupported_protocol_version not_authorized server_busy server_shutting_down : ReasonCode
  keep_alive_timeout session_taken_over topic_filter_invalid packet_id_in_use : ReasonCode
  receive_maximum_exceeded topic_alias_invalid packet_too_large message_rate_too_high : ReasonCode
  quota_exceeded administrative_action payload_format_invalid unsupported_retain : ReasonCode
  unsupported_qos use_another_server server_moved unsupported_shared_subscriptions : ReasonCode
  connection_rate_exceeded unsupported_subscription_identifiers : ReasonCode
  unsupported_wildcard_subscriptions : ReasonCode

-- `ok` is SUCCESS (or return_code::OK) with the values that the call hands back, `err` any other
-- code. `fault` is undefined behaviour: a read or write outside the buffer, or through a null
-- pointer. `no_fuel` is no C++ outcome: a modelled loop used up its rounds.
pub data Result {ℓ} (A : Type ℓ) : Type ℓ where
  ok : A → Result A
  err : ReasonCode → Result A
  fault : Result A
  no_fuel : Result A

-- Only a success goes on.
infixl 5 ◌>>=◌ ◌>>◌
abbrev pub ◌>>=◌ {κ μ} : {S : Type κ} {T : Type μ} → Result S → (S → Result T) → Result T
fault >>= next = fault
no_fuel >>= next = no_fuel
err code >>= next = err code
ok out >>= next = next out

abbrev pub ◌>>◌ {κ} : {T : Type κ} → Result (Unit {0}) → Result T → Result T
step >> rest = step >>= λ done. rest

-- `if (!b) return code;`
abbrev pub require : Bool → ReasonCode → Result (Unit {0})
require true e = ok tt
require false e = err e

-- The call comes back: it neither faults nor spins.
abbrev pub Returns {ℓ} : {A : Type ℓ} → Result A → Type 0
Returns (ok a) = Unit
Returns (err e) = Unit
Returns fault = ⊥
Returns no_fuel = ⊥

pub Returns-bind {ℓ κ} :
    {A : Type ℓ} {B : Type κ} (m : Result A) (f : A → Result B)
    → Returns m
    → ((a : A) → m ≡ ok a → Returns (f a))
    → Returns (m >>= f)
Returns-bind (ok a) f h k = k a refl
Returns-bind (err e) f h k = tt
Returns-bind fault f h k = h
Returns-bind no_fuel f h k = h

-- A chain that succeeds has a first part that does.
pub >>=-ok {κ μ} :
    {S : Type κ} {T : Type μ} (step : Result S) (next : S → Result T) (t : T)
    → (step >>= next) ≡ ok t
    → (s : S) × (step ≡ ok s) × (next s ≡ ok t)
>>=-ok fault next t e = cc
>>=-ok no_fuel next t e = cc
>>=-ok (err code) next t e = cc
>>=-ok (ok out) next t e = (out, refl, e)
