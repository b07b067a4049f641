-- ===== src/Tests/Bytes.antt =====
-- The codecs of include/lmqtt_utf8_string.h, include/lmqtt_utils.h and include/lmqtt_properties.h on
-- small inputs.
use lmqtt_cpp.Common.{ℕ, ◌≤◌, ◌≡◌, refl, ◌⊎◌, List, [], ◌∷◌, length, ok, err, fault, arith}
use lmqtt_cpp.Utf8.{
  Utf8StrCheck, well_formed, is_valid_content, scan, check_char, check_lead, check_one, two_bytes,
  check_two, three_bytes, check_three, four_bytes, check_four,
}
use lmqtt_cpp.Memory.{load}
use lmqtt_cpp.Utf8.Content.{is_valid_content-encode_text, is_valid_content_sound, Holds, verdict}
use lmqtt_cpp.Utf8.Total.{is_valid_content_inside}
use lmqtt_cpp.Utf8.Steps.{IsLoneLead}
use lmqtt_cpp.Utf8.Overrun.{is_valid_content-lone_lead}
use lmqtt_cpp.Utf8.Spec.{encode_text, encode_char, any_nochar, is_nochar}
use lmqtt_cpp.VarInt.{decode_variable_int, encode_loop, encode_variable_int, get_variable_int_size}
use lmqtt_cpp.VarInt.Spec.{var_bytes}
use lmqtt_cpp.VarInt.Decode.{
  decode_variable_int-var_bytes, decode_variable_int-IsDecoded, IsDecoded,
  get_variable_int_size-var_bytes,
}
use lmqtt_cpp.VarInt.Encode.{
  encode_variable_int-IsWritten, decode-encode_variable_int, IsWritten, written,
}
use lmqtt_cpp.Types.Property.{get_property_data_type}
use lmqtt_cpp.Types.Property
use lmqtt_cpp.Property.{PropertyValue, value_string, get_property_data}
use lmqtt_cpp.Property.Print.{print_value, property}
use lmqtt_cpp.Property.RoundTrip.{get_property_data-print_value}
use lmqtt_cpp.Property.Total.{HasType, get_property_data_in}
use lmqtt_cpp.Common.{malformed_packet}

-- "aé€" and U+10348.
abbrev text : List ℕ
text = 0x61 ∷ 0xe9 ∷ 0x20ac ∷ 0x10348 ∷ []

abbrev text_bytes : List ℕ
text_bytes = 0x61 ∷ 0xc3 ∷ 0xa9 ∷ 0xe2 ∷ 0x82 ∷ 0xac ∷ 0xf0 ∷ 0x90 ∷ 0x8d ∷ 0x88 ∷ []

encode_text_run : encode_text text ≡ text_bytes
unfolding encode_text encode_char
encode_text_run = refl

-- U+0085, a control character, passes: its second byte is not looked at.
control_character_run : is_valid_content (0xc2 ∷ 0x85 ∷ []) 0 2 ≡ ok well_formed
unfolding is_valid_content scan check_char load check_lead check_one two_bytes check_two three_bytes
    check_three four_bytes check_four
control_character_run = refl

is_valid_content-encode_text_example :
    is_valid_content text_bytes 0 10 ≡ ok (verdict well_formed text)
unfolding encode_text encode_char
is_valid_content-encode_text_example =
    is_valid_content-encode_text text_bytes 0 10 text (ground arith, refl, refl)

is_valid_content_sound_example :
    (cs : List ℕ) × Holds text_bytes 0 10 cs × (well_formed ≡ verdict well_formed cs)
unfolding is_valid_content scan check_char load check_lead check_one two_bytes check_two three_bytes
    check_three four_bytes check_four
is_valid_content_sound_example =
    is_valid_content_sound text_bytes 0 10 well_formed (ground arith) (omega arith) (omega arith)
      refl (λ e. cc)

is_valid_content_inside_example :
    ((p : ℕ) × IsLoneLead text_bytes p 10)
    ⊎ ((res : Utf8StrCheck) × (is_valid_content text_bytes 0 10 ≡ ok res))
is_valid_content_inside_example =
    is_valid_content_inside text_bytes 0 10 (ground arith) (omega arith) (omega arith)

is_valid_content-lone_lead_example : is_valid_content (0x61 ∷ 0xe2 ∷ []) 0 2 ≡ fault
unfolding encode_text encode_char
is_valid_content-lone_lead_example =
    is_valid_content-lone_lead (0x61 ∷ 0xe2 ∷ []) 0 0xe2 (0x61 ∷ []) (ground arith) refl refl

-- 321 is the two bytes 0xc1 0x02.
decode_variable_int-var_bytes_example : decode_variable_int (0xc1 ∷ 2 ∷ 7 ∷ []) 0 3 ≡ ok (321, 1)
unfolding var_bytes
decode_variable_int-var_bytes_example =
    decode_variable_int-var_bytes (0xc1 ∷ 2 ∷ 7 ∷ []) 0 3 321 (7 ∷ []) refl (omega arith)
      (omega arith)

decode_variable_int-IsDecoded_example : IsDecoded 2 (decode_variable_int (0xc1 ∷ 0x82 ∷ []) 0 2)
decode_variable_int-IsDecoded_example =
    decode_variable_int-IsDecoded (0xc1 ∷ 0x82 ∷ []) 0 2 (omega arith) (ground arith)

get_variable_int_size-var_bytes_example : get_variable_int_size 16384 ≡ length (var_bytes 16384)
get_variable_int_size-var_bytes_example = get_variable_int_size-var_bytes 16384 (omega arith)

abbrev zeros : List ℕ
zeros = 0 ∷ 0 ∷ 0 ∷ 0 ∷ 0 ∷ []

-- Four bytes, and a value with five digits.
encode_variable_int-IsWritten_example :
    IsWritten 0
      (0 ∷ 0 ∷ 0 ∷ 0 ∷ [])
      0
      (written 300000000)
      (encode_variable_int (0 ∷ 0 ∷ 0 ∷ 0 ∷ []) 0 4 300000000)
encode_variable_int-IsWritten_example =
    encode_variable_int-IsWritten (0 ∷ 0 ∷ 0 ∷ 0 ∷ []) 0 4 300000000 (omega arith) (omega arith)
      (omega arith)

decode-encode_variable_int_example :
    decode_variable_int (127 ∷ 2 ∷ 0 ∷ 0 ∷ 0 ∷ []) 0 4 ≡ ok (127, 0)
unfolding encode_variable_int encode_loop
decode-encode_variable_int_example =
    decode-encode_variable_int zeros 0 4 300 (127 ∷ 2 ∷ 0 ∷ 0 ∷ 0 ∷ []) 2 (omega arith)
      (omega arith) (omega arith) (omega arith) refl

abbrev reason_bytes : List ℕ
reason_bytes = 0 ∷ 2 ∷ 0x6f ∷ 0x6b ∷ 9 ∷ []

get_property_data-print_value_example :
    get_property_data Property.reason_string reason_bytes 0 5
    ≡ ok (property Property.reason_string (value_string (0x6f ∷ 0x6b ∷ [])), 4)
unfolding print_value encode_text encode_char any_nochar is_nochar get_property_data_type
get_property_data-print_value_example =
    get_property_data-print_value Property.reason_string (value_string (0x6f ∷ 0x6b ∷ []))
      reason_bytes 0 5 (9 ∷ []) (0x6f ∷ 0x6b ∷ [], ground arith, refl, refl, omega arith) refl
      (omega arith)

get_property_data_in_example :
    (get_property_data Property.receive_maximum reason_bytes 0 5 ≡ err malformed_packet)
    ⊎ ((v : PropertyValue) × (n : ℕ) × (get_property_data Property.receive_maximum reason_bytes 0 5
          ≡ ok (property Property.receive_maximum v, n))
        × (1 ≤ n)
        × (n ≤ 5)
        × HasType (get_property_data_type Property.receive_maximum) v)
get_property_data_in_example =
    get_property_data_in reason_bytes (ground arith) Property.receive_maximum 0 5 (omega arith)
