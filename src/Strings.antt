-- ===== src/Strings.antt =====
-- include/lmqtt_utils.h: decode_utf8_str and decode_utf8_str_fixed.
use lmqtt_cpp.Common.{
  ◌>>=◌, ℕ, ◌+◌, Bool, true, false, not, List, if◌then◌else◌, length, Result, ok,
}
use lmqtt_cpp.Memory.{load_u16}
use lmqtt_cpp.Utf8.{
  Utf8StrCheck, well_formed, well_formed_no_charactor, ill_formed, is_valid_content,
  is_valid_length,
}

-- A std::string_view into the buffer.
pub record StringView : Type 0 where
  pub start : ℕ
  pub size : ℕ

-- The return code (`good` is return_code::OK) and the two reference arguments.
pub record Decoded : Type 0 where
  pub good : Bool
  pub decoded_string : StringView
  pub offset : ℕ

abbrev pub is_well_formed : Utf8StrCheck → Bool
is_well_formed well_formed = true
is_well_formed well_formed_no_charactor = false
is_well_formed ill_formed = false

-- A view that was set, with the outcome of the two checks on it.
unfoldable pub check_view : List ℕ → StringView → Result Bool
check_view mem view = if not (is_valid_length view.size) then ok false else do
  check ← is_valid_content mem view.start (view.start + view.size)
  ok (is_well_formed check)

-- The length is not held against the rest of the buffer here.
unfoldable pub decode_utf8_str : List ℕ → ℕ → ℕ → Result Decoded
decode_utf8_str mem buffer offset = do
  str_len ← load_u16 mem buffer
  let view : StringView = record { start = buffer + 2; size = str_len }
  good ← check_view mem view
  ok (record {
    good = good;
    decoded_string = view;
    offset = if good then offset + (2 + str_len) else offset;
  })

unfoldable pub decode_utf8_str_fixed : List ℕ → ℕ → ℕ → Result (Bool × StringView)
decode_utf8_str_fixed mem buffer length = do
  let view : StringView = record { start = buffer; size = length }
  good ← check_view mem view
  ok (good, view)
