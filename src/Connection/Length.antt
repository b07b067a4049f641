-- ===== src/Connection/Length.antt =====
-- The loop of read_fixed_header (include/lmqtt_connection.h) that reads the remaining length, against
-- decode_variable_int (include/lmqtt_utils.h), which reads the same bytes from a buffer.
use lmqtt_cpp.Common.{
  ℕ, zero, suc, ◌+◌, ◌-◌, ◌%◌, ◌^◌, ◌<◌, ◌≡◌, refl, sym, ap, ◌∙◌, Bool, true, Option, none, some,
  List, [], ◌∷◌, ◌++◌, length, drop, length-append, length-drop, Result, ok, err, fault, no_fuel,
  arith,
}
use lmqtt_cpp.Memory.{load, load_at, drop_next}
use lmqtt_cpp.VarInt.{add_group, next_mul, decode_loop, decode_variable_int}
use lmqtt_cpp.VarInt.Spec.{var_bytes}
use lmqtt_cpp.VarInt.Decode.{decode_variable_int-var_bytes}
use lmqtt_cpp.Connection.{read_some, length_loop}

-- The value, and none for a failure.
abbrev pub value_of : Result (ℕ × ℕ) → Option (Bool × ℕ)
value_of (ok (value, offset)) = some (true, value)
value_of (err e) = none
value_of fault = none
value_of no_fuel = none

loop_agrees :
    (rounds : ℕ) (mem : List ℕ) (offset value mul : ℕ) (xs : List ℕ)
    → drop offset mem ≡ xs
    → mul < 256
    → length_loop rounds true xs value mul
      ≡ value_of (decode_loop rounds mem 0 (length mem) offset value mul)
unfolding length_loop decode_loop read_some
loop_agrees zero mem o v m xs e h = refl
loop_agrees (suc k) mem o v m [] e h =
    let l : length mem - o ≡ 0 = sym (length-drop o mem) ∙ ap length e in ground arith
loop_agrees (suc k) mem o v m (x ∷ xs) e h =
    let l : length mem - o ≡ suc (length xs) = sym (length-drop o mem) ∙ ap length e in
    let r =
      loop_agrees k mem (o + 1) (add_group v x m) (next_mul m) xs (drop_next mem o x xs e)
        (omega arith) in
    let zero_plus : o ≡ 0 + o = omega arith in
    let b : load mem (0 + o) ≡ ok x = rw (sym zero_plus) (load_at mem o x xs e) in ground arith

-- On any bytes, the loop that reads the remaining length from an open socket gives the value
-- that decode_variable_int decodes from the same bytes in a buffer, and throws where that
-- fails.
pub length_loop-decode_variable_int :
    (bytes : List ℕ)
    → length_loop 4 true bytes 0 1 ≡ value_of (decode_variable_int bytes 0 (length bytes))
unfolding decode_variable_int
length_loop-decode_variable_int bytes = loop_agrees 4 bytes 0 0 1 bytes refl (omega arith)

-- On the standard's encoding of a value below 2 ^ 28, whatever comes behind it, the loop gives the
-- value modulo 16384.
pub length_loop-var_bytes :
    (v : ℕ) (rest : List ℕ)
    → v < 2 ^ 28
    → length_loop 4 true (var_bytes v ++ rest) 0 1 ≡ some (true, v % 16384)
length_loop-var_bytes v rest h =
    let l = length-append (var_bytes v) rest in
    length_loop-decode_variable_int (var_bytes v ++ rest)
    ∙ ap value_of
        (decode_variable_int-var_bytes (var_bytes v ++ rest) 0 _ v rest refl (omega arith) h)
