-- ===== src/Utf8.antt =====
-- include/lmqtt_utf8_string.h: the check of a UTF-8 string, and of its length and wildcards.
-- A std::string_view is the stretch of the buffer from `it` up to `end`. `*(it + k)` reads the
-- buffer, also past `end` where the code does not look at `end` first; past the buffer it faults.
pub mod Spec
pub mod Chars
pub mod Rounds
pub mod Steps
pub mod Content
pub mod Total
pub mod Overrun
use lmqtt_cpp.Common.{
  ◌>>=◌, ◌||◌, ℕ, zero, suc, ◌+◌, Bool, true, false, ◌&&◌, not, List, [], ◌∷◌, bit_and, ltb, leb,
  ◌==◌, if◌then◌else◌, Result, ok, no_fuel, length,
}
use lmqtt_cpp.Memory.{load}

pub data Utf8StrCheck : Type 0 where
  well_formed well_formed_no_charactor ill_formed : Utf8StrCheck

-- What one round of the loop does: return ILL_FORMED, or set `result` (if `nochar`) and advance.
pub data CharCheck : Type 0 where
  ill : CharCheck
  advance : (nochar : Bool) (size : ℕ) → CharCheck

abbrev pub is_tail : ℕ → Bool
is_tail b = bit_and b 0b1100_0000 == 0b1000_0000

-- 0xxx'xxxx
unfoldable pub check_one : ℕ → CharCheck
check_one byte1 =
    if byte1 == 0 then ill else advance (leb 1 byte1 && leb byte1 0x1f || byte1 == 0x7f) 1

-- 110x'xxxx 10xx'xxxx; the second `if` tests `byte1` where it means `byte2`.
unfoldable pub check_two : ℕ → ℕ → CharCheck
check_two byte1 byte2 =
    if not (is_tail byte2) || bit_and byte1 0b1111_1110 == 0b1100_0000
    then ill
    else advance (byte1 == 0b1100_0010 && (leb 0b1000_0000 byte1 && leb byte1 0b1001_1111)) 2

-- 1110'xxxx 10xx'xxxx 10xx'xxxx
unfoldable pub check_three : ℕ → ℕ → ℕ → CharCheck
check_three byte1 byte2 byte3 =
    if not (is_tail byte2)
      || (not (is_tail byte3)
          || (byte1 == 0b1110_0000 && bit_and byte2 0b1110_0000 == 0b1000_0000
              || byte1 == 0b1110_1101 && bit_and byte2 0b1110_0000 == 0b1010_0000))
    then ill
    else advance
        (byte1 == 0b1110_1111 && (byte2 == 0b1011_1111 && bit_and byte3 0b1111_1110 == 0b1011_1110))
        3

-- 1111'0xxx 10xx'xxxx 10xx'xxxx 10xx'xxxx
unfoldable pub check_four : ℕ → ℕ → ℕ → ℕ → CharCheck
check_four byte1 byte2 byte3 byte4 =
    if not (is_tail byte2)
      || (not (is_tail byte3)
          || (not (is_tail byte4)
              || (byte1 == 0b1111_0000 && bit_and byte2 0b1111_0000 == 0b1000_0000
                  || (byte1 == 0b1111_0100 && ltb 0b1000_1111 byte2 || ltb 0b1111_0100 byte1))))
    then ill
    else advance
        (bit_and byte2 0b1100_1111 == 0b1000_1111
          && (byte3 == 0b1011_1111 && bit_and byte4 0b1111_1110 == 0b1011_1110))
        4

-- The four branches for a character of one to four bytes. Of a three-byte lead the code compares
-- `it + 2` with `end` by `==`.
unfoldable pub two_bytes : List ℕ → ℕ → ℕ → ℕ → Result CharCheck
two_bytes mem it end byte1 =
    if it + 1 == end then ok ill else do byte2 ← load mem (it + 1); ok (check_two byte1 byte2)

unfoldable pub three_bytes : List ℕ → ℕ → ℕ → ℕ → Result CharCheck
three_bytes mem it end byte1 =
    if it + 2 == end
    then ok ill
    else do byte2 ← load mem (it + 1); byte3 ← load mem (it + 2); ok (check_three byte1 byte2 byte3)

unfoldable pub four_bytes : List ℕ → ℕ → ℕ → ℕ → Result CharCheck
four_bytes mem it end byte1 = if leb end (it + 3) then ok ill else do
  byte2 ← load mem (it + 1)
  byte3 ← load mem (it + 2)
  byte4 ← load mem (it + 3)
  ok (check_four byte1 byte2 byte3 byte4)

unfoldable pub check_lead : List ℕ → ℕ → ℕ → ℕ → Result CharCheck
check_lead mem it end byte1 =
    if ltb byte1 0b1000_0000
    then ok (check_one byte1)
    else if bit_and byte1 0b1110_0000 == 0b1100_0000
    then two_bytes mem it end byte1
    else if bit_and byte1 0b1111_0000 == 0b1110_0000
    then three_bytes mem it end byte1
    else if bit_and byte1 0b1111_1000 == 0b1111_0000
    then four_bytes mem it end byte1
    else ok ill

-- The body of the `while` loop.
unfoldable pub check_char : List ℕ → ℕ → ℕ → Result CharCheck
check_char mem it end = do byte1 ← load mem it; check_lead mem it end byte1

abbrev mark : Bool → Utf8StrCheck → Utf8StrCheck
mark true r = well_formed_no_charactor
mark false r = r

-- `while (it != end)`.
unfoldable pub scan : ℕ → List ℕ → ℕ → ℕ → Utf8StrCheck → Result Utf8StrCheck
scan zero mem it end result = if it == end then ok result else no_fuel
scan (suc fuel) mem it end result = elim (it == end) [
  | true ↦ ok result
  | false ↦ do
    c ← check_char mem it end
    elim c [
      | ill ↦ ok ill_formed
      | advance nochar size ↦ scan fuel mem (it + size) end (mark nochar result)
    ]
]

-- Each round takes a byte of the buffer at least, so one round for each byte is enough.
unfoldable pub is_valid_content : List ℕ → ℕ → ℕ → Result Utf8StrCheck
is_valid_content mem it end = scan (suc (length mem)) mem it end well_formed

unfoldable pub is_valid_length : ℕ → Bool
is_valid_length size = leb size 0xffff

unfoldable pub has_wildcard : List ℕ → Bool
has_wildcard [] = false
has_wildcard (c ∷ cs) = c == b'#' || has_wildcard cs
