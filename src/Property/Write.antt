-- ===== src/Property/Write.antt =====
-- write_property_to_buffer of include/lmqtt_properties.h.
use lmqtt_cpp.Common.{
  ℕ, ◌+◌, ◌/◌, ◌%◌, Bool, true, false, List, [], ◌∷◌, ◌++◌, ltb, leb, if◌then◌else◌, length, take,
  set, Result, ok, err, fault, no_fuel, ◌>>=◌,
}
use lmqtt_cpp.Common.{unspecified_error}
use lmqtt_cpp.Utf8.{is_valid_content}
use lmqtt_cpp.Strings.{is_well_formed}

-- The buffer after a call that writes to it, and the code. What is written before a FAIL stays.
abbrev pub Written : Type 0
Written = List ℕ × Result (Unit {0})

-- Go on with the buffer after a step that returned OK.
abbrev pub and_write : Written → (List ℕ → Written) → Written
and_write (mem, ok u) next = next mem
and_write (mem, err e) next = (mem, err e)
and_write (mem, fault) next = (mem, fault)
and_write (mem, no_fuel) next = (mem, no_fuel)

-- `buffer[i] = byte`.
unfoldable pub store : List ℕ → ℕ → ℕ → Written
store mem p byte = if ltb p (length mem) then (set mem p byte, ok tt) else (mem, fault)

-- Several bytes from `p` on, in order, as the assignments and std::memcpy store them.
unfoldable pub store_all : List ℕ → ℕ → List ℕ → Written
store_all mem p [] = (mem, ok tt)
store_all mem p (b ∷ bs) = and_write (store mem p b) λ mem'. store_all mem' (p + 1) bs

-- `if (!b) return return_code::FAIL;`
abbrev pub or_fail : Bool → List ℕ → Written → Written
or_fail true mem next = next
or_fail false mem next = (mem, err unspecified_error)

abbrev pub u16_bytes : ℕ → List ℕ
u16_bytes n = n / 256 ∷ n % 256 ∷ []

unfoldable pub write_u8 : List ℕ → ℕ → ℕ → ℕ → Written
write_u8 mem buffer size byte = or_fail (leb 1 size) mem (store_all mem buffer (byte ∷ []))

unfoldable pub write_u16 : List ℕ → ℕ → ℕ → ℕ → Written
write_u16 mem buffer size n = or_fail (leb 2 size) mem (store_all mem buffer (u16_bytes n))

unfoldable pub write_u32 : List ℕ → ℕ → ℕ → ℕ → Written
write_u32 mem buffer size n =
    or_fail (leb 4 size) mem
      (store_all mem buffer (n / 16777216 ∷ n / 65536 % 256 ∷ n / 256 % 256 ∷ n % 256 ∷ []))

-- is_valid_content on a std::string, which a zero byte follows.
unfoldable pub check_string : List ℕ → Result Bool
check_string s = do check ← is_valid_content (s ++ 0 ∷ []) 0 (length s); ok (is_well_formed check)

-- Go on where the check gives WELL_FORMED, FAIL otherwise.
abbrev pub if_valid : Result Bool → List ℕ → Written → Written
if_valid (ok true) mem next = next
if_valid (ok false) mem next = (mem, err unspecified_error)
if_valid (err e) mem next = (mem, err e)
if_valid fault mem next = (mem, fault)
if_valid no_fuel mem next = (mem, no_fuel)

-- The length, cut to 16 bits, and as many bytes.
abbrev pub string_bytes : List ℕ → List ℕ
string_bytes s = let size = length s % 65536 in u16_bytes size ++ take size s

unfoldable pub write_string : List ℕ → ℕ → ℕ → List ℕ → Written
write_string mem buffer size s =
    or_fail (leb (length s + 2) size) mem
      (if_valid (check_string s) mem (store_all mem buffer (string_bytes s)))

unfoldable pub write_pair : List ℕ → ℕ → ℕ → List ℕ × List ℕ → Written
write_pair mem buffer size (s, t) = if_valid (check_string s) mem (
    if_valid (check_string t) mem (
      or_fail (leb (length s % 65536 + length t % 65536 + 4) size) mem
        (store_all mem buffer (string_bytes s ++ string_bytes t))))

unfoldable pub write_binary : List ℕ → ℕ → ℕ → List ℕ → Written
write_binary mem buffer size s =
    or_fail (leb (length s % 65536 + 2) size) mem (store_all mem buffer (string_bytes s))
