-- ===== src/Encoding/PrintBits.antt =====
-- sem02-data-encoding/print_int.c: `printBits`.
use caos_seminars.Prelude.{ℕ, zero, suc, ◌+◌, ◌/◌, ◌%◌, ◌^◌, List, [], ◌∷◌, ◌++◌}
pub mod Parse

-- The inner loop, from `j = count - 1` down to 0: the characters of `(bytes[i] >> j) & 1`.
unfoldable pub print_byte : (count byte : ℕ) → List ℕ
print_byte zero byte = []
print_byte (suc j) byte = (48 + byte / 2 ^ j % 2) ∷ print_byte j byte

-- The bytes of the object in memory, and the text that is printed of them.
unfoldable pub print_bits : (bytes : List ℕ) → List ℕ
print_bits [] = 10 ∷ []
print_bits (byte ∷ bytes) = print_byte 8 byte ++ (32 ∷ print_bits bytes)
