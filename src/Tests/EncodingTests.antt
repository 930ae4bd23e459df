-- ===== src/Tests/EncodingTests.antt =====
-- The text that print_int.c prints of 27, in two bytes.
use caos_seminars.Prelude.{◌≡◌, refl, [], ◌∷◌, arith}
use caos_seminars.Encoding.PrintBits.{print_byte, print_bits}
use caos_seminars.Encoding.PrintBits.Parse.{parse, parse-print_bits}

print_bits_shows : print_bits (27 ∷ []) ≡ 48 ∷ 48 ∷ 48 ∷ 49 ∷ 49 ∷ 48 ∷ 49 ∷ 49 ∷ 32 ∷ 10 ∷ []
unfolding print_bits print_byte
print_bits_shows = refl

parse-print_bits_example : parse 0 (print_bits (27 ∷ 0 ∷ [])) ≡ 27 ∷ 0 ∷ []
parse-print_bits_example = parse-print_bits (27 ∷ 0 ∷ []) (omega arith, (omega arith, tt))
