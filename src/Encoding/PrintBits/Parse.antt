-- ===== src/Encoding/PrintBits/Parse.antt =====
-- A reader of the text that `printBits` of sem02-data-encoding/print_int.c prints.
use caos_seminars.Prelude.{
  ℕ, zero, suc, ◌+◌, ◌-◌, ◌*◌, ◌/◌, ◌%◌, ◌^◌, ◌<◌, ◌≡◌, refl, ap, ◌∙◌, List, [], ◌∷◌, ◌++◌, arith,
  ◌==◌, if◌then◌else◌, false,
}
use caos_seminars.Encoding.PrintBits.{print_byte, print_bits}

-- Digits in base 2, the most significant first; a blank ends a number, and a newline the text.
abbrev pub parse : (acc : ℕ) (text : List ℕ) → List ℕ
parse acc [] = []
parse acc (c ∷ cs) =
    let number = acc ∷ parse 0 cs in
    let digit = parse (acc * 2 + (c - 48)) cs in
    if c == 10 then [] else if c == 32 then number else digit

abbrev pub AreBytes : List ℕ → Type 0
AreBytes [] = Unit
AreBytes (b ∷ bs) = (b < 256) × AreBytes bs

parse-digit : (acc d : ℕ) (cs : List ℕ) → parse acc ((48 + d) ∷ cs) ≡ parse (acc * 2 + d) cs
parse-digit acc d cs =
    let newline : ((48 + d) == 10) ≡ false = ground arith in
    let blank : ((48 + d) == 32) ≡ false = ground arith in
    let same : 48 + d - 48 ≡ d = omega arith in rw (newline, blank, same) refl

-- What the reader has after `count` digits of `byte`.
abbrev value : (acc count byte : ℕ) → ℕ
value acc zero byte = acc
value acc (suc j) byte = value (acc * 2 + byte / 2 ^ j % 2) j byte

value-byte : (b : ℕ) → b < 256 → value 0 8 b ≡ b
value-byte b small = omega arith

parse-print_byte :
    (acc count b : ℕ) (cs : List ℕ)
    → parse acc (print_byte count b ++ cs) ≡ parse (value acc count b) cs
unfolding print_byte
parse-print_byte acc zero b cs = refl
parse-print_byte acc (suc j) b cs =
    parse-digit acc (b / 2 ^ j % 2) (print_byte j b ++ cs)
    ∙ parse-print_byte (acc * 2 + b / 2 ^ j % 2) j b cs

-- The text that `printBits` prints of bytes, read as binary numbers with the most significant digit
-- first, gives the bytes back in the order in which they stand in memory.
pub parse-print_bits : (bytes : List ℕ) → AreBytes bytes → parse 0 (print_bits bytes) ≡ bytes
unfolding print_bits
parse-print_bits [] h = refl
parse-print_bits (b ∷ bs) (small, h) =
    parse-print_byte 0 8 b (32 ∷ print_bits bs)
    ∙ ap (λ n. n ∷ parse 0 (print_bits bs)) (value-byte b small)
    ∙ ap (λ l. b ∷ l) (parse-print_bits bs h)
