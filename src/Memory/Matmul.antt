-- ===== src/Memory/Matmul.antt =====
-- sem06-memory/snippets/matmul/naive.cpp. An `int` is its bit pattern, below 2 ^ 32; `+` and `*` wrap
-- around, as compilers have it where the standard leaves signed overflow undefined.
use caos_seminars.Prelude.{ℕ, zero, suc, ◌+◌, ◌-◌, ◌*◌, ◌%◌, ◌^◌, ltb, ◌==◌, if◌then◌else◌}
pub mod Sweep
pub mod Product

abbrev pub Matrix : Type 0
Matrix = (i j : ℕ) → ℕ

-- `m[i][j] = v`
abbrev pub store : Matrix → (i j v : ℕ) → Matrix
store m i j v a b = if a == i then (if b == j then v else m a b) else m a b

-- `for (int i = from; i < from + left; ++i)`
unfoldable pub for_range {ℓ} : {S : Type ℓ} → (left from : ℕ) → (ℕ → S → S) → S → S
for_range zero i body s = s
for_range (suc left) i body s = for_range left (suc i) body (body i s)

abbrev pub add_mul : (acc x y : ℕ) → ℕ
add_mul acc x y = (acc + x * y) % 2 ^ 32

unfoldable pub naive : (n : ℕ) (m1 m2 res : Matrix) → Matrix
naive n m1 m2 = for_range n 0 (λ i.
    for_range n 0
      (λ j. for_range n 0 (λ k res. store res i j (add_mul (res i j) (m1 i k) (m2 k j)))))

-- The loops that fill `m2T`; `m2_t` is what it holds before.
unfoldable pub transpose : (n : ℕ) (m2 m2_t : Matrix) → Matrix
transpose n m2 = for_range n 0 (λ i. for_range n 0 (λ j t. store t i j (m2 j i)))

unfoldable pub fast : (n : ℕ) (m1 m2 m2_t res : Matrix) → Matrix
fast n m1 m2 m2_t =
    let t = transpose n m2 m2_t in
    for_range n 0 (λ i.
      for_range n 0
        (λ j. for_range n 0 (λ k res. store res i j (add_mul (res i j) (m1 i k) (t j k)))))

-- `cnt += res[i][j]`: the `int` is converted to `uint64_t`.
abbrev pub widen : ℕ → ℕ
widen w = if ltb w (2 ^ 31) then w else w + (2 ^ 64 - 2 ^ 32)

unfoldable pub count : (n : ℕ) (res : Matrix) → ℕ
count n res = for_range n 0 (λ i. for_range n 0 (λ j cnt. (cnt + widen (res i j)) % 2 ^ 64)) 0

-- The loops of `main` that fill `m1`, `m2` and `res`; `rand k` is the value number `k` of `rand()`.
unfoldable pub fill : (rand : ℕ → ℕ) (n : ℕ) (m1 m2 res : Matrix) → Matrix × Matrix × Matrix × ℕ
fill rand n m1 m2 res =
    for_range n 0
      (λ i. for_range n 0 (λ j (a, b, c, calls).
        (store a i j (rand calls), store b i j (rand (suc calls)), store c i j 0, suc (suc calls))))
      (m1, m2, res, 0)

-- `main`, with the sum that it prints; the other arguments are what the arrays hold at the start.
unfoldable pub main : (rand : ℕ → ℕ) (n : ℕ) (m1 m2 m2_t res : Matrix) → ℕ
main rand n m1 m2 m2_t res =
    let (a, b, c, calls) = fill rand n m1 m2 res in count n (fast n a b m2_t c)
