-- ===== src/Tests/MemoryTests.antt =====
-- The programs of sem06-memory on small arrays, matrices and lists.
use caos_seminars.Prelude.{
  ℕ, ◌+◌, ◌%◌, ◌^◌, ◌≡◌, refl, List, [], ◌∷◌, ◌++◌, some, arith, replicate, length, ltb,
  if◌then◌else◌, ◌==◌, ◌*◌,
}
use caos_seminars.Memory.CacheLine.{Benchmark, Run, measure}
use caos_seminars.Memory.CacheLine.Passes.{Stays, measure-Stays}
use caos_seminars.Memory.CacheLine.FullLine.{measure-full_line, sum}
use caos_seminars.Memory.CacheLine.Overrun.{measure_overruns}
use caos_seminars.Memory.Matmul.{Matrix, naive, fast, for_range, transpose, count, fill, main}
use caos_seminars.Memory.Matmul.Product.{naive-products, products, fast-naive}
use caos_seminars.Memory.Traversal.{addresses, time, link_nodes, traverse, traversals}
use caos_seminars.Memory.Traversal
use caos_seminars.Memory.Traversal.Measurements
use caos_seminars.Memory.Traversal.Measurements.{Measurement, AllMeasured, main-AllMeasured}
use caos_seminars.Memory.Traversal.Visits
use caos_seminars.Memory.Traversal.Visits.{time-visits}

abbrev offsets : List ℕ
offsets = 3 ∷ 15 ∷ 0 ∷ 1 ∷ 2 ∷ 4 ∷ 5 ∷ 6 ∷ 7 ∷ 8 ∷ 9 ∷ 10 ∷ 11 ∷ 12 ∷ 13 ∷ 14 ∷ []

measure-Stays_example : Stays 18 2 (measure Benchmark.random_line 72 2 1 offsets)
measure-Stays_example =
    measure-Stays 72 2 1 offsets (omega arith) (omega arith) refl (omega arith)
      Benchmark.random_line tt

measure_whole_lines :
    measure Benchmark.full_line 72 2 1 offsets
    ≡ some (Run.done (replicate 18 2, sum (replicate 18 2)))
measure_whole_lines = measure-full_line 72 2 1 offsets (omega arith)

measure_overruns_example : measure Benchmark.stride 72 2 16 offsets ≡ some Run.fault
measure_overruns_example =
    measure_overruns 72 2 16 offsets (omega arith) (omega arith) (omega arith)

abbrev left_matrix : Matrix
left_matrix i j = i + 2 * j

abbrev right_matrix : Matrix
right_matrix i j = 3 * i + j

abbrev zeros : Matrix
zeros i j = 0

naive-products_example :
    naive 2 left_matrix right_matrix zeros 1 0
    ≡ (0 + products 2 0 (left_matrix 1) (λ k. right_matrix k 0)) % 2 ^ 32
naive-products_example =
    naive-products 2 left_matrix right_matrix zeros 1 0 (omega arith) (omega arith) (omega arith)

fast-naive_example :
    fast 2 left_matrix right_matrix left_matrix zeros ≡ naive 2 left_matrix right_matrix zeros
fast-naive_example = fast-naive 2 left_matrix right_matrix left_matrix zeros

-- Matrices of two rows with rand() = 1, 2, 3, …: the sum of the product of the two.
main_sums : main (λ calls. calls + 1) 2 zeros zeros zeros left_matrix ≡ 176
unfolding main fill fast transpose count for_range
main_sums = refl

-- A shuffle that puts the first element last.
abbrev rotate : List ℕ → List ℕ
rotate [] = []
rotate (x ∷ xs) = xs ++ (x ∷ [])

count-append_one :
    (xs : List ℕ) (x a : ℕ)
    → Visits.count a (xs ++ (x ∷ [])) ≡ (if a == x then 1 else 0) + Visits.count a xs
count-append_one [] x a = omega arith
count-append_one (y ∷ ys) x a = omega (arith, count-append_one ys x a)

count-rotate : (xs : List ℕ) (a : ℕ) → Visits.count a (rotate xs) ≡ Visits.count a xs
count-rotate [] a = refl
count-rotate (x ∷ xs) a = count-append_one xs x a

length-append_one : (xs : List ℕ) (x : ℕ) → length (xs ++ (x ∷ [])) ≡ length (x ∷ xs)
length-append_one [] x = refl
length-append_one (y ∷ ys) x = omega (arith, length-append_one ys x)

length-rotate : (xs : List ℕ) → length (rotate xs) ≡ length xs
length-rotate [] = refl
length-rotate (x ∷ xs) = length-append_one xs x

rotated_visits :
    (time rotate 4 3 2 ≡ Traversal.Run.done (replicate 2 (1 ∷ 2 ∷ 0 ∷ [])))
    × (length (rotate (addresses 3 0)) ≡ 3)
    × ((a : ℕ) → Visits.count a (rotate (addresses 3 0)) ≡ (if ltb a 3 then 1 else 0))
rotated_visits =
    time-visits rotate count-rotate length-rotate 4 3 2 (omega arith) (omega arith) (omega arith)

-- Sizes from 25 to 121, two traversals of each, and a list that is turned by one.
abbrev size_of : ℕ → ℕ
size_of ei = ei + 1

abbrev twice : ℕ → ℕ
twice n = 2

main-AllMeasured_example :
    (ms : List Measurement) × (Measurements.main size_of twice (λ ei. rotate)
      ≡ Traversal.Run.done ms)
    × (length ms ≡ 97)
    × AllMeasured size_of twice (λ ei. rotate) Measurements.min_ei ms
main-AllMeasured_example =
    main-AllMeasured size_of twice (λ ei. rotate) (λ ei few. (omega arith, omega (arith, few)))
      (λ ei. count-rotate) (λ ei. length-rotate)
