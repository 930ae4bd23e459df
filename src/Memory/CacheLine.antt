-- ===== src/Memory/CacheLine.antt =====
-- sem06-memory/snippets/latency/cache_line_benchmark.cpp: the benchmarks, and what `main` runs and
-- reports. The array holds `int`s that only grow from 0; indexes stay far below 2 ^ 64.
use caos_seminars.Prelude.{
  ℕ, zero, suc, ◌+◌, ◌-◌, ◌*◌, ◌/◌, ◌%◌, ◌^◌, List, [], ◌∷◌, ltb, leb, if◌then◌else◌, Option, none,
  some, replicate,
}
pub mod Bump
pub mod Passes
pub mod FullLine
pub mod Overrun

abbrev pub ints_per_cache_line : ℕ
ints_per_cache_line = 16

-- `fault`: an access outside of the array, or a signed overflow.
pub data Run (A : Type 0) : Type 0 where
  done : (result : A) → Run A
  fault : Run A
  out_of_fuel : Run A

infixl 5 ◌>>=◌
abbrev pub ◌>>=◌ : {A B : Type 0} → Run A → (A → Run B) → Run B
Run.done a >>= f = f a
Run.fault >>= f = Run.fault
Run.out_of_fuel >>= f = Run.out_of_fuel

abbrev pub Pass : Type 0
Pass = List ℕ → Run (List ℕ)

-- `memory[i]++`
unfoldable pub bump : (i : ℕ) → Pass
bump i [] = Run.fault
bump zero (v ∷ vs) = if ltb (suc v) (2 ^ 31) then Run.done (suc v ∷ vs) else Run.fault
bump (suc i) (v ∷ vs) = bump i vs >>= λ vs'. Run.done (v ∷ vs')

-- `for (int iter = 0; iter < iterations; iter++)`
unfoldable pub repeated : (iterations : ℕ) → Pass → Pass
repeated zero pass memory = Run.done memory
repeated (suc n) pass memory = pass memory >>= repeated n pass

-- `for (size_t i = …; i < size; i += stride) { memory[i]++; }`, on fuel.
unfoldable pub strided : (fuel size stride i : ℕ) → Pass
strided zero size stride i memory = Run.out_of_fuel
strided (suc fuel) size stride i memory =
    let rest = bump i memory >>= strided fuel size stride (i + stride) in
    if ltb i size then rest else Run.done memory

unfoldable pub benchmark_stride : (size stride iterations : ℕ) → Pass
benchmark_stride size stride iterations = repeated iterations (strided (suc size) size stride 0)

-- The inner loop, `left` rounds before `offset` gets to INTS_PER_CACHE_LINE.
unfoldable pub one_full_line : (left elements i : ℕ) → Pass
one_full_line zero elements i memory = Run.done memory
one_full_line (suc left) elements i memory =
    if ltb i elements
    then bump i memory >>= one_full_line left elements (suc i)
    else Run.done memory

-- The loop over the blocks, on fuel.
unfoldable pub full_lines : (fuel elements block : ℕ) → Pass
full_lines zero elements block memory = Run.out_of_fuel
full_lines (suc fuel) elements block memory =
    let rest =
      one_full_line ints_per_cache_line elements block memory
      >>= full_lines fuel elements (block + ints_per_cache_line) in
    if ltb block elements then rest else Run.done memory

unfoldable pub benchmark_cache_line_fully : (size iterations : ℕ) → Pass
benchmark_cache_line_fully size iterations =
    let elements = size / 4 in repeated iterations (full_lines (suc elements) elements 0)

unfoldable pub benchmark_one_per_cache_line : (size iterations : ℕ) → Pass
benchmark_one_per_cache_line size iterations =
    let elements = size / 4 in
    repeated iterations (strided (suc elements) elements ints_per_cache_line 0)

-- `offsets[i]`, for `main`'s array of 16.
abbrev pub at : List ℕ → ℕ → Run ℕ
at [] i = Run.fault
at (o ∷ os) zero = Run.done o
at (o ∷ os) (suc i) = at os i

-- `if (i < elements) { memory[i]++; }`
abbrev pub guarded : (elements i : ℕ) → Pass
guarded elements i memory = if ltb i elements then bump i memory else Run.done memory

-- The loop over the lines, `left` of them before the last.
unfoldable pub random_lines : (left elements line : ℕ) (offsets : List ℕ) → Pass
random_lines zero elements line offsets memory = Run.done memory
random_lines (suc left) elements line offsets memory =
    at offsets (line % ints_per_cache_line)
    >>= (λ offset. guarded elements (line * ints_per_cache_line + offset) memory)
    >>= random_lines left elements (suc line) offsets

unfoldable pub benchmark_random_within_cache_line : (size iterations : ℕ) (offsets : List ℕ) → Pass
benchmark_random_within_cache_line size iterations offsets =
    let elements = size / 4 in
    repeated iterations (random_lines (elements / ints_per_cache_line) elements 0 offsets)

-- The four "threads" of a line, `left` of them before the last.
unfoldable pub sharing_line : (left elements i : ℕ) → Pass
sharing_line zero elements i memory = Run.done memory
sharing_line (suc left) elements i memory =
    guarded elements i memory >>= sharing_line left elements (suc i)

unfoldable pub sharing_lines : (left elements line : ℕ) → Pass
sharing_lines zero elements line memory = Run.done memory
sharing_lines (suc left) elements line memory =
    sharing_line 4 elements (line * ints_per_cache_line) memory
    >>= sharing_lines left elements (suc line)

unfoldable pub benchmark_false_sharing_pattern : (size iterations : ℕ) → Pass
benchmark_false_sharing_pattern size iterations =
    let elements = size / 4 in
    repeated iterations (sharing_lines (elements / ints_per_cache_line) elements 0)

unfoldable pub benchmark_varying_stride : (size stride iterations : ℕ) → Pass
benchmark_varying_stride size stride iterations =
    let elements = size / 4 in repeated iterations (strided (suc elements) elements stride 0)

-- The values of `benchmark_type` that `main` knows, and any other.
pub data Benchmark : Type 0 where
  stride : Benchmark
  full_line : Benchmark
  one_per_line : Benchmark
  random_line : Benchmark
  false_sharing : Benchmark
  varying_stride : Benchmark
  unknown : Benchmark

-- `operations` of `main`
unfoldable pub operations : Benchmark → (elements iterations parameter : ℕ) → ℕ
operations Benchmark.full_line elements iterations parameter = elements * iterations
operations Benchmark.one_per_line elements iterations parameter =
    elements / ints_per_cache_line * iterations
operations Benchmark.random_line elements iterations parameter =
    elements / ints_per_cache_line * iterations
operations Benchmark.false_sharing elements iterations parameter =
    elements / ints_per_cache_line * 4 * iterations
operations Benchmark.stride elements iterations parameter = elements / parameter * iterations
operations Benchmark.varying_stride elements iterations parameter =
    elements / parameter * iterations
operations Benchmark.unknown elements iterations parameter = elements / parameter * iterations

-- The benchmark that `main` runs; `none` for the return of 1 at an unknown type.
unfoldable pub run_benchmark :
    Benchmark → (size_bytes iterations parameter : ℕ) (offsets : List ℕ) → Option Pass
run_benchmark Benchmark.stride size iterations parameter offsets =
    some (benchmark_stride size parameter iterations)
run_benchmark Benchmark.full_line size iterations parameter offsets =
    some (benchmark_cache_line_fully size iterations)
run_benchmark Benchmark.one_per_line size iterations parameter offsets =
    some (benchmark_one_per_cache_line size iterations)
run_benchmark Benchmark.random_line size iterations parameter offsets =
    some (benchmark_random_within_cache_line size iterations offsets)
run_benchmark Benchmark.false_sharing size iterations parameter offsets =
    some (benchmark_false_sharing_pattern size iterations)
run_benchmark Benchmark.varying_stride size iterations parameter offsets =
    some (benchmark_varying_stride size parameter iterations)
run_benchmark Benchmark.unknown size iterations parameter offsets = none

-- `main` once its arguments are read: the array at the end and `operations`, or a return of 1.
unfoldable pub measure :
    Benchmark → (size_bytes iterations parameter : ℕ) (offsets : List ℕ) → Option (Run (List ℕ × ℕ))
measure kind size_bytes iterations parameter offsets =
    let elements = size_bytes / 4 in
    elim (run_benchmark kind size_bytes iterations parameter offsets) [
      | none ↦ none
      | some pass ↦ some (
          pass (replicate elements 0) >>= λ memory.
          Run.done (memory, operations kind elements iterations parameter))
    ]
