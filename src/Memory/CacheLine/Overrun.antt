-- ===== src/Memory/CacheLine/Overrun.antt =====
-- The benchmark "stride" of cache_line_benchmark.cpp, which takes bytes for elements.
use caos_seminars.Prelude.{
  ℕ, zero, suc, ◌+◌, ◌-◌, ◌/◌, ◌≤◌, ◌<◌, ◌≡◌, refl, inl, inr, true, List, [], ◌∷◌, arith, length,
  replicate, length-replicate, ltb, Bool-cases, some,
}
use caos_seminars.Memory.CacheLine.{
  Run, Benchmark, bump, repeated, strided, benchmark_stride, run_benchmark, measure,
}
use caos_seminars.Memory.CacheLine.Bump.{Visited, Visited-replicate, bump-Goes}

bump_outside : (i : ℕ) (m : List ℕ) → length m ≤ i → bump i m ≡ Run.fault
unfolding bump
bump_outside i [] h = refl
bump_outside zero (x ∷ xs) h = absurd (omega arith)
bump_outside (suc i) (x ∷ xs) h = rw (bump_outside i xs (omega arith)) refl

-- The loop runs past the end of the array if its bound is a stride beyond.
strided_overruns :
    (n size stride fuel i p : ℕ) (m : List ℕ)
    → 0 < stride
    → n + stride ≤ size
    → i < n + stride
    → n + stride - i ≤ fuel
    → p ≤ i
    → length m ≡ n
    → Visited p 0 m
    → strided fuel size stride i m ≡ Run.fault
unfolding strided
strided_overruns n size stride zero i p m pos beyond near enough h same v = absurd (omega arith)
strided_overruns n size stride (suc fuel) i p m pos beyond near enough h same v =
    let on : ltb i size ≡ true = ground arith in
    elim (Bool-cases (ltb i n)) [
      | inl inside ↦
          let (m', runs, same', v') = bump-Goes n 0 (omega arith) p i h (ground arith) m same v in
          rw (on, runs)
            (strided_overruns n size stride fuel (i + stride) (suc i) m' pos beyond (ground arith)
              (omega arith) (omega arith) same' v')
      | inr outside ↦ rw (on, bump_outside i m (ground arith)) refl
    ]

-- The benchmark "stride" accesses memory outside of the array, for every stride up to the number of
-- elements: `main` hands it the size in bytes, and it compares the index with that.
pub measure_overruns :
    (size iterations stride : ℕ) (offsets : List ℕ)
    → 0 < iterations
    → 0 < stride
    → stride ≤ size / 4
    → measure Benchmark.stride size iterations stride offsets ≡ some Run.fault
unfolding measure run_benchmark benchmark_stride repeated
measure_overruns size zero stride offsets rounds pos short = absurd (omega arith)
measure_overruns size (suc left) stride offsets rounds pos short =
    rw
      (strided_overruns (size / 4) size stride (suc size) 0 0 (replicate (size / 4) 0) pos
        (omega arith) (omega arith) (omega arith) (omega arith) (length-replicate (size / 4) 0)
        (Visited-replicate (size / 4)))
      refl
