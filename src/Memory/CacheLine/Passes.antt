-- ===== src/Memory/CacheLine/Passes.antt =====
-- The benchmarks of cache_line_benchmark.cpp stay within the array.
use caos_seminars.Prelude.{
  ℕ, zero, suc, ◌+◌, ◌-◌, ◌*◌, ◌/◌, ◌%◌, ◌^◌, ◌≤◌, ◌<◌, ◌≡◌, refl, inl, inr, List, [], ◌∷◌, arith,
  length, replicate, length-replicate, ltb, Bool-cases, Option, some,
}
use caos_seminars.Memory.CacheLine.{
  Run, ◌>>=◌, Pass, Benchmark, bump, guarded, repeated, strided, one_full_line, full_lines, at,
  random_lines, sharing_line, sharing_lines, benchmark_cache_line_fully,
  benchmark_one_per_cache_line, benchmark_random_within_cache_line, benchmark_false_sharing_pattern,
  benchmark_varying_stride, run_benchmark, measure,
}
use caos_seminars.Memory.CacheLine.Bump.{
  Visited, Visited-replicate, Goes, Ends, Goes->>=, Ends->>=, Goes-done, Ends-done, bump-Goes,
  guarded-Goes,
}

-- What `main` fills its array of offsets with: the numbers below 16, in some order.
abbrev pub AllBelow : ℕ → List ℕ → Type 0
AllBelow n [] = Unit
AllBelow n (o ∷ os) = (o < n) × AllBelow n os

at-AllBelow :
    (n : ℕ) (os : List ℕ) (i : ℕ)
    → AllBelow n os
    → i < length os
    → (o : ℕ) × (at os i ≡ Run.done o) × (o < n)
at-AllBelow n [] i h inside = absurd (omega arith)
at-AllBelow n (o ∷ os) zero (h, hs) inside = (o, refl, h)
at-AllBelow n (o ∷ os) (suc i) (h, hs) inside = at-AllBelow n os i hs (omega arith)

module _ (n k : ℕ) (small : suc k < 2 ^ 31) where
  strided-Ends :
      (fuel stride i p : ℕ)
      → 0 < stride
      → n - i < fuel
      → p ≤ i
      → Ends n k p (strided fuel n stride i)
  unfolding strided
  strided-Ends zero stride i p pos enough h m size v = absurd (omega arith)
  strided-Ends (suc fuel) stride i p pos enough h m size v = elim (Bool-cases (ltb i n)) [
    | inl inside ↦ rw inside (
        Ends->>= n k p (suc i) (bump i) (strided fuel n stride (i + stride))
          (bump-Goes n k small p i h (ground arith))
          (strided-Ends fuel stride (i + stride) (suc i) pos (ground arith) (omega arith)) m size v)
    | inr outside ↦ rw outside (Ends-done n k p m size v)
  ]

  one_full_line-Goes : (left i p : ℕ) → p ≤ i → Goes n k p (i + left) (one_full_line left n i)
  unfolding one_full_line
  one_full_line-Goes zero i p h m size v = Goes-done n k p (i + 0) (omega arith) m size v
  one_full_line-Goes (suc left) i p h m size v = elim (Bool-cases (ltb i n)) [
    | inl inside ↦
        let same : suc i + left ≡ i + suc left = omega arith in
        rw (inside, ← same)
          (Goes->>= n k p (suc i) (suc i + left) (bump i) (one_full_line left n (suc i))
            (bump-Goes n k small p i h (ground arith))
            (one_full_line-Goes left (suc i) (suc i) (omega arith)) m size v)
    | inr outside ↦ rw outside (Goes-done n k p (i + suc left) (omega arith) m size v)
  ]

  full_lines-Ends :
      (fuel block p : ℕ) → n - block < fuel → p ≤ block → Ends n k p (full_lines fuel n block)
  unfolding full_lines
  full_lines-Ends zero block p enough h m size v = absurd (omega arith)
  full_lines-Ends (suc fuel) block p enough h m size v = elim (Bool-cases (ltb block n)) [
    | inl inside ↦ rw inside (
        Ends->>= n k p (block + 16) (one_full_line 16 n block) (full_lines fuel n (block + 16))
          (one_full_line-Goes 16 block p h)
          (full_lines-Ends fuel (block + 16) (block + 16) (ground arith) (omega arith)) m size v)
    | inr outside ↦ rw outside (Ends-done n k p m size v)
  ]

  sharing_line-Goes : (left i p : ℕ) → p ≤ i → Goes n k p (i + left) (sharing_line left n i)
  unfolding sharing_line
  sharing_line-Goes zero i p h m size v = Goes-done n k p (i + 0) (omega arith) m size v
  sharing_line-Goes (suc left) i p h m size v =
      let same : suc i + left ≡ i + suc left = omega arith in
      rw (← same) (
        Goes->>= n k p (suc i) (suc i + left) (guarded n i) (sharing_line left n (suc i))
          (guarded-Goes n k small p i h) (sharing_line-Goes left (suc i) (suc i) (omega arith)) m
          size v)

  sharing_lines-Ends : (left line p : ℕ) → p ≤ line * 16 → Ends n k p (sharing_lines left n line)
  unfolding sharing_lines
  sharing_lines-Ends zero line p h = Ends-done n k p
  sharing_lines-Ends (suc left) line p h =
      Ends->>= n k p (line * 16 + 4) (sharing_line 4 n (line * 16))
        (sharing_lines left n (suc line)) (sharing_line-Goes 4 (line * 16) p h)
        (sharing_lines-Ends left (suc line) (line * 16 + 4) (omega arith))

  module _ (offsets : List ℕ) (sixteen : length offsets ≡ 16) (below : AllBelow 16 offsets) where
    random_lines-Ends :
        (left line p : ℕ) → p ≤ line * 16 → Ends n k p (random_lines left n line offsets)
    unfolding random_lines
    random_lines-Ends zero line p h m size v = Ends-done n k p m size v
    random_lines-Ends (suc left) line p h m size v =
        let (o, found, small_offset) =
          at-AllBelow 16 offsets (line % 16) below (omega (arith, sixteen)) in
        rw found (
          Ends->>= n k p (suc (line * 16 + o)) (guarded n (line * 16 + o))
            (random_lines left n (suc line) offsets)
            (guarded-Goes n k small p (line * 16 + o) (omega arith))
            (random_lines-Ends left (suc line) (suc (line * 16 + o)) (omega arith)) m size v)

-- All rounds.
abbrev Counts : (n k : ℕ) → Run (List ℕ) → Type 0
Counts n k run = (m : List ℕ) × (run ≡ Run.done m) × (length m ≡ n) × Visited 0 k m

repeated-Counts :
    (n : ℕ) (pass : Pass)
    → ((k : ℕ) → suc k < 2 ^ 31 → Ends n k 0 pass)
    → (iterations k : ℕ) (m : List ℕ) → k + iterations < 2 ^ 31
    → length m ≡ n
    → Visited 0 k m
    → Counts n (k + iterations) (repeated iterations pass m)
unfolding repeated
repeated-Counts n pass ends zero k m small size v =
    let same : k + 0 ≡ k = omega arith in (m, refl, size, rw same v)
repeated-Counts n pass ends (suc left) k m small size v =
    let (m1, runs, size1, v1) = ends k (omega arith) m size v in
    let same : suc k + left ≡ k + suc left = omega arith in
    rw (runs, ← same) (repeated-Counts n pass ends left (suc k) m1 (omega arith) size1 v1)

repeated_from_zero :
    (n : ℕ) (pass : Pass)
    → ((k : ℕ) → suc k < 2 ^ 31 → Ends n k 0 pass)
    → (iterations : ℕ) → iterations < 2 ^ 31
    → Counts n iterations (repeated iterations pass (replicate n 0))
repeated_from_zero n pass ends iterations small =
    let same : 0 + iterations ≡ iterations = omega arith in
    rw same at (
      repeated-Counts n pass ends iterations 0 (replicate n 0) (omega arith) (length-replicate n 0)
        (Visited-replicate n))

-- The types that `main` accepts but "stride".
abbrev pub IsChecked : Benchmark → Type 0
IsChecked Benchmark.stride = ⊥
IsChecked Benchmark.unknown = ⊥
IsChecked _ = Unit

-- The run ends with an array of `elements` that were each counted `iterations` times at most.
abbrev pub Stays : (elements iterations : ℕ) → Option (Run (List ℕ × ℕ)) → Type 0
Stays elements iterations (some (Run.done (memory, reported))) =
    (length memory ≡ elements) × Visited 0 iterations memory
Stays elements iterations _ = ⊥

Stays-Counts :
    (n iterations reported : ℕ) (run : Run (List ℕ))
    → Counts n iterations run
    → Stays n iterations (some (run >>= λ memory. Run.done (memory, reported)))
Stays-Counts n iterations reported run (m, runs, size, v) = rw runs (size, v)

module _ (size iterations parameter : ℕ) (offsets : List ℕ) (small : iterations < 2 ^ 31)
    (positive : 0 < parameter) (sixteen : length offsets ≡ 16) (below : AllBelow 16 offsets) where
  abbrev elements : ℕ
  elements = size / 4

  -- Whatever the size of the array, for a parameter from 1 on, fewer than 2^31 iterations and 16
  -- offsets below 16, each benchmark but "stride" terminates, accesses no element outside of the array
  -- and overflows no counter: no element is counted twice in a round.
  pub measure-Stays :
      (kind : Benchmark)
      → IsChecked kind
      → Stays elements iterations (measure kind size iterations parameter offsets)
  unfolding measure run_benchmark benchmark_cache_line_fully benchmark_one_per_cache_line
      benchmark_random_within_cache_line benchmark_false_sharing_pattern benchmark_varying_stride
  measure-Stays Benchmark.stride checked = absurd checked
  measure-Stays Benchmark.unknown checked = absurd checked
  measure-Stays Benchmark.full_line checked = Stays-Counts elements iterations _ _ (
      repeated_from_zero elements _
        (λ k fits. full_lines-Ends elements k fits (suc elements) 0 0 (omega arith) (omega arith))
        iterations small)
  measure-Stays Benchmark.one_per_line checked = Stays-Counts elements iterations _ _ (
      repeated_from_zero elements _
        (λ k fits.
          strided-Ends elements k fits (suc elements) 16 0 0 (omega arith) (omega arith)
            (omega arith))
        iterations small)
  measure-Stays Benchmark.random_line checked = Stays-Counts elements iterations _ _ (
      repeated_from_zero elements _
        (λ k fits.
          random_lines-Ends elements k fits offsets sixteen below (elements / 16) 0 0 (omega arith))
        iterations small)
  measure-Stays Benchmark.false_sharing checked = Stays-Counts elements iterations _ _ (
      repeated_from_zero elements _
        (λ k fits. sharing_lines-Ends elements k fits (elements / 16) 0 0 (omega arith)) iterations
        small)
  measure-Stays Benchmark.varying_stride checked = Stays-Counts elements iterations _ _ (
      repeated_from_zero elements _
        (λ k fits.
          strided-Ends elements k fits (suc elements) parameter 0 0 positive (omega arith)
            (omega arith))
        iterations small)
