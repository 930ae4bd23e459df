-- ===== src/Memory/CacheLine/FullLine.antt =====
-- What the benchmark "full_line" of cache_line_benchmark.cpp counts and reports.
use caos_seminars.Prelude.{
  ℕ, zero, suc, ◌+◌, ◌-◌, ◌*◌, ◌/◌, ◌^◌, ◌≤◌, ◌<◌, ◌≡◌, refl, ap, ◌∙◌, inl, inr, true, false, List,
  [], ◌∷◌, ◌++◌, append-nil, arith, replicate, ltb, lt→ltb, Bool-cases, some,
}
use native.Mathlib.Nat.{suc-mul}
use caos_seminars.Memory.CacheLine.{
  Run, Benchmark, bump, repeated, one_full_line, full_lines, benchmark_cache_line_fully,
  run_benchmark, operations, measure,
}

abbrev pub sum : List ℕ → ℕ
sum [] = 0
sum (x ∷ xs) = x + sum xs

pub sum-replicate : (n k : ℕ) → sum (replicate n k) ≡ n * k
sum-replicate zero k = omega arith
sum-replicate (suc n) k = omega (arith, sum-replicate n k, suc-mul n k)

module _ (k : ℕ) where
  -- An array in a round: `p` elements were counted once more than the `r` that follow.
  abbrev half : (p r : ℕ) → List ℕ
  half p r = replicate p (suc k) ++ replicate r k

  module _ (small : suc k < 2 ^ 31) where
    bump-half : (p r : ℕ) → bump p (half p (suc r)) ≡ Run.done (half (suc p) r)
    unfolding bump
    bump-half zero r = rw (lt→ltb (suc k) (2 ^ 31) small) refl
    bump-half (suc p) r = rw (bump-half p r) refl

    -- A whole line of the array, and a part of one at its end.
    one_full_line-half :
        (n left p r r' : ℕ)
        → r ≡ left + r'
        → n ≡ p + r
        → one_full_line left n p (half p r) ≡ Run.done (half (p + left) r')
    unfolding one_full_line
    one_full_line-half n zero p r r' e f =
        let here : p + 0 ≡ p = omega arith in
        let same : r ≡ r' = omega arith in rw (here, same) refl
    one_full_line-half n (suc left) p zero r' e f = absurd (omega arith)
    one_full_line-half n (suc left) p (suc r) r' e f =
        let inside : ltb p n ≡ true = ground arith in
        let next : p + suc left ≡ suc p + left = omega arith in
        rw (inside, bump-half p r, next)
          (one_full_line-half n left (suc p) r r' (omega arith) (omega arith))

    one_full_line_end :
        (n left p r : ℕ)
        → r ≤ left
        → n ≡ p + r
        → one_full_line left n p (half p r) ≡ Run.done (half (p + r) 0)
    unfolding one_full_line
    one_full_line_end n zero p r e f =
        let none_left : r ≡ 0 = omega arith in
        let here : p + 0 ≡ p = omega arith in rw (none_left, here) refl
    one_full_line_end n (suc left) p zero e f =
        let outside : ltb p n ≡ false = ground arith in
        let here : p + 0 ≡ p = omega arith in rw (outside, here) refl
    one_full_line_end n (suc left) p (suc r) e f =
        let inside : ltb p n ≡ true = ground arith in
        let next : p + suc r ≡ suc p + r = omega arith in
        rw (inside, bump-half p r, next)
          (one_full_line_end n left (suc p) r (omega arith) (omega arith))

    full_lines_over :
        (n fuel block : ℕ) (m : List ℕ)
        → 0 < fuel
        → n ≤ block
        → full_lines fuel n block m ≡ Run.done m
    unfolding full_lines
    full_lines_over n zero block m some_fuel h = absurd (omega arith)
    full_lines_over n (suc fuel) block m some_fuel h =
        let outside : ltb block n ≡ false = ground arith in rw outside refl

    full_lines-half :
        (n fuel p r : ℕ)
        → r < fuel
        → n ≡ p + r
        → full_lines fuel n p (half p r) ≡ Run.done (half n 0)
    unfolding full_lines
    full_lines-half n zero p r enough e = absurd (omega arith)
    full_lines-half n (suc fuel) p zero enough e =
        let whole : p ≡ n = omega arith in
        let outside : ltb p n ≡ false = ground arith in rw (outside, whole) refl
    full_lines-half n (suc fuel) p (suc r) enough e =
        let inside : ltb p n ≡ true = ground arith in
        elim (Bool-cases (ltb r 16)) [
          | inl last ↦
              let whole : p + suc r ≡ n = omega arith in
              rw (inside, one_full_line_end n 16 p (suc r) (ground arith) e, whole)
                (full_lines_over n fuel (p + 16) (half n 0) (ground arith) (ground arith))
          | inr more ↦
              rw (inside, one_full_line-half n 16 p (suc r) (suc r - 16) (ground arith) e)
                (full_lines-half n fuel (p + 16) (suc r - 16) (ground arith) (ground arith))
        ]

full_lines-replicate :
    (n k : ℕ)
    → suc k < 2 ^ 31
    → full_lines (suc n) n 0 (replicate n k) ≡ Run.done (replicate n (suc k))
full_lines-replicate n k small =
    full_lines-half k small n (suc n) 0 n (omega arith) (omega arith)
    ∙ ap Run.done (append-nil (replicate n (suc k)))

repeated-replicate :
    (n iterations k : ℕ)
    → k + iterations < 2 ^ 31
    → repeated iterations (full_lines (suc n) n 0) (replicate n k)
      ≡ Run.done (replicate n (k + iterations))
unfolding repeated
repeated-replicate n zero k small = let same : k + 0 ≡ k = omega arith in rw same refl
repeated-replicate n (suc left) k small =
    let same : k + suc left ≡ suc k + left = omega arith in
    rw (full_lines-replicate n k (omega arith), same)
      (repeated-replicate n left (suc k) (omega arith))

-- The benchmark "full_line" counts every element of the array once in each iteration, also if the
-- last line is not a whole one, and `main` reports the number of increments that it has made.
pub measure-full_line :
    (size iterations parameter : ℕ) (offsets : List ℕ)
    → iterations < 2 ^ 31
    → let memory = replicate (size / 4) iterations in
      measure Benchmark.full_line size iterations parameter offsets
      ≡ some (Run.done (memory, sum memory))
unfolding measure run_benchmark benchmark_cache_line_fully operations
measure-full_line size iterations parameter offsets small =
    let same : 0 + iterations ≡ iterations = omega arith in
    rw
      (
        repeated-replicate (size / 4) iterations 0 (omega arith),
        same,
        sum-replicate (size / 4) iterations,
      )
      refl
