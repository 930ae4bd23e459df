-- ===== src/Memory/Traversal/Measurements.antt =====
-- sem06-memory/snippets/latency/list_traversal.cpp: `main`, which calls `time` for growing sizes. What
-- `pow` and `round` make of them is a parameter, and each call has a shuffle of its own. An allocation that
-- fails, which ends the program with a message, is left out.
use caos_seminars.Prelude.{
  ℕ, zero, suc, ◌+◌, ◌-◌, ◌*◌, ◌^◌, ◌≤◌, ◌<◌, ◌≡◌, refl, ap, List, [], ◌∷◌, length, replicate, ltb,
  if◌then◌else◌, arith, length-replicate,
}
use caos_seminars.Memory.Traversal.{Run, ◌>>=◌, addresses, time}
use caos_seminars.Memory.Traversal.Visits.{count, time-visits}

abbrev stops_per_factor : ℕ
stops_per_factor = 4

-- `min` and `max` of `main`: the least and the greatest `ei`.
abbrev pub min_ei : ℕ
min_ei = stops_per_factor * 6

abbrev pub max_ei : ℕ
max_ei = stops_per_factor * 30

-- A line of the output, less the time, and the nodes that each traversal went through.
pub record Measurement : Type 0 where
  pub bytes : ℕ
  pub elements : ℕ
  pub reps : ℕ
  pub visited : List (List ℕ)

-- `elements ei` is `round(pow(2.0, double(ei) / stopsPerFactor))`, and `repetitions n` is
-- `round(2e10 / pow(n, 1.5))`.
module _ (elements repetitions : ℕ → ℕ) (shuffle : (ei : ℕ) → List ℕ → List ℕ) where
  -- `if (reps<1) reps = 1`
  abbrev pub at_least_one : ℕ → ℕ
  at_least_one reps = if ltb reps 1 then 1 else reps

  -- A round of the loop. A traversal runs on fuel for as many nodes as there are.
  unfoldable pub measure : (ei : ℕ) → Run Measurement
  measure ei =
      let n = elements ei in
      let reps = at_least_one (repetitions n) in
      time (shuffle ei) n n reps >>= λ visited.
      Run.done (record { bytes = n * 16; elements = n; reps = reps; visited = visited })

  -- The loop, `left` rounds before its end.
  unfoldable pub measurements : (left ei : ℕ) → Run (List Measurement)
  unfolding measure
  measurements zero ei = Run.done []
  measurements (suc left) ei =
      measure ei >>= λ m. measurements left (suc ei) >>= λ rest. Run.done (m ∷ rest)

  unfoldable pub main : Run (List Measurement)
  unfolding measurements
  main = measurements (max_ei + 1 - min_ei) min_ei

  -- Every traversal has gone through each of `n` nodes once.
  abbrev pub AllOnce : (n : ℕ) → List (List ℕ) → Type 0
  AllOnce n [] = Unit
  AllOnce n (nodes ∷ rest) =
      ((length nodes ≡ n) × ((a : ℕ) → count a nodes ≡ (if ltb a n then 1 else 0))) × AllOnce n rest

  -- The measurements for `ei` from `ei` on: of the size asked for, with one traversal or more.
  abbrev pub AllMeasured : (ei : ℕ) → List Measurement → Type 0
  AllMeasured ei [] = Unit
  AllMeasured ei (m ∷ ms) =
      (m.elements ≡ elements ei)
      × (0 < m.reps)
      × (length m.visited ≡ m.reps)
      × AllOnce m.elements m.visited
      × AllMeasured (suc ei) ms

  replicate-AllOnce :
      (n k : ℕ) (nodes : List ℕ)
      → length nodes ≡ n
      → ((a : ℕ) → count a nodes ≡ (if ltb a n then 1 else 0))
      → AllOnce n (replicate k nodes)
  replicate-AllOnce n zero nodes size once = tt
  replicate-AllOnce n (suc k) nodes size once =
      ((size, once), replicate-AllOnce n k nodes size once)

  at_least_one_positive : (reps : ℕ) → 0 < at_least_one reps
  at_least_one_positive reps = ground arith

  -- The sizes are not 0, and a shuffle puts the elements in another order.
  module _ (sizes : (ei : ℕ) → ei ≤ max_ei → (0 < elements ei) × (elements ei < 2 ^ 64))
      (shuffle_count : (ei : ℕ) (xs : List ℕ) (a : ℕ) → count a (shuffle ei xs) ≡ count a xs)
      (shuffle_length : (ei : ℕ) (xs : List ℕ) → length (shuffle ei xs) ≡ length xs) where
    measure-done :
        (ei : ℕ)
        → ei ≤ max_ei
        → (m : Measurement) × (measure ei ≡ Run.done m)
          × (m.elements ≡ elements ei)
          × (0 < m.reps)
          × (length m.visited ≡ m.reps)
          × AllOnce m.elements m.visited
    unfolding measure
    measure-done ei few =
        let n = elements ei in
        let reps = at_least_one (repetitions n) in
        let nodes = shuffle ei (addresses n 0) in
        let (runs, size, once) =
          time-visits (shuffle ei) (shuffle_count ei) (shuffle_length ei) n n reps (sizes ei few).0
            (sizes ei few).1 (omega arith) in
        (
          record { bytes = n * 16; elements = n; reps = reps; visited = replicate reps nodes },
          rw (runs, measure) refl,
          refl,
          at_least_one_positive (repetitions n),
          length-replicate reps nodes,
          replicate-AllOnce n reps nodes size once,
        )

    measurements-AllMeasured :
        (left ei : ℕ)
        → ei + left ≤ suc max_ei
        → (ms : List Measurement) × (measurements left ei ≡ Run.done ms)
          × (length ms ≡ left)
          × AllMeasured ei ms
    unfolding measurements
    measurements-AllMeasured zero ei few = ([], refl, refl, tt)
    measurements-AllMeasured (suc left) ei few =
        let (m, runs, same, some_reps, each, once) = measure-done ei (omega (arith, few)) in
        let (ms, others, size, all) = measurements-AllMeasured left (suc ei) (omega (arith, few)) in
        (m ∷ ms, rw (runs, others) refl, ap suc size, (same, some_reps, each, once, all))

    -- If the sizes that `pow` gives are not 0 and fit 64 bits, `main` comes to its end with 97
    -- measurements. Each is of the size for its step, and has one traversal or more, each of which
    -- goes through each node of the memory once, for any orders that the shuffles make.
    pub main-AllMeasured :
        (ms : List Measurement) × (main ≡ Run.done ms) × (length ms ≡ 97) × AllMeasured min_ei ms
    unfolding main
    main-AllMeasured = measurements-AllMeasured 97 min_ei (omega arith)
