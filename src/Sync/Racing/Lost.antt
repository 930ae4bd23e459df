-- ===== src/Sync/Racing/Lost.antt =====
-- no-sync/no-sync.c: a schedule in which all increments but two are lost, and one that loses none.
use caos_seminars.Prelude.{
  ℕ, zero, suc, ◌+◌, ◌*◌, ◌≤◌, ◌<◌, ◌≡◌, refl, ◌∙◌, List, [], ◌∷◌, ◌++◌, none, some, replicate,
  arith, lt→ltb,
}
use mathlib.Core.Path.{ap, ap₂}
use native.Mathlib.Nat.{suc-mul}
use caos_seminars.Sync.Racing.{Thread, State, thread_func, step, run, start, AllJoined}

abbrev at : ℕ → Thread
at i = record { index = i; reading = none }

abbrev read_at : (i read : ℕ) → Thread
read_at i read = record { index = i; reading = some read }

abbrev state : List Thread → ℕ → State
state ths counter = record { threads = ths; shared_counter = counter }

-- `k` rounds of the first thread.
abbrev alone : ℕ → List ℕ
alone zero = []
alone (suc k) = 0 ∷ 0 ∷ alone k

-- A schedule of the threads behind the first.
abbrev others : List ℕ → List ℕ
others [] = []
others (t ∷ ts) = suc t ∷ others ts

-- One thread after the other.
abbrev pub in_turn : (threads_count rounds : ℕ) → List ℕ
in_turn zero rounds = []
in_turn (suc n) rounds = alone rounds ++ others (in_turn n rounds)

-- The first thread reads 0, and all others run but for the last round of the second. The first
-- writes 1, which the second reads. The first makes its other rounds, and the second writes 2.
abbrev pub losing : (more_threads more_rounds : ℕ) → List ℕ
losing m l =
    (0 ∷ [])
    ++ (others (alone (suc l) ++ others (in_turn m (suc (suc l))))
        ++ ((0 ∷ 1 ∷ []) ++ (alone (suc l) ++ (1 ∷ []))))

module _ (rounds : ℕ) where
  run-append :
      (ts us : List ℕ) (s : State) → run rounds (ts ++ us) s ≡ run rounds us (run rounds ts s)
  unfolding run
  run-append [] us s = refl
  run-append (t ∷ ts) us s = run-append ts us _

  run-others :
      (ts : List ℕ) (th : Thread) (ths : List Thread) (counter : ℕ)
      → let s = run rounds ts (state ths counter) in
        run rounds (others ts) (state (th ∷ ths) counter) ≡ state (th ∷ s.threads) s.shared_counter
  unfolding run step
  run-others [] th ths counter = refl
  run-others (t ∷ ts) th ths counter = run-others ts th _ _

  run-read :
      (ts : List ℕ) (i : ℕ) (ths : List Thread) (counter : ℕ)
      → i < rounds
      → run rounds (0 ∷ ts) (state (at i ∷ ths) counter)
        ≡ run rounds ts (state (read_at i counter ∷ ths) counter)
  unfolding run step thread_func
  run-read ts i ths counter below = rw (lt→ltb i rounds below) refl

  run-alone :
      (k i j : ℕ) (ths : List Thread) (counter counter' : ℕ)
      → j ≤ rounds
      → i + k ≡ j
      → counter + k ≡ counter'
      → run rounds (alone k) (state (at i ∷ ths) counter) ≡ state (at j ∷ ths) counter'
  unfolding run step thread_func
  run-alone zero i j ths counter counter' fits e c =
      let same : i ≡ j = omega (arith, e) in
      let value : counter ≡ counter' = omega (arith, c) in
      ap₂ (λ n c. state (at n ∷ ths) c) same value
  run-alone (suc k) i j ths counter counter' fits e c =
      rw (run-read (0 ∷ alone k) i ths counter (omega (arith, fits, e))) (
        run-alone k (suc i) j ths (suc counter) counter' fits (omega (arith, e)) (omega (arith, c)))

  run-in_turn :
      (n counter counter' : ℕ)
      → counter + n * rounds ≡ counter'
      → run rounds (in_turn n rounds) (state (replicate n (at 0)) counter)
        ≡ state (replicate n (at rounds)) counter'
  unfolding run
  run-in_turn zero counter counter' e =
      let value : counter ≡ counter' = omega (arith, e) in ap (λ c. state [] c) value
  run-in_turn (suc n) counter counter' e =
      rw
        (
          run-append (alone rounds) (others (in_turn n rounds))
              (state (replicate (suc n) (at 0)) counter),
          run-alone rounds 0 rounds (replicate n (at 0)) counter (counter + rounds) (omega arith)
              (omega arith) refl,
          run-others (in_turn n rounds) (at rounds) (replicate n (at 0)) (counter + rounds),
          run-in_turn n (counter + rounds) counter' (omega (arith, e, suc-mul n rounds)),
        )
        refl

module _ (m l : ℕ) where
  abbrev rounds : ℕ
  rounds = suc (suc l)

  -- The second thread makes its rounds but the last, and the threads behind it make theirs.
  run-behind :
      (counter : ℕ)
      → run rounds
          (alone (suc l) ++ others (in_turn m rounds))
          (state (at 0 ∷ replicate m (at 0)) counter)
        ≡ state (at (suc l) ∷ replicate m (at rounds)) (counter + suc l + m * rounds)
  run-behind counter =
      rw
        (
          run-append rounds (alone (suc l)) (others (in_turn m rounds))
              (state (at 0 ∷ replicate m (at 0)) counter),
          run-alone rounds (suc l) 0 (suc l) (replicate m (at 0)) counter (counter + suc l)
              (omega arith) (omega arith) refl,
          run-others rounds (in_turn m rounds) (at (suc l)) (replicate m (at 0)) (counter + suc l),
          run-in_turn rounds m (counter + suc l) (counter + suc l + m * rounds) refl,
        )
        refl

  -- The first thread's other rounds, and the second's last write.
  run-last :
      (ths : List Thread)
      → run rounds (alone (suc l) ++ (1 ∷ [])) (state (at 1 ∷ read_at (suc l) 1 ∷ ths) 1)
        ≡ state (at rounds ∷ at rounds ∷ ths) 2
  unfolding run step thread_func
  run-last ths =
      rw
        (
          run-append rounds (alone (suc l)) (1 ∷ []) (state (at 1 ∷ read_at (suc l) 1 ∷ ths) 1),
          run-alone rounds (suc l) 1 rounds (read_at (suc l) 1 ∷ ths) 1 rounds (omega arith)
              (omega arith) (omega arith),
        )
        refl

  -- The first thread writes the 1 that the second reads.
  run-overwritten :
      (ts : List ℕ) (ths : List Thread) (counter : ℕ)
      → run rounds (0 ∷ 1 ∷ ts) (state (read_at 0 0 ∷ at (suc l) ∷ ths) counter)
        ≡ run rounds ts (state (at 1 ∷ read_at (suc l) 1 ∷ ths) 1)
  unfolding run step thread_func
  run-overwritten ts ths counter = rw (lt→ltb (suc l) rounds (omega arith)) refl

  run-losing :
      run rounds (losing m l) (start (suc (suc m)))
      ≡ state (at rounds ∷ at rounds ∷ replicate m (at rounds)) 2
  run-losing =
      let fresh = at 0 ∷ replicate m (at 0) in
      let ended = replicate m (at rounds) in
      let second = alone (suc l) ++ others (in_turn m rounds) in
      let rest = alone (suc l) ++ (1 ∷ []) in
      run-read rounds (others second ++ (0 ∷ 1 ∷ rest)) 0 fresh 0 (omega arith)
      ∙ run-append rounds (others second) (0 ∷ 1 ∷ rest) (state (read_at 0 0 ∷ fresh) 0)
      ∙ ap (run rounds (0 ∷ 1 ∷ rest)) (
          run-others rounds second (read_at 0 0) fresh 0
          ∙ ap (λ s. state (read_at 0 0 ∷ s.threads) s.shared_counter) (run-behind 0))
      ∙ run-overwritten rest ended (0 + suc l + m * rounds)
      ∙ run-last ended

replicate-AllJoined : (n rounds : ℕ) → AllJoined rounds (replicate n (at rounds))
replicate-AllJoined zero k = tt
replicate-AllJoined (suc n) k = (refl, replicate-AllJoined n k)

-- All threads have been joined in `s`, and have left `counter`.
abbrev pub Ends : (rounds : ℕ) → State → (counter : ℕ) → Type 0
Ends rounds s counter = AllJoined rounds s.threads × (s.shared_counter ≡ counter)

-- For any number of threads and of rounds from two on there is a schedule that leaves 2, and one
-- that leaves the number of threads times that of rounds.
pub run-Ends :
    (m l : ℕ)
    → Ends (suc (suc l)) (run (suc (suc l)) (losing m l) (start (suc (suc m)))) 2
      × Ends
          (suc (suc l))
          (run (suc (suc l)) (in_turn (suc (suc m)) (suc (suc l))) (start (suc (suc m))))
          (suc (suc m) * suc (suc l))
run-Ends m l =
    let rounds = suc (suc l) in
    (
      rw (run-losing m l) ((refl, (refl, replicate-AllJoined m rounds)), refl),
      rw (run-in_turn rounds (suc (suc m)) 0 (suc (suc m) * rounds) (omega arith))
          (replicate-AllJoined (suc (suc m)) rounds, refl),
    )
