-- ===== src/Sync/Counter/Total.antt =====
-- What the threads of no-sync/no-sync-fix.c have counted together.
use caos_seminars.Prelude.{
  replicate, ℕ, zero, suc, ◌+◌, ◌*◌, ◌≡◌, refl, ap, ◌∙◌, inl, inr, List, [], ◌∷◌, length, ltb,
  arith, Bool-cases,
}
use native.Mathlib.Nat.{suc-mul}
use caos_seminars.Sync.Counter.{State, thread_func, run, start}

abbrev pub sum : List ℕ → ℕ
sum [] = 0
sum (i ∷ is) = i + sum is

sum-replicate : (n : ℕ) → 0 ≡ sum (replicate n 0)
sum-replicate zero = refl
sum-replicate (suc n) = omega (arith, sum-replicate n)

length-replicate : (n : ℕ) → length {A = ℕ} (replicate n 0) ≡ n
length-replicate zero = refl
length-replicate (suc n) = ap suc (length-replicate n)

module _ (loops : ℕ) where
  -- `pthread_join` has returned for each thread: its loop has ended.
  abbrev pub AllJoined : List ℕ → Type 0
  AllJoined [] = Unit
  AllJoined (i ∷ is) = (i ≡ loops) × AllJoined is

  -- A round adds as much to the counter as to the indexes, and keeps the number of threads.
  abbrev Counts : (is : List ℕ) (counter : ℕ) → List ℕ × ℕ → Type 0
  Counts is counter (is', counter') =
      (counter' + sum is ≡ counter + sum is') × (length is' ≡ length is)

  thread_func-Counts :
      (t : ℕ) (is : List ℕ) (counter : ℕ) → Counts is counter (thread_func loops t is counter)
  unfolding thread_func
  thread_func-Counts t [] counter = (refl, refl)
  thread_func-Counts zero (i ∷ is) counter = elim (Bool-cases (ltb i loops)) [
    | inl more ↦ rw (thread_func, more) (omega arith, refl)
    | inr over ↦ rw (thread_func, over) (refl, refl)
  ]
  thread_func-Counts (suc t) (i ∷ is) counter =
      let (total, count) = thread_func-Counts t is counter in (omega (arith, total), ap suc count)

  abbrev Inv : ℕ → State → Type 0
  Inv n s = (s.shared_counter ≡ sum s.indexes) × (length s.indexes ≡ n)

  run-Inv : (n : ℕ) (ts : List ℕ) (s : State) → Inv n s → Inv n (run loops ts s)
  unfolding run
  run-Inv n [] s h = h
  run-Inv n (t ∷ ts) s (total, count) =
      let (same, kept) = thread_func-Counts t s.indexes s.shared_counter in
      run-Inv n ts _ (omega (arith, total, same), kept ∙ count)

  sum-AllJoined : (is : List ℕ) → AllJoined is → sum is ≡ length is * loops
  sum-AllJoined [] h = omega arith
  sum-AllJoined (i ∷ is) (e, h) = omega (arith, e, sum-AllJoined is h, suc-mul (length is) loops)

  -- In whatever order the threads run, `shared_counter` is the number of threads times that of
  -- rounds when all of them have been joined: no increment is lost.
  pub counter_total :
      (threads_count : ℕ) (ts : List ℕ)
      → AllJoined (run loops ts (start threads_count)).indexes
      → (run loops ts (start threads_count)).shared_counter ≡ threads_count * loops
  counter_total threads_count ts joined =
      let (total, count) =
        run-Inv threads_count ts (start threads_count)
          (sum-replicate threads_count, length-replicate threads_count) in
      total
      ∙ sum-AllJoined (run loops ts (start threads_count)).indexes joined
      ∙ ap (λ n. n * loops) count
