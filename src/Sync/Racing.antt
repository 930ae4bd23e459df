-- ===== src/Sync/Racing.antt =====
-- no-sync/no-sync.c: threads that count in one plain variable. `++` on it is two steps, a read and
-- a write. The source has 10 for `THREADS_COUNT` and 30000 for the number of rounds.
use caos_seminars.Prelude.{
  ℕ, zero, suc, ◌≡◌, List, [], ◌∷◌, Option, none, some, replicate, ltb, if◌then◌else◌,
}
pub mod Bounds
pub mod Lost

-- A thread's `i`, and what it has read of the counter and not yet written back.
pub record Thread : Type 0 where
  pub index : ℕ
  pub reading : Option ℕ

pub record State : Type 0 where
  pub threads : List Thread
  pub shared_counter : ℕ

module _ (rounds : ℕ) where
  -- A step of `thread_func`; a thread at its end does nothing.
  unfoldable pub thread_func : Thread → (counter : ℕ) → Thread × ℕ
  thread_func th counter = elim th.reading [
    | some read ↦ (record { index = suc th.index; reading = none }, suc read)
    | none ↦
        if ltb th.index rounds
        then (record { index = th.index; reading = some counter }, counter)
        else (th, counter)
  ]

  -- A step of the thread number `t`.
  unfoldable pub step : (t : ℕ) → List Thread → (counter : ℕ) → List Thread × ℕ
  unfolding thread_func
  step t [] counter = ([], counter)
  step zero (th ∷ ths) counter =
      let (th', counter') = thread_func th counter in (th' ∷ ths, counter')
  step (suc t) (th ∷ ths) counter =
      let (ths', counter') = step t ths counter in (th ∷ ths', counter')

  -- A schedule: the numbers of the threads in the order of their steps.
  unfoldable pub run : List ℕ → State → State
  unfolding step
  run [] s = s
  run (t ∷ ts) s =
      let (ths, counter) = step t s.threads s.shared_counter in
      run ts (record { threads = ths; shared_counter = counter })

-- `main` after it has created the threads.
abbrev pub start : (threads_count : ℕ) → State
start threads_count = record {
  threads = replicate threads_count (record { index = 0; reading = none });
  shared_counter = 0;
}

module _ (rounds : ℕ) where
  -- `pthread_join` has returned for each thread: its loop has ended.
  abbrev pub AllJoined : List Thread → Type 0
  AllJoined [] = Unit
  AllJoined (th ∷ ths) = (th.index ≡ rounds) × AllJoined ths
