-- ===== src/Sync/Racing/Bounds.antt =====
-- Between which values the counter of no-sync/no-sync.c lies at the end.
use caos_seminars.Prelude.{
  ℕ, zero, suc, ◌+◌, ◌*◌, ◌≤◌, ◌<◌, ◌≡◌, refl, ◌⊎◌, inl, inr, List, [], ◌∷◌, length, Option, none,
  some, ltb, ltb→lt, ap, ◌∙◌, true, false, Bool, if◌then◌else◌, arith, length-replicate,
}
use native.Mathlib.Nat.{suc-mul}
use caos_seminars.Sync.Racing.{Thread, State, thread_func, step, run, start, AllJoined}

-- The increments that the threads have made.
abbrev pub total : List Thread → ℕ
total [] = 0
total (th ∷ ths) = th.index + total ths

module _ (rounds : ℕ) where
  -- A thread has not made its last increment.
  data Working : List Thread → Type 0 where
    here : {th : Thread} {ths : List Thread} → th.index < rounds → Working (th ∷ ths)
    there : {th : Thread} {ths : List Thread} → Working ths → Working (th ∷ ths)

  -- What a thread has read is at most the increments made, and not 0 behind one of its own.
  abbrev ReadingFine : (made index : ℕ) → Option ℕ → Type 0
  ReadingFine made index none = Unit
  ReadingFine made index (some read) = (index < rounds) × ((read ≤ made) × (0 < index → 0 < read))

  abbrev Fine : (made : ℕ) → List Thread → Type 0
  Fine made [] = Unit
  Fine made (th ∷ ths) =
      (th.index ≤ rounds) × (ReadingFine made th.index th.reading × Fine made ths)

  ReadingFine-grows :
      (made made' index : ℕ) (reading : Option ℕ)
      → made ≤ made'
      → ReadingFine made index reading
      → ReadingFine made' index reading
  ReadingFine-grows made made' index none more h = tt
  ReadingFine-grows made made' index (some read) more (i, (r, p)) = (i, (omega (arith, r, more), p))

  Fine-grows : (made made' : ℕ) (ths : List Thread) → made ≤ made' → Fine made ths → Fine made' ths
  Fine-grows made made' [] more h = tt
  Fine-grows made made' (th ∷ ths) more (i, (r, h)) = (
    i,
    (ReadingFine-grows made made' th.index th.reading more r, Fine-grows made made' ths more h),
  )

  -- The counter is at most the increments made, and not 0 behind the first of them.
  abbrev Counted : (made counter : ℕ) → Type 0
  Counted made counter = (counter ≤ made) × (0 < made → 0 < counter)

  behind :
      {th : Thread} {ths ths' : List Thread}
      → (Working ths → Working ths')
      → Working (th ∷ ths)
      → Working (th ∷ ths')
  behind kept (here below) = here below
  behind kept (there w) = there (kept w)

  -- A step that leaves the counter below 2 leaves work to do, or had found none.
  abbrev Remains : (ths ths' : List Thread) (counter' : ℕ) (counter : ℕ) → Type 0
  Remains ths ths' counter' counter =
      (2 ≤ counter') ⊎ (Working ths' ⊎ ((counter' ≡ counter) × (Working ths → Working ths')))

  remaining :
      {th : Thread} {ths ths' : List Thread} {counter' counter : ℕ}
      → Remains ths ths' counter' counter
      → Remains (th ∷ ths) (th ∷ ths') counter' counter
  remaining (inl two) = inl two
  remaining (inr (inl w)) = inr (inl (there w))
  remaining (inr (inr (e, kept))) = inr (inr (e, behind kept))

  still :
      {ths ths' : List Thread} {counter' counter : ℕ}
      → (2 ≤ counter) ⊎ Working ths
      → Remains ths ths' counter' counter
      → (2 ≤ counter') ⊎ Working ths'
  still h (inl two) = inl two
  still h (inr (inl w)) = inr w
  still (inl two) (inr (inr (e, kept))) = inl (omega (arith, two, e))
  still (inr w) (inr (inr (e, kept))) = inr (kept w)

  -- `before` stands for the increments of the threads that are not in the list.
  abbrev Stepped : (before : ℕ) (ths : List Thread) (counter : ℕ) → List Thread × ℕ → Type 0
  Stepped before ths counter (ths', counter') =
      (total ths ≤ total ths')
      × ((length ths' ≡ length ths)
          × (Fine (before + total ths') ths'
              × (Counted (before + total ths') counter' × Remains ths ths' counter' counter)))

  module _ (two : 2 ≤ rounds) where
    -- The write of a thread's last round finds a counter that is not 0.
    last :
        (index read : ℕ) {ths ths0 : List Thread} {counter : ℕ}
        → index < rounds
        → (0 < index → 0 < read)
        → Remains ths0 (record { index = suc index; reading = none } ∷ ths) (suc read) counter
    last zero read i p = inr (inl (here (omega (arith, two))))
    last (suc index) read i p = inl (omega (arith, p (omega arith)))

    -- The write of a thread.
    stores :
        (before index read counter : ℕ) (ths : List Thread)
        → index < rounds
        → read ≤ before + (index + total ths)
        → (0 < index → 0 < read)
        → Fine (before + (index + total ths)) ths
        → Stepped before
            (record { index = index; reading = some read } ∷ ths)
            counter
            (record { index = suc index; reading = none } ∷ ths, suc read)
    stores before index read counter ths i r p h = (
      omega arith,
      (
        refl,
        (
          (
            omega (arith, i),
            (tt, Fine-grows _ (before + (suc index + total ths)) ths (omega arith) h),
          ),
          ((omega (arith, r), λ _. omega arith), last index read i p),
        ),
      ),
    )

    abbrev Leads : (before counter : ℕ) → Thread → List Thread → Thread × ℕ → Type 0
    Leads before counter th ths (th', counter') =
        Stepped before (th ∷ ths) counter (th' ∷ ths, counter')

    thread_func-Leads :
        (before counter i : ℕ) (reading : Option ℕ) (ths : List Thread)
        → Fine (before + (i + total ths)) (record { index = i; reading = reading } ∷ ths)
        → Counted (before + (i + total ths)) counter
        → Leads before counter
            (record { index = i; reading = reading })
            ths
            (thread_func rounds (record { index = i; reading = reading }) counter)
    unfolding thread_func
    thread_func-Leads before counter i (some read) ths (_, ((l, (r, p)), h)) c =
        stores before i read counter ths l r p h
    thread_func-Leads before counter i none ths (l, (_, h)) (c, nz) =
        either (ltb i rounds)
          (λ more.
            let below = ltb→lt i rounds more in
            (
              omega arith,
              (
                refl,
                (
                  (l, ((below, (c, λ made. nz (omega (arith, made)))), h)),
                  ((c, nz), inr (inl (here below))),
                ),
              ),
            ))
          (omega arith, (refl, ((l, (tt, h)), ((c, nz), inr (inr (refl, λ w. w))))))
      where
        either :
            (more : Bool)
            → (more ≡ true
                → Leads before counter
                    (record { index = i; reading = none })
                    ths
                    (record { index = i; reading = some counter }, counter))
            → Leads before counter
                (record { index = i; reading = none })
                ths
                (record { index = i; reading = none }, counter)
            → Leads before counter
                (record { index = i; reading = none })
                ths
                (if more
                  then (record { index = i; reading = some counter }, counter)
                  else (record { index = i; reading = none }, counter))
        either true reads idle = reads refl
        either false reads idle = idle

    -- The other threads keep what they have.
    beside :
        (before counter : ℕ) (th : Thread) (ths : List Thread) (next : List Thread × ℕ)
        → th.index ≤ rounds
        → ReadingFine (before + (th.index + total ths)) th.index th.reading
        → Stepped (before + th.index) ths counter next
        → Stepped before (th ∷ ths) counter (th ∷ next.0, next.1)
    beside before counter th ths (ths', counter') i r (more, (count, (h, ((c, nz), rest)))) = (
      omega (arith, more),
      (
        ap suc count,
        (
          (
            i,
            (
              ReadingFine-grows _ (before + (th.index + total ths')) th.index th.reading
                  (omega (arith, more)) r,
              Fine-grows _ (before + (th.index + total ths')) ths' (omega arith) h,
            ),
          ),
          ((omega (arith, c), λ made. nz (omega (arith, made))), remaining rest),
        ),
      ),
    )

    step-Stepped :
        (t before counter : ℕ) (ths : List Thread)
        → Fine (before + total ths) ths
        → Counted (before + total ths) counter
        → Stepped before ths counter (step rounds t ths counter)
    unfolding step
    step-Stepped t before counter [] h c = (omega arith, (refl, (h, (c, inr (inr (refl, λ w. w))))))
    step-Stepped zero before counter (th ∷ ths) h c =
        thread_func-Leads before counter th.index th.reading ths h c
    step-Stepped (suc t) before counter (th ∷ ths) (i, (r, h)) (c, nz) =
        beside before counter th ths (step rounds t ths counter) i r (
          step-Stepped t (before + th.index) counter ths
            (Fine-grows _ (before + th.index + total ths) ths (omega arith) h)
            (omega (arith, c), λ made. nz (omega (arith, made))))

    abbrev Inv : (threads_count : ℕ) → State → Type 0
    Inv threads_count s =
        (length s.threads ≡ threads_count)
        × (Fine (0 + total s.threads) s.threads
            × (Counted (0 + total s.threads) s.shared_counter
                × ((2 ≤ s.shared_counter) ⊎ Working s.threads)))

    run-Inv : (n : ℕ) (ts : List ℕ) (s : State) → Inv n s → Inv n (run rounds ts s)
    unfolding run
    run-Inv n [] s h = h
    run-Inv n (t ∷ ts) s (count, (h, (c, rest))) =
        let (more, (kept, (h', (c', rest')))) = step-Stepped t 0 s.shared_counter s.threads h c in
        run-Inv n ts _ (kept ∙ count, (h', (c', still rest rest')))

  start-Fine : (n : ℕ) → Fine 0 (start n).threads
  start-Fine zero = tt
  start-Fine (suc n) = (omega arith, (tt, start-Fine n))

  start-total : (n : ℕ) → total (start n).threads ≡ 0
  start-total zero = refl
  start-total (suc n) = omega (arith, start-total n)

  total-AllJoined : (ths : List Thread) → AllJoined rounds ths → total ths ≡ length ths * rounds
  total-AllJoined [] h = omega arith
  total-AllJoined (th ∷ ths) (e, h) =
      omega (arith, e, total-AllJoined ths h, suc-mul (length ths) rounds)

  Working-AllJoined : {ths : List Thread} → Working ths → AllJoined rounds ths → 1 ≤ 0
  Working-AllJoined (here below) (e, h) = omega (arith, below, e)
  Working-AllJoined (there w) (e, h) = Working-AllJoined w h

  start-Inv : (n : ℕ) (two : 2 ≤ rounds) → Inv two (suc n) (start (suc n))
  start-Inv n two = (
    length-replicate (suc n) _,
    (
      Fine-grows 0 _ (start (suc n)).threads (omega arith) (start-Fine (suc n)),
      ((omega arith, λ made. omega (arith, made, start-total n)), inr (here (omega (arith, two)))),
    ),
  )

  -- With a thread or more, of two rounds or more, `shared_counter` is at least 2 and at most the
  -- number of threads times that of rounds when all threads have been joined, in whatever order
  -- they have read and written it.
  pub run-IsBounded :
      (threads_count : ℕ) (ts : List ℕ)
      → 0 < threads_count
      → 2 ≤ rounds
      → AllJoined rounds (run rounds ts (start threads_count)).threads
      → (2 ≤ (run rounds ts (start threads_count)).shared_counter)
        × ((run rounds ts (start threads_count)).shared_counter ≤ threads_count * rounds)
  run-IsBounded zero ts some_thread two joined = elim some_thread [ ]
  run-IsBounded (suc n) ts some_thread two joined =
      let (count, (_, ((most, _), rest))) =
        run-Inv two (suc n) ts (start (suc n)) (start-Inv n two) in
      (
        elim rest [
          | inl least ↦ least
          | inr working ↦ omega (arith, Working-AllJoined working joined)
        ],
        omega (arith, most, total-AllJoined _ joined, ap (λ k. k * rounds) count),
      )
