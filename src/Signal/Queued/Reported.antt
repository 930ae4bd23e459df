-- ===== src/Signal/Queued/Reported.antt =====
-- What the child of sem09-signals/snippets/realtime/sigqueue_demo.c prints in any order of the steps.
use caos_seminars.Prelude.{
  ℕ, suc, ◌+◌, ◌*◌, ◌≤◌, ◌<◌, ◌≡◌, refl, ap, subst, inl, inr, Bool, true, false, List, [], ◌∷◌,
  length, leb, arith, Bool-cases,
}
use caos_seminars.Signal.Queued.{
  Child, Frame, Line, State, Turn, wake, sigqueue, step_parent, step_main, step_child, step, run,
  start,
}

-- The child has been woken by a signal and not yet printed its line.
abbrev busy : Child → ℕ
busy Child.woken = 1
busy (Child.reading signal) = 1
busy _ = 0

abbrev alive : Child → Bool
alive Child.killed = false
alive _ = true

module _ (sigrtmin : ℕ) where
  -- The number of a signal that has been sent, and the value of one.
  abbrev pub IsSent : (i signal : ℕ) → Type 0
  IsSent i signal = (sigrtmin ≤ signal) × (signal < i)

  abbrev pub IsValue : (i value : ℕ) → Type 0
  IsValue i value = (signal : ℕ) × IsSent i signal × (value ≡ signal * signal)

  abbrev pub AllReported : (i : ℕ) → List Line → Type 0
  AllReported i [] = Unit
  AllReported i (line ∷ lines) = IsSent i line.signal × IsValue i line.value × AllReported i lines

  -- What a handler sets, and what it has set.
  abbrev FrameFine : (i last_signal : ℕ) → Frame → Type 0
  FrameFine i last_signal (Frame.entered signal value) = IsSent i signal × IsValue i value
  FrameFine i last_signal (Frame.signalled value) = IsSent i last_signal × IsValue i value

  abbrev AllFine : (i last_signal : ℕ) → List Frame → Type 0
  AllFine i last_signal [] = Unit
  AllFine i last_signal (frame ∷ frames) =
      FrameFine i last_signal frame × AllFine i last_signal frames

  abbrev ReadSent : (i : ℕ) → Child → Type 0
  ReadSent i (Child.reading signal) = IsSent i signal
  ReadSent i _ = Unit

  record Inv (s : State) : Type 0 where
    pub bound : s.i ≤ sigrtmin + 6
    pub count : sigrtmin + (length s.printed + busy s.child) ≤ s.i
    pub last :
        s.frames ≡ []
        → alive s.child ≡ true
        → sigrtmin < s.i
        → IsSent s.i s.last_signal × IsValue s.i s.last_value
    pub frames : AllFine s.i s.last_signal s.frames
    pub read : ReadSent s.i s.child
    pub reported : AllReported s.i s.printed

  IsValue-suc : (i value : ℕ) → IsValue i value → IsValue (suc i) value
  IsValue-suc i value (signal, (low, high), e) = (signal, (low, omega (arith, high)), e)

  IsSent-suc : (i signal : ℕ) → IsSent i signal → IsSent (suc i) signal
  IsSent-suc i signal (low, high) = (low, omega (arith, high))

  FrameFine-suc :
      (i last : ℕ) (frame : Frame) → FrameFine i last frame → FrameFine (suc i) last frame
  FrameFine-suc i last (Frame.entered signal value) (s, v) =
      (IsSent-suc i signal s, IsValue-suc i value v)
  FrameFine-suc i last (Frame.signalled value) (s, v) = (IsSent-suc i last s, IsValue-suc i value v)

  AllFine-suc :
      (i last : ℕ) (frames : List Frame) → AllFine i last frames → AllFine (suc i) last frames
  AllFine-suc i last [] h = tt
  AllFine-suc i last (f ∷ fs) (x, h) = (FrameFine-suc i last f x, AllFine-suc i last fs h)

  -- A handler sets `last_signal` to a signal that was sent.
  AllFine-set :
      (i last signal : ℕ) (frames : List Frame)
      → IsSent i signal
      → AllFine i last frames
      → AllFine i signal frames
  AllFine-set i last signal [] s h = tt
  AllFine-set i last signal (Frame.entered _ _ ∷ fs) s (x, h) =
      (x, AllFine-set i last signal fs s h)
  AllFine-set i last signal (Frame.signalled _ ∷ fs) s ((_, v), h) =
      ((s, v), AllFine-set i last signal fs s h)

  AllReported-suc : (i : ℕ) (lines : List Line) → AllReported i lines → AllReported (suc i) lines
  AllReported-suc i [] h = tt
  AllReported-suc i (l ∷ ls) ((low, high), v, h) =
      ((low, omega (arith, high)), IsValue-suc i l.value v, AllReported-suc i ls h)

  ReadSent-wake : (i : ℕ) (c : Child) → ReadSent i c → ReadSent (suc i) (wake c)
  ReadSent-wake i Child.calling h = tt
  ReadSent-wake i Child.waiting h = tt
  ReadSent-wake i Child.woken h = tt
  ReadSent-wake i (Child.reading n) (low, high) = (low, omega (arith, high))
  ReadSent-wake i Child.killed h = tt

  busy-wake : (c : Child) → busy (wake c) ≤ suc (busy c)
  busy-wake Child.calling = omega arith
  busy-wake Child.waiting = omega arith
  busy-wake Child.woken = omega arith
  busy-wake (Child.reading n) = omega arith
  busy-wake Child.killed = omega arith

  step_parent-Inv : (s : State) → Inv s → Inv (step_parent sigrtmin s)
  unfolding step_parent sigqueue
  step_parent-Inv s h = elim (Bool-cases (leb s.i (sigrtmin + 5))) [
    | inl more ↦
        let sent : IsSent (suc s.i) s.i = (omega (arith, h.count), omega arith) in
        rw more (record {
          bound = ground arith;
          count = omega (arith, h.count, busy-wake s.child);
          last = λ e. absurd (cc e);
          frames = ((sent, (s.i, sent, refl)), AllFine-suc s.i s.last_signal s.frames h.frames);
          read = ReadSent-wake s.i s.child h.read;
          reported = AllReported-suc s.i s.printed h.reported;
        })
    | inr over ↦ rw over (record {
      bound = h.bound;
      count = omega (arith, h.count);
      last = λ _ e. absurd (cc e);
      frames = tt;
      read = tt;
      reported = h.reported;
    })
  ]

  step_main-Inv :
      (c : Child) (s : State) → s.child ≡ c → s.frames ≡ [] → Inv s → Inv (step_main c s)
  unfolding step_main
  step_main-Inv Child.calling s e f h = record {
    bound = h.bound;
    count = omega (arith, h.count);
    last = λ _ _. h.last f (ap alive e);
    frames = h.frames;
    read = tt;
    reported = h.reported;
  }
  step_main-Inv Child.waiting s e f h = h
  step_main-Inv Child.woken s e f h =
      let some_sent : sigrtmin < s.i = omega (arith, h.count, ap busy e) in
      record {
        bound = h.bound;
        count = omega (arith, h.count, ap busy e);
        last = λ _ _. h.last f (ap alive e);
        frames = h.frames;
        read = (h.last f (ap alive e) some_sent).0;
        reported = h.reported;
      }
  step_main-Inv (Child.reading n) s e f h =
      let some_sent : sigrtmin < s.i = omega (arith, h.count, ap busy e) in
      record {
        bound = h.bound;
        count = omega (arith, h.count, ap busy e);
        last = λ _ _. h.last f (ap alive e);
        frames = h.frames;
        read = tt;
        reported =
            (subst (λ c. ReadSent s.i c) e h.read, (h.last f (ap alive e) some_sent).1, h.reported);
      }
  step_main-Inv Child.killed s e f h = h

  step_child-Inv :
      (frames : List Frame) (s : State) → s.frames ≡ frames → Inv s → Inv (step_child frames s)
  unfolding step_child
  step_child-Inv [] s e h = step_main-Inv s.child s refl e h
  step_child-Inv (Frame.entered signal value ∷ outer) s e h =
      let ((sent, set), rest) = subst (λ l. AllFine s.i s.last_signal l) e h.frames in
      record {
        bound = h.bound;
        count = h.count;
        last = λ x. absurd (cc x);
        frames = ((sent, set), AllFine-set s.i s.last_signal signal outer sent rest);
        read = h.read;
        reported = h.reported;
      }
  step_child-Inv (Frame.signalled value ∷ outer) s e h =
      let ((sent, set), rest) = subst (λ l. AllFine s.i s.last_signal l) e h.frames in
      record {
        bound = h.bound;
        count = h.count;
        last = λ _ _ _. (sent, set);
        frames = rest;
        read = h.read;
        reported = h.reported;
      }

  run-Inv : (turns : List Turn) (s : State) → Inv s → Inv (run sigrtmin turns s)
  unfolding run step
  run-Inv [] s h = h
  run-Inv (Turn.turn_parent ∷ turns) s h = run-Inv turns _ (step_parent-Inv s h)
  run-Inv (Turn.turn_child ∷ turns) s h = run-Inv turns _ (step_child-Inv s.frames s refl h)

  start-Inv : Inv (start sigrtmin)
  start-Inv = record {
    bound = omega arith;
    count = omega arith;
    last = λ _ _ some_sent. absurd (omega (arith, some_sent));
    frames = tt;
    read = tt;
    reported = tt;
  }

  -- In any order of the steps of parent, child and handlers, the child has printed no more lines than
  -- signals have been sent, at most six, and each line has the number of a signal that has been sent
  -- and the square of the number of one, the same or another.
  pub run-AllReported :
      (turns : List Turn)
      → let s = run sigrtmin turns (start sigrtmin) in
        (sigrtmin + length s.printed ≤ s.i) × (s.i ≤ sigrtmin + 6) × AllReported s.i s.printed
  run-AllReported turns =
      let h = run-Inv turns (start sigrtmin) start-Inv in
      (omega (arith, h.count), h.bound, h.reported)
