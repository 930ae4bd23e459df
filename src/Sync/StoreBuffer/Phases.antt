-- ===== src/Sync/StoreBuffer/Phases.antt =====
-- The invariant of the whole of faulty/mutex.c, by where `main` stands.
use caos_seminars.Prelude.{ℕ, ◌≡◌, refl, sym, ap, ◌∙◌, ◌⊎◌, Bool, true, false, subst}
use caos_seminars.Sync.StoreBuffer.{Thread, Main, View, State, Turn, advance, step}
use caos_seminars.Sync.StoreBuffer.Excluded.{
  Running, Running-swap, Running-flushed, Running-advance,
}

pub record Idle (s : State) : Type 0 where
  pub first_ended : s.first ≡ Thread.at_end
  pub first_flushed : s.first_buffered ≡ false
  pub second_ended : s.second ≡ Thread.at_end
  pub second_flushed : s.second_buffered ≡ false
  pub unlocked : s.mutex ≡ false

abbrev pub Both : State → Type 0
Both s = Running s.first s.second s.first_buffered s.second_buffered s.mutex s.x s.y s.r1 s.r2

-- A second thread that is not yet created counts as one before its lock.
pub record OneCreated (s : State) : Type 0 where
  pub second_ended : s.second ≡ Thread.at_end
  pub second_flushed : s.second_buffered ≡ false
  pub running : Running s.first Thread.at_lock s.first_buffered false s.mutex s.x s.y s.r1 s.r2

pub record FirstJoined (s : State) : Type 0 where
  pub first_ended : s.first ≡ Thread.at_end
  pub first_flushed : s.first_buffered ≡ false
  pub running : Both s

abbrev pub Inv : Main → State → Type 0
Inv Main.clearing s = Idle s
Inv Main.creating_first s = Idle s
Inv Main.creating_second s = OneCreated s
Inv Main.joining_first s = Both s
Inv Main.joining_second s = FirstJoined s
Inv Main.checking s = Idle s × ((s.r1 ≡ 1) ⊎ (s.r2 ≡ 1))
Inv Main.aborted s = ⊥

ended : (l : Bool) (k : ℕ) → View
ended l k = record { at = Thread.at_end; buffered = false; locked = l; kept = k }

-- A thread at its end stays there.
stays :
    (t : Thread) (b l : Bool) (other k : ℕ)
    → t ≡ Thread.at_end
    → b ≡ false
    → advance true t b l other k ≡ ended l k
unfolding advance ended
stays t b l other k e f = rw (e, f) refl

stays-at :
    (t : Thread) (b l : Bool) (o k : ℕ)
    → t ≡ Thread.at_end
    → b ≡ false
    → (advance true t b l o k).at ≡ Thread.at_end
unfolding ended
stays-at t b l o k e f = ap (λ (v : View). v.at) (stays t b l o k e f)

stays-buffered :
    (t : Thread) (b l : Bool) (o k : ℕ)
    → t ≡ Thread.at_end
    → b ≡ false
    → (advance true t b l o k).buffered ≡ false
unfolding ended
stays-buffered t b l o k e f = ap (λ (v : View). v.buffered) (stays t b l o k e f)

stays-locked :
    (t : Thread) (b l : Bool) (o k : ℕ)
    → t ≡ Thread.at_end
    → b ≡ false
    → (advance true t b l o k).locked ≡ l
unfolding ended
stays-locked t b l o k e f = ap (λ (v : View). v.locked) (stays t b l o k e f)

stays-kept :
    (t : Thread) (b l : Bool) (o k : ℕ)
    → t ≡ Thread.at_end
    → b ≡ false
    → (advance true t b l o k).kept ≡ k
unfolding ended
stays-kept t b l o k e f = ap (λ (v : View). v.kept) (stays t b l o k e f)

Idle-first : (s : State) → Idle s → Idle (step true Turn.turn_first s)
unfolding step
Idle-first s h = record {
  first_ended = stays-at s.first s.first_buffered s.mutex s.y s.r1 h.first_ended h.first_flushed;
  first_flushed =
      stays-buffered s.first s.first_buffered s.mutex s.y s.r1 h.first_ended h.first_flushed;
  second_ended = h.second_ended;
  second_flushed = h.second_flushed;
  unlocked =
      stays-locked s.first s.first_buffered s.mutex s.y s.r1 h.first_ended h.first_flushed
      ∙ h.unlocked;
}

Idle-second : (s : State) → Idle s → Idle (step true Turn.turn_second s)
unfolding step
Idle-second s h = record {
  first_ended = h.first_ended;
  first_flushed = h.first_flushed;
  second_ended =
      stays-at s.second s.second_buffered s.mutex s.x s.r2 h.second_ended h.second_flushed;
  second_flushed =
      stays-buffered s.second s.second_buffered s.mutex s.x s.r2 h.second_ended h.second_flushed;
  unlocked =
      stays-locked s.second s.second_buffered s.mutex s.x s.r2 h.second_ended h.second_flushed
      ∙ h.unlocked;
}

Idle-flush_first : (s : State) → Idle s → Idle (step true Turn.flush_first s)
unfolding step
Idle-flush_first s h = record {
  first_ended = h.first_ended;
  first_flushed = refl;
  second_ended = h.second_ended;
  second_flushed = h.second_flushed;
  unlocked = h.unlocked;
}

Idle-flush_second : (s : State) → Idle s → Idle (step true Turn.flush_second s)
unfolding step
Idle-flush_second s h = record {
  first_ended = h.first_ended;
  first_flushed = h.first_flushed;
  second_ended = h.second_ended;
  second_flushed = refl;
  unlocked = h.unlocked;
}

pub first-Inv : (m : Main) (s : State) → Inv m s → Inv m (step true Turn.turn_first s)
unfolding step
first-Inv Main.clearing s h = Idle-first s h
first-Inv Main.creating_first s h = Idle-first s h
first-Inv Main.creating_second s h = record {
  second_ended = h.second_ended;
  second_flushed = h.second_flushed;
  running =
      Running-advance s.first Thread.at_lock s.first_buffered false s.mutex s.x s.y s.r1 s.r2
        h.running;
}
first-Inv Main.joining_first s h =
    Running-advance s.first s.second s.first_buffered s.second_buffered s.mutex s.x s.y s.r1 s.r2 h
first-Inv Main.joining_second s h = record {
  first_ended = stays-at s.first s.first_buffered s.mutex s.y s.r1 h.first_ended h.first_flushed;
  first_flushed =
      stays-buffered s.first s.first_buffered s.mutex s.y s.r1 h.first_ended h.first_flushed;
  running =
      Running-advance s.first s.second s.first_buffered s.second_buffered s.mutex s.x s.y s.r1 s.r2
        h.running;
}
first-Inv Main.checking s (h, one) = (
  Idle-first s h,
  subst (λ k. (k ≡ 1) ⊎ (s.r2 ≡ 1))
      (sym (stays-kept s.first s.first_buffered s.mutex s.y s.r1 h.first_ended h.first_flushed))
      one,
)
first-Inv Main.aborted s h = h

Both-second : (s : State) → Both s → Both (step true Turn.turn_second s)
unfolding step
Both-second s h = Running-swap (
    Running-advance s.second s.first s.second_buffered s.first_buffered s.mutex s.y s.x s.r2 s.r1
      (Running-swap h))

pub second-Inv : (m : Main) (s : State) → Inv m s → Inv m (step true Turn.turn_second s)
unfolding step
second-Inv Main.clearing s h = Idle-second s h
second-Inv Main.creating_first s h = Idle-second s h
second-Inv Main.creating_second s h = record {
  second_ended =
      stays-at s.second s.second_buffered s.mutex s.x s.r2 h.second_ended h.second_flushed;
  second_flushed =
      stays-buffered s.second s.second_buffered s.mutex s.x s.r2 h.second_ended h.second_flushed;
  running =
      rw
        (
          stays-locked s.second s.second_buffered s.mutex s.x s.r2 h.second_ended h.second_flushed,
          stays-kept s.second s.second_buffered s.mutex s.x s.r2 h.second_ended h.second_flushed,
        )
        (h.running);
}
second-Inv Main.joining_first s h = Both-second s h
second-Inv Main.joining_second s h = record {
  first_ended = h.first_ended;
  first_flushed = h.first_flushed;
  running = Both-second s h.running;
}
second-Inv Main.checking s (h, one) = (
  Idle-second s h,
  subst (λ k. (s.r1 ≡ 1) ⊎ (k ≡ 1))
      (sym (stays-kept s.second s.second_buffered s.mutex s.x s.r2 h.second_ended h.second_flushed))
      one,
)
second-Inv Main.aborted s h = h

pub flush_first-Inv : (m : Main) (s : State) → Inv m s → Inv m (step true Turn.flush_first s)
unfolding step
flush_first-Inv Main.clearing s h = Idle-flush_first s h
flush_first-Inv Main.creating_first s h = Idle-flush_first s h
flush_first-Inv Main.creating_second s h = record {
  second_ended = h.second_ended;
  second_flushed = h.second_flushed;
  running = Running-flushed h.running;
}
flush_first-Inv Main.joining_first s h = Running-flushed h
flush_first-Inv Main.joining_second s h = record {
  first_ended = h.first_ended;
  first_flushed = refl;
  running = Running-flushed h.running;
}
flush_first-Inv Main.checking s (h, one) = (Idle-flush_first s h, one)
flush_first-Inv Main.aborted s h = h

Both-flush_second : (s : State) → Both s → Both (step true Turn.flush_second s)
unfolding step
Both-flush_second s h = Running-swap (Running-flushed (Running-swap h))

pub flush_second-Inv : (m : Main) (s : State) → Inv m s → Inv m (step true Turn.flush_second s)
unfolding step
flush_second-Inv Main.clearing s h = Idle-flush_second s h
flush_second-Inv Main.creating_first s h = Idle-flush_second s h
flush_second-Inv Main.creating_second s h = record {
  second_ended = h.second_ended;
  second_flushed = refl;
  running = record {
    mine = h.running.mine;
    theirs = refl;
    excludes = h.running.excludes;
    seen = λ a b ga gb. absurd gb;
  };
}
flush_second-Inv Main.joining_first s h = Both-flush_second s h
flush_second-Inv Main.joining_second s h = record {
  first_ended = h.first_ended;
  first_flushed = h.first_flushed;
  running = Both-flush_second s h.running;
}
flush_second-Inv Main.checking s (h, one) = (Idle-flush_second s h, one)
flush_second-Inv Main.aborted s h = h
