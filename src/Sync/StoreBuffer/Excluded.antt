-- ===== src/Sync/StoreBuffer/Excluded.antt =====
-- Why `main` of faulty/mutex.c does not abort, also on a machine with store buffers.
use caos_seminars.Prelude.{ℕ, ◌≡◌, refl, sym, ◌∙◌, inl, inr, ◌⊎◌, Bool, true, false, arith}
use caos_seminars.Sync.StoreBuffer.{Thread, View, advance, flushed}

abbrev pub inside : Thread → Bool
inside Thread.at_lock = false
inside Thread.at_store = true
inside Thread.at_load = true
inside Thread.at_unlock = true
inside Thread.at_end = false

-- The mutex is held if one of the two threads is inside, and they are not both.
abbrev pub Excludes : (locked one other : Bool) → Type 0
Excludes locked true true = ⊥
Excludes locked true false = locked ≡ true
Excludes locked false true = locked ≡ true
Excludes locked false false = locked ≡ false

Excludes-swap : (l a b : Bool) → Excludes l a b → Excludes l b a
Excludes-swap l true true h = h
Excludes-swap l true false h = h
Excludes-swap l false true h = h
Excludes-swap l false false h = h

-- The thread's write: not made, in the buffer or in memory, or in memory.
abbrev pub Wrote : Thread → (buffered : Bool) (own : ℕ) → Type 0
Wrote Thread.at_lock buffered own = buffered ≡ false
Wrote Thread.at_store buffered own = buffered ≡ false
Wrote Thread.at_load buffered own = (buffered ≡ true) ⊎ (own ≡ 1)
Wrote Thread.at_unlock buffered own = (buffered ≡ true) ⊎ (own ≡ 1)
Wrote Thread.at_end buffered own = (buffered ≡ false) × (own ≡ 1)

abbrev pub Got : Thread → (kept value : ℕ) → Type 0
Got Thread.at_lock kept value = ⊥
Got Thread.at_store kept value = ⊥
Got Thread.at_load kept value = ⊥
Got Thread.at_unlock kept value = kept ≡ value
Got Thread.at_end kept value = kept ≡ value

abbrev pub Seen : (t u : Thread) (r1 r2 : ℕ) → Type 0
Seen t u r1 r2 = (a b : ℕ) → Got t r1 a → Got u r2 b → (a ≡ 1) ⊎ (b ≡ 1)

pub record Running (t u : Thread) (b c locked : Bool) (x y r1 r2 : ℕ) : Type 0 where
  pub mine : Wrote t b x
  pub theirs : Wrote u c y
  pub excludes : Excludes locked (inside t) (inside u)
  pub seen : Seen t u r1 r2

pub Running-swap :
    {t u : Thread} {b c locked : Bool} {x y r1 r2 : ℕ}
    → Running t u b c locked x y r1 r2
    → Running u t c b locked y x r2 r1
Running-swap {t} {u} {locked = l} h = record {
  mine = h.theirs;
  theirs = h.mine;
  excludes = Excludes-swap l (inside t) (inside u) h.excludes;
  seen = λ a b ga gb. elim (h.seen b a gb ga) [ inl one ↦ inr one | inr one ↦ inl one ];
}

-- A flush of the thread's own buffer.
Wrote-flushed : (t : Thread) (b : Bool) (own : ℕ) → Wrote t b own → Wrote t false (flushed b own)
Wrote-flushed Thread.at_lock b own h = refl
Wrote-flushed Thread.at_store b own h = refl
Wrote-flushed Thread.at_load true own h = inr refl
Wrote-flushed Thread.at_load false own h = elim h [
  | inl e ↦ absurd (ground arith)
  | inr one ↦ inr one
]
Wrote-flushed Thread.at_unlock true own h = inr refl
Wrote-flushed Thread.at_unlock false own h = elim h [
  | inl e ↦ absurd (ground arith)
  | inr one ↦ inr one
]
Wrote-flushed Thread.at_end b own (e, one) = (refl, ground arith)

pub Running-flushed :
    {t u : Thread} {b c locked : Bool} {x y r1 r2 : ℕ}
    → Running t u b c locked x y r1 r2
    → Running t u false c locked (flushed b x) y r1 r2
Running-flushed {t} {b = b} {x = x} h = record {
  mine = Wrote-flushed t b x h.mine;
  theirs = h.theirs;
  excludes = h.excludes;
  seen = h.seen;
}

-- At its load the thread finds the other one before its lock or at its end.
Seen-load :
    (u : Thread) (c : Bool) (locked : Bool) (y r2 : ℕ)
    → Wrote u c y
    → Excludes locked true (inside u)
    → Seen Thread.at_unlock u y r2
Seen-load Thread.at_lock c l y r2 h e a b ga gb = absurd gb
Seen-load Thread.at_store c l y r2 h e a b ga gb = absurd e
Seen-load Thread.at_load c l y r2 h e a b ga gb = absurd e
Seen-load Thread.at_unlock c l y r2 h e a b ga gb = absurd e
Seen-load Thread.at_end c l y r2 (f, one) e a b ga gb = inl (sym ga ∙ one)

Excludes-lock : (other : Bool) → Excludes false false other → Excludes true true other
Excludes-lock true e = absurd (ground arith)
Excludes-lock false e = refl

Excludes-unlock : (l other : Bool) → Excludes l true other → Excludes false false other
Excludes-unlock l true e = absurd e
Excludes-unlock l false e = refl

abbrev pub After : (v : View) (u : Thread) (c : Bool) (x y r2 : ℕ) → Type 0
After v u c x y r2 = Running v.at u v.buffered c v.locked x y v.kept r2

pub Running-advance :
    (t u : Thread) (b c l : Bool) (x y r1 r2 : ℕ)
    → Running t u b c l x y r1 r2
    → After (advance true t b l y r1) u c x y r2
unfolding advance
Running-advance Thread.at_lock u false c false x y r1 r2 h = record {
  mine = refl;
  theirs = h.theirs;
  excludes = Excludes-lock (inside u) h.excludes;
  seen = λ a b ga gb. absurd ga;
}
Running-advance Thread.at_lock u false c true x y r1 r2 h = h
Running-advance Thread.at_lock u true c l x y r1 r2 h = h
Running-advance Thread.at_store u b c l x y r1 r2 h = record {
  mine = inl refl;
  theirs = h.theirs;
  excludes = h.excludes;
  seen = λ a b ga gb. absurd ga;
}
Running-advance Thread.at_load u b c l x y r1 r2 h = record {
  mine = h.mine;
  theirs = h.theirs;
  excludes = h.excludes;
  seen = Seen-load u c l y r2 h.theirs h.excludes;
}
Running-advance Thread.at_unlock u true c l x y r1 r2 h = h
Running-advance Thread.at_unlock u false c l x y r1 r2 h = record {
  mine = elim h.mine [ inl e ↦ absurd (ground arith) | inr one ↦ (refl, one) ];
  theirs = h.theirs;
  excludes = Excludes-unlock l (inside u) h.excludes;
  seen = h.seen;
}
Running-advance Thread.at_end u b c l x y r1 r2 h = h
