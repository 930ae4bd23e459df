-- ===== src/Sync/LockFree/Once.antt =====
-- The two threads of lock-free/stack.c, in any order.
use caos_seminars.Prelude.{
  ℕ, ◌+◌, ◌≡◌, ◌≤◌, ◌⊎◌, refl, ap, ◌∙◌, inl, inr, Bool, List, [], ◌∷◌, length, arith, if◌then◌else◌,
  ltb, subst,
}
use caos_seminars.Sync.LockFree.{
  Heap, Pusher, Popper, Outcome, State, Turn, producer, consumer, step, run, start,
}
use caos_seminars.Sync.LockFree.Chain.{Cell, Chain, values, count}
use caos_seminars.Sync.LockFree.Invariant.{Linear, Pops, PopsEmpty, pushed, popped}
use caos_seminars.Sync.LockFree.Producer.{producer-Linear}
use caos_seminars.Sync.LockFree.Consumer.{consumer-Linear}

abbrev Good : State → Type 0
Good s = Linear s.shared s.pusher s.popper

-- In this order of steps `consumer` comes to a pop of the empty stack.
pub data MeetsEmpty (n_pushes : ℕ) : List Turn → State → Type 0 where
  now :
      (spurious : Bool) (turns : List Turn) (s : State)
      → PopsEmpty n_pushes s.shared s.popper
      → MeetsEmpty n_pushes (Turn.turn_consumer spurious ∷ turns) s
  later :
      (turn : Turn) (turns : List Turn) (s s' : State)
      → step n_pushes turn s ≡ Outcome.done s'
      → MeetsEmpty n_pushes turns s'
      → MeetsEmpty n_pushes (turn ∷ turns) s

abbrev GoodRun : (n_pushes : ℕ) → List Turn → State → Outcome State → Type 0
GoodRun n turns first (Outcome.done s) = Good s
GoodRun n turns first Outcome.fault = ⊥
GoodRun n turns first Outcome.undefined = MeetsEmpty n turns first

Outcome-cases {ℓ} :
    {A : Type ℓ} (o : Outcome A)
    → ((a : A) × (o ≡ Outcome.done a)) ⊎ (o ≡ Outcome.fault) ⊎ (o ≡ Outcome.undefined)
Outcome-cases (Outcome.done a) = inl (a, refl)
Outcome-cases Outcome.fault = inr (inl refl)
Outcome-cases Outcome.undefined = inr (inr refl)

step-Good :
    (n : ℕ) (turn : Turn) (turns : List Turn) (s : State)
    → Good s
    → GoodRun n (turn ∷ turns) s (step n turn s)
unfolding step
step-Good n (Turn.turn_producer address spurious) turns s l =
    let next = producer-Linear n address spurious s.shared s.popper s.pusher l in
    elim (Outcome-cases (producer n s.pusher address spurious s.shared)) [
      | inl ((p, shared), goes) ↦ rw (step, goes) (rw goes at next)
      | inr (inl faults) ↦ absurd (rw faults at next)
      | inr (inr undef) ↦ absurd (rw undef at next)
    ]
step-Good n (Turn.turn_consumer spurious) turns s l =
    let next = consumer-Linear n s.shared s.pusher spurious s.popper l in
    elim (Outcome-cases (consumer n s.popper spurious s.shared)) [
      | inl ((q, shared), goes) ↦ rw (step, goes) (rw goes at next)
      | inr (inl faults) ↦ absurd (rw faults at next)
      | inr (inr undef) ↦ rw (step, undef) (MeetsEmpty.now spurious turns s (rw undef at next))
    ]

-- A step, and what comes of the others.
GoodRun-later :
    (n : ℕ) (turn : Turn) (turns : List Turn) (s s' : State) (o : Outcome State)
    → step n turn s ≡ Outcome.done s'
    → GoodRun n turns s' o
    → GoodRun n (turn ∷ turns) s o
GoodRun-later n turn turns s s' (Outcome.done last) goes l = l
GoodRun-later n turn turns s s' Outcome.fault goes l = l
GoodRun-later n turn turns s s' Outcome.undefined goes l = MeetsEmpty.later turn turns s s' goes l

run-Good : (n : ℕ) (turns : List Turn) (s : State) → Good s → GoodRun n turns s (run n turns s)
unfolding run
run-Good n [] s l = l
run-Good n (turn ∷ turns) s l =
    let next = step-Good n turn turns s l in
    elim (Outcome-cases (step n turn s)) [
      | inl (s', goes) ↦
          let rest = run-Good n turns s' (rw goes at next) in
          rw (run, goes) (GoodRun-later n turn turns s s' (run n turns s') goes rest)
      | inr (inl faults) ↦ absurd (rw faults at next)
      | inr (inr undef) ↦ rw (run, undef) (rw undef at next)
    ]

start-Good : Good start
start-Good = record {
  cells = [];
  held = [];
  chain = refl;
  distinct = tt;
  pushes = tt;
  pops = refl;
  differ = tt;
  once = λ v. ground arith;
  size = refl;
  consumed = refl;
}

-- The nodes of the stack, and where each value is: in one of them, in the node that the consumer
-- has popped and not printed yet, or printed.
pub record Accounted (s : State) : Type 0 where
  pub cells : List Cell
  pub held : List ℕ
  pub chain : Chain s.shared.heap s.shared.top cells
  pub at_most_one : length held ≤ 1
  pub once :
      (v : ℕ)
      → count v (values cells) + count v held + count v s.shared.printed
        ≡ (if ltb v (pushed s.pusher) then 1 else 0)

-- What comes of the threads from the start.
abbrev pub Safe : (n_pushes : ℕ) → List Turn → Outcome State → Type 0
Safe n_pushes turns (Outcome.done s) = Accounted s
Safe n_pushes turns Outcome.fault = ⊥
Safe n_pushes turns Outcome.undefined = MeetsEmpty n_pushes turns start

Pops-length :
    (heap : Heap) (cells : List Cell) (held : List ℕ) (q : Popper)
    → Pops heap cells held q
    → length held ≤ 1
Pops-length heap cells held (Popper.at_load i) h = omega (arith, ap length h)
Pops-length heap cells held (Popper.at_prev i top) (h, rest) = omega (arith, ap length h)
Pops-length heap cells held (Popper.at_cas i top prev) (h, rest, there) = omega (arith, ap length h)
Pops-length heap cells held (Popper.at_print i node) (out, (v, prev, there, h)) =
    omega (arith, ap length h)
Pops-length heap cells held (Popper.at_free i node) (h, rest, there) = omega (arith, ap length h)

Good-Safe :
    (n : ℕ) (turns : List Turn) (o : Outcome State) → GoodRun n turns start o → Safe n turns o
Good-Safe n turns (Outcome.done s) l = record {
  cells = l.cells;
  held = l.held;
  chain = l.chain;
  at_most_one = Pops-length s.shared.heap l.cells l.held s.popper l.pops;
  once = l.once;
}
Good-Safe n turns Outcome.fault l = absurd l
Good-Safe n turns Outcome.undefined l = l

-- In whatever order the two threads go on, whatever unused addresses `malloc` returns, also those
-- of nodes freed before, and whenever the weak compare-and-swap fails, up to a pop of the empty
-- stack, behind which the source is undefined: no thread reads, writes or frees a node that is not
-- allocated, the nodes from `top` on are allocated down to NULL, and each value whose push is complete
-- is in the stack, in the one node that `consumer` has popped, or printed, exactly once, and no other
-- value is. The outcome is undefined only if in this order `consumer` comes to a pop while the stack
-- is empty.
pub run-Safe : (n_pushes : ℕ) (turns : List Turn) → Safe n_pushes turns (run n_pushes turns start)
run-Safe n turns = Good-Safe n turns (run n turns start) (run-Good n turns start start-Good)

nil_of_length : (cells : List Cell) → length cells ≡ 0 → cells ≡ []
nil_of_length [] e = refl
nil_of_length (c ∷ cells) e = absurd (omega (arith, e))

module _ (n : ℕ) (s : State) where
  empty_at_end :
      (l : Good s) → s.pusher ≡ Pusher.at_malloc n → s.popper ≡ Popper.at_load n → l.cells ≡ []
  empty_at_end l p q =
      nil_of_length l.cells (omega (arith, l.size, l.consumed, ap pushed p, ap popped q))

  Good-all_printed :
      Good s
      → s.pusher ≡ Pusher.at_malloc n
      → s.popper ≡ Popper.at_load n
      → (s.shared.top ≡ 0) × ((v : ℕ) → count v s.shared.printed ≡ (if ltb v n then 1 else 0))
  Good-all_printed l p q =
      let empty = empty_at_end l p q in
      let idle = subst (Pops s.shared.heap l.cells l.held) q l.pops in
      (
        subst (Chain s.shared.heap s.shared.top) empty l.chain,
        λ v.
            let none_left : count v (values l.cells) ≡ 0 = ap (λ c. count v (values c)) empty in
            let none_held : count v l.held ≡ 0 = ap (count v) idle in
            let one_below : ℕ → ℕ = λ k. if ltb v k then 1 else 0 in
            let all : (if ltb v (pushed s.pusher) then 1 else 0) ≡ (if ltb v n then 1 else 0) =
              ap one_below (ap pushed p) in
            omega (arith, none_left, none_held, l.once v ∙ all),
      )

-- Once `producer` has made all its pushes and `consumer` all its pops, none of which met an empty
-- stack, each number below `n_pushes` has been printed exactly once, no other has, and the stack is
-- empty.
pub run-all_printed :
    (n_pushes : ℕ) (turns : List Turn) (s : State)
    → run n_pushes turns start ≡ Outcome.done s
    → s.pusher ≡ Pusher.at_malloc n_pushes
    → s.popper ≡ Popper.at_load n_pushes
    → (s.shared.top ≡ 0) × ((v : ℕ) → count v s.shared.printed ≡ (if ltb v n_pushes then 1 else 0))
run-all_printed n turns s e p q =
    Good-all_printed n s (subst (GoodRun n turns start) e (run-Good n turns start start-Good)) p q
