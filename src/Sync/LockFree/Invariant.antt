-- ===== src/Sync/LockFree/Invariant.antt =====
-- How the stack of lock-free/stack.c and the nodes that its two threads hold fit together.
use caos_seminars.Prelude.{ℕ, suc, length, ◌+◌, ◌≡◌, ◌≢◌, List, [], ◌∷◌, if◌then◌else◌, ltb, true}
use caos_seminars.Sync.LockFree.{Heap, Shared, Pusher, Popper, Outcome}
use caos_seminars.Sync.LockFree.Chain.{Cell, NotIn, IsIn, Distinct, Holds, Chain, values, count}

-- The values whose push is complete are those below it.
abbrev pub pushed : Pusher → ℕ
pushed (Pusher.at_malloc i) = i
pushed (Pusher.at_load i node) = i
pushed (Pusher.at_link i node top) = i
pushed (Pusher.at_cas i node top) = i

-- So many nodes have been printed.
abbrev pub popped : Popper → ℕ
popped (Popper.at_load i) = i
popped (Popper.at_prev i top) = i
popped (Popper.at_cas i top prev) = i
popped (Popper.at_print i node) = i
popped (Popper.at_free i node) = suc i

-- The node of a push under way is outside of the stack.
abbrev pub Pushes : Heap → List Cell → Pusher → Type 0
Pushes heap cells (Pusher.at_malloc i) = Unit
Pushes heap cells (Pusher.at_load i node) =
    (node ≢ 0) × NotIn node cells × ((prev : ℕ) × Holds heap node i prev)
Pushes heap cells (Pusher.at_link i node top) =
    (node ≢ 0) × NotIn node cells × ((prev : ℕ) × Holds heap node i prev)
Pushes heap cells (Pusher.at_cas i node top) = (node ≢ 0) × NotIn node cells × Holds heap node i top

-- The node that the consumer has seen at the top is still in the stack, and the one that it has
-- popped is outside; `held` has its payload as long as it is not printed.
abbrev pub Pops : Heap → List Cell → (held : List ℕ) → Popper → Type 0
Pops heap cells held (Popper.at_load i) = held ≡ []
Pops heap cells held (Popper.at_prev i top) = (held ≡ []) × IsIn top cells
Pops heap cells held (Popper.at_cas i top prev) =
    (held ≡ []) × IsIn top cells × ((v : ℕ) × Holds heap top v prev)
Pops heap cells held (Popper.at_print i node) =
    NotIn node cells × ((v : ℕ) × (prev : ℕ) × Holds heap node v prev × (held ≡ v ∷ []))
Pops heap cells held (Popper.at_free i node) =
    (held ≡ []) × NotIn node cells × ((v : ℕ) × (prev : ℕ) × Holds heap node v prev)

-- The nodes outside of the stack are two.
abbrev pub Apart : (a : ℕ) → Popper → Type 0
Apart a (Popper.at_load i) = Unit
Apart a (Popper.at_prev i top) = Unit
Apart a (Popper.at_cas i top prev) = Unit
Apart a (Popper.at_print i node) = node ≢ a
Apart a (Popper.at_free i node) = node ≢ a

abbrev pub Differ : Pusher → Popper → Type 0
Differ (Pusher.at_malloc i) q = Unit
Differ (Pusher.at_load i node) q = Apart node q
Differ (Pusher.at_link i node top) q = Apart node q
Differ (Pusher.at_cas i node top) q = Apart node q

-- `once`: each value pushed is in the stack, held or printed, once, and no other value is; `size` counts them.
pub record Linear (s : Shared) (p : Pusher) (q : Popper) : Type 0 where
  pub cells : List Cell
  pub held : List ℕ
  pub chain : Chain s.heap s.top cells
  pub distinct : Distinct cells
  pub pushes : Pushes s.heap cells p
  pub pops : Pops s.heap cells held q
  pub differ : Differ p q
  pub once :
      (v : ℕ)
      → count v (values cells) + count v held + count v s.printed
        ≡ (if ltb v (pushed p) then 1 else 0)
  pub size : length cells + length held + length s.printed ≡ pushed p
  pub consumed : length s.printed ≡ popped q

abbrev pub PusherStep : (q : Popper) → Outcome (Pusher × Shared) → Type 0
PusherStep q (Outcome.done (p, s)) = Linear s p q
PusherStep q Outcome.fault = ⊥
PusherStep q Outcome.undefined = ⊥

-- The consumer is to pop, and the stack is empty.
abbrev pub PopsEmpty : (n_pushes : ℕ) → Shared → Popper → Type 0
PopsEmpty n_pushes s q = (i : ℕ) × (q ≡ Popper.at_load i) × (ltb i n_pushes ≡ true) × (s.top ≡ 0)

-- What a step of the consumer, from `before` and `q`, comes to.
abbrev pub PopperStep :
    (n_pushes : ℕ) (before : Shared) (q : Popper) (p : Pusher) → Outcome (Popper × Shared) → Type 0
PopperStep n_pushes before q p (Outcome.done (q', s)) = Linear s p q'
PopperStep n_pushes before q p Outcome.fault = ⊥
PopperStep n_pushes before q p Outcome.undefined = PopsEmpty n_pushes before q
