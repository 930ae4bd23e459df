-- ===== src/Sync/LockFree.antt =====
-- lock-free/stack.c: the stack with compare-and-swap, and the `producer` and the `consumer` that
-- `main` runs on it. One step is one access of memory that both can see. `malloc` may return any
-- address that is not in use, also one that was freed before.
-- `stack_pop` has no `return` for an empty stack, whose value `consumer` uses all the same: the C
-- standard defines nothing from there on, and neither does the model. So `stack_pop` never returns
-- NULL, and the retry in `consumer` has no step.
use caos_seminars.Prelude.{
  ℕ, zero, suc, ◌≡◌, Bool, true, false, List, [], ◌∷◌, Option, none, some, ◌==◌, ltb, if◌then◌else◌,
}
use caos_seminars.Kernel.{update}
pub mod Chain
pub mod Invariant
pub mod Producer
pub mod Consumer
pub mod Once
pub mod Destroy

pub record Node : Type 0 where
  pub payload : ℕ
  pub prev : ℕ

-- Addresses of nodes, 0 for NULL.
abbrev pub Heap : Type 0
Heap = ℕ → Option Node

-- `printed` has the payloads that `consumer` has printed, the last one first.
pub record Shared : Type 0 where
  pub heap : Heap
  pub top : ℕ
  pub printed : List ℕ

-- `fault`: an access of a node that is not allocated; `undefined`: a pop of the empty stack.
pub data Outcome {ℓ} (A : Type ℓ) : Type ℓ where
  done : (result : A) → Outcome A
  fault : Outcome A
  undefined : Outcome A

-- `stack_push` of the value `i`, which is also the number of pushes made: before `malloc`, before
-- the load of `top`, before `node->prev = top`, and before the compare-and-swap.
pub data Pusher : Type 0 where
  at_malloc : (i : ℕ) → Pusher
  at_load : (i node : ℕ) → Pusher
  at_link : (i node top : ℕ) → Pusher
  at_cas : (i node top : ℕ) → Pusher

-- `consumer` after `i` nodes: before the load of `top` in `stack_pop`, before that of `top->prev`, and
-- before the compare-and-swap; then before the print and before `free`.
pub data Popper : Type 0 where
  at_load : (i : ℕ) → Popper
  at_prev : (i top : ℕ) → Popper
  at_cas : (i top prev : ℕ) → Popper
  at_print : (i node : ℕ) → Popper
  at_free : (i node : ℕ) → Popper

-- A store to a node.
abbrev pub write : Heap → (node : ℕ) → (Node → Node) → Outcome Heap
write heap node change = elim (heap node) [
  | some old ↦ Outcome.done (update heap node (some (change old)))
  | none ↦ Outcome.fault
]

abbrev pub is_fresh : Heap → ℕ → Bool
is_fresh heap zero = false
is_fresh heap (suc a) = elim (heap (suc a)) [ none ↦ true | some _ ↦ false ]

-- A step of `producer`, with what `malloc` returns there, and whether a weak compare-and-swap fails
-- with no reason. An address in use is no result of `malloc`, and then nothing happens.
unfoldable pub producer :
    (n_pushes : ℕ) → Pusher → (address : ℕ) (spurious : Bool) → Shared → Outcome (Pusher × Shared)
producer n_pushes (Pusher.at_malloc i) address spurious s =
    if ltb i n_pushes
    then (if is_fresh s.heap address
        then Outcome.done (
          Pusher.at_load i address,
          record s { heap = update s.heap address (some (record { payload = i; prev = 0 })) },
        )
        else Outcome.done (Pusher.at_malloc i, s))
    else Outcome.done (Pusher.at_malloc i, s)
producer n_pushes (Pusher.at_load i node) address spurious s =
    Outcome.done (Pusher.at_link i node s.top, s)
producer n_pushes (Pusher.at_link i node top) address spurious s =
    elim (write s.heap node (λ old. record old { prev = top })) [
      | Outcome.done heap ↦ Outcome.done (Pusher.at_cas i node top, record s { heap = heap })
      | Outcome.fault ↦ Outcome.fault
      | Outcome.undefined ↦ Outcome.undefined
    ]
producer n_pushes (Pusher.at_cas i node top) address spurious s =
    if spurious
    then Outcome.done (Pusher.at_load i node, s)
    else if s.top == top
    then Outcome.done (Pusher.at_malloc (suc i), record s { top = node })
    else Outcome.done (Pusher.at_load i node, s)

-- A step of `consumer`.
unfoldable pub consumer :
    (n_pushes : ℕ) → Popper → (spurious : Bool) → Shared → Outcome (Popper × Shared)
consumer n_pushes (Popper.at_load i) spurious s =
    if ltb i n_pushes
    then (if s.top == 0 then Outcome.undefined else Outcome.done (Popper.at_prev i s.top, s))
    else Outcome.done (Popper.at_load i, s)
consumer n_pushes (Popper.at_prev i top) spurious s = elim (s.heap top) [
  | some node ↦ Outcome.done (Popper.at_cas i top node.prev, s)
  | none ↦ Outcome.fault
]
consumer n_pushes (Popper.at_cas i top prev) spurious s =
    if spurious
    then Outcome.done (Popper.at_load i, s)
    else if s.top == top
    then Outcome.done (Popper.at_print i top, record s { top = prev })
    else Outcome.done (Popper.at_load i, s)
consumer n_pushes (Popper.at_print i node) spurious s = elim (s.heap node) [
  | some there ↦
      Outcome.done (Popper.at_free i node, record s { printed = there.payload ∷ s.printed })
  | none ↦ Outcome.fault
]
consumer n_pushes (Popper.at_free i node) spurious s = elim (s.heap node) [
  | some there ↦ Outcome.done (Popper.at_load (suc i), record s { heap = update s.heap node none })
  | none ↦ Outcome.fault
]

pub record State : Type 0 where
  pub shared : Shared
  pub pusher : Pusher
  pub popper : Popper

pub data Turn : Type 0 where
  turn_producer : (address : ℕ) (spurious : Bool) → Turn
  turn_consumer : (spurious : Bool) → Turn

unfoldable pub step : (n_pushes : ℕ) → Turn → State → Outcome State
step n_pushes (Turn.turn_producer address spurious) s =
    elim (producer n_pushes s.pusher address spurious s.shared) [
      | Outcome.done (pusher, shared) ↦ Outcome.done (record s { pusher = pusher; shared = shared })
      | Outcome.fault ↦ Outcome.fault
      | Outcome.undefined ↦ Outcome.undefined
    ]
step n_pushes (Turn.turn_consumer spurious) s =
    elim (consumer n_pushes s.popper spurious s.shared) [
      | Outcome.done (popper, shared) ↦ Outcome.done (record s { popper = popper; shared = shared })
      | Outcome.fault ↦ Outcome.fault
      | Outcome.undefined ↦ Outcome.undefined
    ]

unfoldable pub run : (n_pushes : ℕ) → List Turn → State → Outcome State
run n_pushes [] s = Outcome.done s
run n_pushes (turn ∷ turns) s = elim (step n_pushes turn s) [
  | Outcome.done s' ↦ run n_pushes turns s'
  | Outcome.fault ↦ Outcome.fault
  | Outcome.undefined ↦ Outcome.undefined
]

-- `stack_init`
abbrev pub start : State
start = record {
  shared = record { heap = λ _. none; top = 0; printed = [] };
  pusher = Pusher.at_malloc 0;
  popper = Popper.at_load 0;
}

-- The loop of `stack_destroy`, on fuel.
unfoldable pub stack_destroy : (fuel : ℕ) → Heap → (curr : ℕ) → Outcome (Option Heap)
stack_destroy fuel heap zero = Outcome.done (some heap)
stack_destroy zero heap (suc c) = Outcome.done none
stack_destroy (suc fuel) heap (suc c) = elim (heap (suc c)) [
  | some node ↦ stack_destroy fuel (update heap (suc c) none) node.prev
  | none ↦ Outcome.fault
]
