-- ===== src/Sync/LockFree/Destroy.antt =====
-- `stack_destroy` of lock-free/stack.c.
use caos_seminars.Prelude.{
  ℕ, zero, suc, ◌≡◌, ◌≤◌, refl, sym, ap, ◌∙◌, inl, inr, List, [], ◌∷◌, Option, none, some, length,
  arith, subst,
}
use caos_seminars.Kernel.{update}
use caos_seminars.Kernel.Moves.{update_self, update-other}
use caos_seminars.Sync.LockFree.{Heap, Outcome, stack_destroy}
use caos_seminars.Sync.LockFree.Chain.{Cell, NotIn, IsIn, Distinct, Chain, Chain-update}

-- The nodes of the stack are freed, and nothing else is.
pub record Freed (heap : Heap) (cells : List Cell) (heap' : Heap) : Type 0 where
  pub gone : (a : ℕ) → IsIn a cells → heap' a ≡ none
  pub kept : (a : ℕ) → NotIn a cells → heap' a ≡ heap a

abbrev pub Destroyed : Heap → List Cell → Outcome (Option Heap) → Type 0
Destroyed heap cells (Outcome.done (some heap')) = Freed heap cells heap'
Destroyed heap cells (Outcome.done none) = ⊥
Destroyed heap cells Outcome.fault = ⊥
Destroyed heap cells Outcome.undefined = ⊥

Freed-cons :
    (heap heap' : Heap) (x v : ℕ) (cells : List Cell)
    → NotIn x cells
    → Freed (update heap x none) cells heap'
    → Freed heap ((x, v) ∷ cells) heap'
Freed-cons heap heap' x v cells out f = record {
  gone = λ a mem. elim mem [
    | inl e ↦ ap heap' e ∙ f.kept x out ∙ update_self heap x none
    | inr rest ↦ f.gone a rest
  ];
  kept = λ a apart. f.kept a apart.1 ∙ update-other heap x a none apart.0;
}

Destroyed-cons :
    (heap : Heap) (x v : ℕ) (cells : List Cell) (o : Outcome (Option Heap))
    → NotIn x cells
    → Destroyed (update heap x none) cells o
    → Destroyed heap ((x, v) ∷ cells) o
Destroyed-cons heap x v cells (Outcome.done (some heap')) out f =
    Freed-cons heap heap' x v cells out f
Destroyed-cons heap x v cells (Outcome.done none) out f = absurd f
Destroyed-cons heap x v cells Outcome.fault out f = absurd f
Destroyed-cons heap x v cells Outcome.undefined out f = absurd f

-- On a stack whose nodes lie at distinct addresses, with fuel for as many nodes as it has,
-- `stack_destroy` comes to its end, reads no freed node and frees none twice; after it, the nodes of the
-- stack are free and all others are as before.
pub stack_destroy-Destroyed :
    (fuel : ℕ) (heap : Heap) (top : ℕ) (cells : List Cell)
    → Chain heap top cells
    → Distinct cells
    → length cells ≤ fuel
    → Destroyed heap cells (stack_destroy fuel heap top)
unfolding stack_destroy
stack_destroy-Destroyed fuel heap zero [] chain distinct enough = record {
  gone = λ a mem. absurd mem;
  kept = λ a out. refl;
}
stack_destroy-Destroyed fuel heap (suc t) [] chain distinct enough = absurd (omega (arith, chain))
stack_destroy-Destroyed fuel heap zero ((x, v) ∷ cells) (here, real, rest) distinct enough =
    absurd (real (sym here))
stack_destroy-Destroyed zero heap (suc t) ((x, v) ∷ cells) chain distinct enough =
    absurd (omega (arith, enough))
stack_destroy-Destroyed (suc fuel) heap (suc t) ((x, v) ∷ cells) (here, real, (prev, held, chain))
      (out, distinct) enough =
    let there = ap heap here ∙ held in
    let out_t = subst (λ a. NotIn a cells) (sym here) out in
    rw (stack_destroy, there)
      (subst
        (λ a. Destroyed heap ((a, v) ∷ cells) (stack_destroy fuel (update heap (suc t) none) prev))
        here
        (Destroyed-cons heap (suc t) v cells _ out_t (
          stack_destroy-Destroyed fuel (update heap (suc t) none) prev cells
            (Chain-update heap (suc t) none prev cells out_t chain) distinct
            (omega (arith, enough)))))
