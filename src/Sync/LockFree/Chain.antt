-- ===== src/Sync/LockFree/Chain.antt =====
-- The nodes of the stack of lock-free/stack.c, from `top` on.
use caos_seminars.Prelude.{
  ℕ, ◌+◌, ◌≡◌, ◌≢◌, sym, ap, ◌∙◌, inl, inr, ◌⊎◌, List, [], ◌∷◌, Option, none, some, arith, ◌==◌,
  if◌then◌else◌,
}
use caos_seminars.Kernel.{update}
use caos_seminars.Kernel.Moves.{update-other}
use caos_seminars.Sync.LockFree.{Node, Heap}

-- A node's address and its payload.
abbrev pub Cell : Type 0
Cell = ℕ × ℕ

abbrev pub NotIn : ℕ → List Cell → Type 0
NotIn a [] = Unit
NotIn a ((x, v) ∷ cells) = (a ≢ x) × NotIn a cells

abbrev pub IsIn : ℕ → List Cell → Type 0
IsIn a [] = ⊥
IsIn a ((x, v) ∷ cells) = (a ≡ x) ⊎ IsIn a cells

abbrev pub Distinct : List Cell → Type 0
Distinct [] = Unit
Distinct ((x, v) ∷ cells) = NotIn x cells × Distinct cells

-- The heap holds a node with this payload and this link.
abbrev pub Holds : Heap → (a payload prev : ℕ) → Type 0
Holds heap a payload prev = heap a ≡ some (record { payload = payload; prev = prev })

abbrev pub Chain : Heap → (top : ℕ) → List Cell → Type 0
Chain heap top [] = top ≡ 0
Chain heap top ((x, v) ∷ cells) =
    (top ≡ x) × (x ≢ 0) × ((prev : ℕ) × Holds heap x v prev × Chain heap prev cells)

abbrev pub values : List Cell → List ℕ
values [] = []
values ((x, v) ∷ cells) = v ∷ values cells

abbrev pub count : ℕ → List ℕ → ℕ
count a [] = 0
count a (x ∷ xs) = (if a == x then 1 else 0) + count a xs

-- A change of the heap elsewhere leaves the stack alone.
pub Chain-update :
    (heap : Heap) (a : ℕ) (o : Option Node) (top : ℕ) (cells : List Cell)
    → NotIn a cells
    → Chain heap top cells
    → Chain (update heap a o) top cells
Chain-update heap a o top [] apart chain = chain
Chain-update heap a o top ((x, v) ∷ cells) (ne, apart) (here, real, (prev, held, chain)) = (
  here,
  real,
  (
    prev,
    update-other heap a x o (λ e. ne (sym e)) ∙ held,
    Chain-update heap a o prev cells apart chain,
  ),
)

pub Chain-IsIn :
    (heap : Heap) (a top : ℕ) (cells : List Cell)
    → IsIn a cells
    → Chain heap top cells
    → (v : ℕ) × (prev : ℕ) × Holds heap a v prev
Chain-IsIn heap a top [] mem chain = absurd mem
Chain-IsIn heap a top ((x, v) ∷ cells) (inl e) (here, real, (prev, held, chain)) =
    (v, prev, ap heap e ∙ held)
Chain-IsIn heap a top ((x, v) ∷ cells) (inr mem) (here, real, (prev, held, chain)) =
    Chain-IsIn heap a prev cells mem chain

-- An address with no node is not in the stack.
pub NotIn-none :
    (heap : Heap) (a top : ℕ) (cells : List Cell)
    → heap a ≡ none
    → Chain heap top cells
    → NotIn a cells
NotIn-none heap a top [] free chain = tt
NotIn-none heap a top ((x, v) ∷ cells) free (here, real, (prev, held, chain)) = (
  (λ e. absurd (ground (arith, sym free ∙ ap heap e ∙ held))),
  NotIn-none heap a prev cells free chain,
)

pub IsIn-ne : (a b : ℕ) (cells : List Cell) → IsIn a cells → NotIn b cells → a ≢ b
IsIn-ne a b [] mem apart = absurd mem
IsIn-ne a b ((x, v) ∷ cells) (inl e) (ne, apart) = λ f. ne (sym f ∙ e)
IsIn-ne a b ((x, v) ∷ cells) (inr mem) (ne, apart) = IsIn-ne a b cells mem apart

-- The top of a stack that is not empty.
pub IsIn-top :
    (heap : Heap) (top : ℕ) (cells : List Cell) → top ≢ 0 → Chain heap top cells → IsIn top cells
IsIn-top heap top [] real chain = absurd (real chain)
IsIn-top heap top ((x, v) ∷ cells) real (here, r, rest) = inl here

pub Holds-update :
    (heap : Heap) (a b v prev : ℕ) (o : Option Node)
    → a ≢ b
    → Holds heap a v prev
    → Holds (update heap b o) a v prev
Holds-update heap a b v prev o ne held = update-other heap b a o ne ∙ held

-- Two nodes at one address are one node.
pub Holds-unique :
    (heap : Heap) (a v p w q : ℕ) → Holds heap a v p → Holds heap a w q → (v ≡ w) × (p ≡ q)
Holds-unique heap a v p w q h k =
    let same = sym h ∙ k in (ground (arith, same), ground (arith, same))
