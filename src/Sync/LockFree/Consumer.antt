-- ===== src/Sync/LockFree/Consumer.antt =====
-- A step of `consumer` in lock-free/stack.c keeps the invariant and does not fault.
use caos_seminars.Prelude.{
  length, ℕ, suc, ◌≡◌, refl, sym, ap, ◌∙◌, inl, inr, Bool, List, [], ◌∷◌, Option, none, arith, ◌==◌,
  ltb, Bool-cases, subst,
}
use caos_seminars.Kernel.{update}
use caos_seminars.Sync.LockFree.{Node, Heap, Shared, Pusher, Popper, consumer}
use caos_seminars.Sync.LockFree.Chain.{
  Cell, NotIn, IsIn, Distinct, Holds, Chain, values, count, Chain-update, Chain-IsIn, IsIn-top,
  Holds-update, Holds-unique,
}
use caos_seminars.Sync.LockFree.Invariant.{Pushes, Differ, Linear, PopperStep}

-- What the producer knows outlives the removal of the top.
Pushes-tail :
    (heap : Heap) (x v : ℕ) (cells : List Cell) (p : Pusher)
    → Pushes heap ((x, v) ∷ cells) p
    → Pushes heap cells p
Pushes-tail heap x v cells (Pusher.at_malloc i) h = h
Pushes-tail heap x v cells (Pusher.at_load i node) (real, (ne, out), there) = (real, out, there)
Pushes-tail heap x v cells (Pusher.at_link i node top) (real, (ne, out), there) = (real, out, there)
Pushes-tail heap x v cells (Pusher.at_cas i node top) (real, (ne, out), there) = (real, out, there)

-- The popped node is not the one of the push.
Differ-pop :
    (heap : Heap) (x v i : ℕ) (cells : List Cell) (p : Pusher)
    → Pushes heap ((x, v) ∷ cells) p
    → Differ p (Popper.at_print i x)
Differ-pop heap x v i cells (Pusher.at_malloc j) h = tt
Differ-pop heap x v i cells (Pusher.at_load j node) (real, (ne, out), there) = λ e. ne (sym e)
Differ-pop heap x v i cells (Pusher.at_link j node top) (real, (ne, out), there) = λ e. ne (sym e)
Differ-pop heap x v i cells (Pusher.at_cas j node top) (real, (ne, out), there) = λ e. ne (sym e)

-- The node of a push is there after `free` of another.
Pushes-update :
    (heap : Heap) (a i : ℕ) (o : Option Node) (cells : List Cell) (p : Pusher)
    → Differ p (Popper.at_free i a)
    → Pushes heap cells p
    → Pushes (update heap a o) cells p
Pushes-update heap a i o cells (Pusher.at_malloc j) differ h = h
Pushes-update heap a i o cells (Pusher.at_load j node) differ (real, out, (prev, there)) =
    (real, out, (prev, Holds-update heap node a j prev o (λ e. differ (sym e)) there))
Pushes-update heap a i o cells (Pusher.at_link j node top) differ (real, out, (prev, there)) =
    (real, out, (prev, Holds-update heap node a j prev o (λ e. differ (sym e)) there))
Pushes-update heap a i o cells (Pusher.at_cas j node top) differ (real, out, there) =
    (real, out, Holds-update heap node a j top o (λ e. differ (sym e)) there)

Differ-idle : (p : Pusher) (i : ℕ) → Differ p (Popper.at_load i)
Differ-idle (Pusher.at_malloc j) i = tt
Differ-idle (Pusher.at_load j node) i = tt
Differ-idle (Pusher.at_link j node top) i = tt
Differ-idle (Pusher.at_cas j node top) i = tt

Differ-prev : (p : Pusher) (i top : ℕ) → Differ p (Popper.at_prev i top)
Differ-prev (Pusher.at_malloc j) i t = tt
Differ-prev (Pusher.at_load j node) i t = tt
Differ-prev (Pusher.at_link j node top) i t = tt
Differ-prev (Pusher.at_cas j node top) i t = tt

Differ-cas : (p : Pusher) (i top prev : ℕ) → Differ p (Popper.at_cas i top prev)
Differ-cas (Pusher.at_malloc j) i t r = tt
Differ-cas (Pusher.at_load j node) i t r = tt
Differ-cas (Pusher.at_link j node top) i t r = tt
Differ-cas (Pusher.at_cas j node top) i t r = tt

Differ-free :
    (p : Pusher) (i node : ℕ) → Differ p (Popper.at_print i node) → Differ p (Popper.at_free i node)
Differ-free (Pusher.at_malloc j) i a h = h
Differ-free (Pusher.at_load j node) i a h = h
Differ-free (Pusher.at_link j node top) i a h = h
Differ-free (Pusher.at_cas j node top) i a h = h

module _ (n : ℕ) (s : Shared) (p : Pusher) where
  -- The consumer goes on with nothing in hand.
  idles :
      (i top prev : ℕ)
      → (l : Linear s p (Popper.at_cas i top prev)) → l.held ≡ []
      → Linear s p (Popper.at_load i)
  idles i top prev l empty = record {
    cells = l.cells;
    held = l.held;
    chain = l.chain;
    distinct = l.distinct;
    pushes = l.pushes;
    pops = empty;
    differ = Differ-idle p i;
    once = l.once;
    size = l.size;
    consumed = l.consumed;
  }

  module _ (spurious : Bool) where
    loads :
        (i : ℕ)
        → Linear s p (Popper.at_load i)
        → PopperStep n s (Popper.at_load i) p (consumer n (Popper.at_load i) spurious s)
    unfolding consumer
    loads i l = elim (Bool-cases (ltb i n)) [
      | inr over ↦ rw over l
      | inl more ↦ elim (Bool-cases (s.top == 0)) [
        | inl empty ↦
            let none_there : s.top ≡ 0 = ground arith in
            rw (more, empty) (i, refl, more, none_there)
        | inr some_node ↦
            rw (more, some_node)
              (record {
                cells = l.cells;
                held = l.held;
                chain = l.chain;
                distinct = l.distinct;
                pushes = l.pushes;
                pops = (l.pops, IsIn-top s.heap s.top l.cells (λ e. absurd (ground arith)) l.chain);
                differ = Differ-prev p i s.top;
                once = l.once;
                size = l.size;
                consumed = l.consumed;
              })
      ]
    ]

    follows :
        (i top : ℕ)
        → Linear s p (Popper.at_prev i top)
        → PopperStep n s (Popper.at_prev i top) p (consumer n (Popper.at_prev i top) spurious s)
    unfolding consumer
    follows i top l =
        let (empty, mem) = l.pops in
        let (v, prev, there) = Chain-IsIn s.heap top s.top l.cells mem l.chain in
        rw (consumer, there)
          (record {
            cells = l.cells;
            held = l.held;
            chain = l.chain;
            distinct = l.distinct;
            pushes = l.pushes;
            pops = (empty, mem, (v, there));
            differ = Differ-cas p i top prev;
            once = l.once;
            size = l.size;
            consumed = l.consumed;
          })

    -- The stack without its top, which the consumer then holds. A node at the address that was seen
    -- is the node that was seen, since it cannot have been freed.
    pops_top :
        (i top prev : ℕ) (cells : List Cell)
        → (l : Linear s p (Popper.at_cas i top prev)) → l.cells ≡ cells
        → s.top ≡ top
        → Linear (record s { top = prev }) p (Popper.at_print i top)
    pops_top i top prev [] l e same = absurd (subst (IsIn top) e l.pops.1)
    pops_top i top prev ((x, w) ∷ cells) l e same =
        let (here, real, (r, held, chain)) = subst (Chain s.heap s.top) e l.chain in
        let (out, distinct) = subst Distinct e l.distinct in
        let pushes = subst (λ c. Pushes s.heap c p) e l.pushes in
        let (empty, mem, (v, there)) = l.pops in
        let at : x ≡ top = sym here ∙ same in
        let (payload, link) =
          Holds-unique s.heap top w r v prev (subst (λ a. Holds s.heap a w r) at held) there in
        record {
          cells = cells;
          held = w ∷ [];
          chain = subst (λ t. Chain s.heap t cells) link chain;
          distinct = distinct;
          pushes = Pushes-tail s.heap x w cells p pushes;
          pops = (subst (λ a. NotIn a cells) at out, (v, prev, there, ap (λ k. k ∷ []) payload));
          differ =
              subst (λ a. Differ p (Popper.at_print i a)) at
                (Differ-pop s.heap x w i cells p pushes);
          once = λ a.
              let before = l.once a in
              let all : count a (values l.cells) ≡ count a (w ∷ values cells) =
                ap (λ c. count a (values c)) e in
              let none_held : count a l.held ≡ 0 = ap (count a) empty in
              omega (arith, before, all, none_held);
          size =
              let all : length l.cells ≡ length ((x, w) ∷ cells) = ap length e in
              let none_held : length l.held ≡ 0 = ap length empty in
              omega (arith, l.size, all, none_held);
          consumed = l.consumed;
        }

    swaps :
        (i top prev : ℕ)
        → Linear s p (Popper.at_cas i top prev)
        → PopperStep n s
            (Popper.at_cas i top prev)
            p
            (consumer n (Popper.at_cas i top prev) spurious s)
    unfolding consumer
    swaps i top prev l = elim (Bool-cases spurious) [
      | inl fails ↦ rw fails (idles i top prev l l.pops.0)
      | inr tries ↦ elim (Bool-cases (s.top == top)) [
        | inr changed ↦ rw (tries, changed) (idles i top prev l l.pops.0)
        | inl same ↦ rw (tries, same) (pops_top i top prev l.cells l refl (ground arith))
      ]
    ]

    prints :
        (i node : ℕ)
        → Linear s p (Popper.at_print i node)
        → PopperStep n s (Popper.at_print i node) p (consumer n (Popper.at_print i node) spurious s)
    unfolding consumer
    prints i node l =
        let (out, (v, prev, there, held)) = l.pops in
        rw (consumer, there)
          (record {
            cells = l.cells;
            held = [];
            chain = l.chain;
            distinct = l.distinct;
            pushes = l.pushes;
            pops = (refl, out, (v, prev, there));
            differ = Differ-free p i node l.differ;
            once = λ a.
                let moved : count a l.held ≡ count a (v ∷ []) = ap (count a) held in
                omega (arith, l.once a, moved);
            size =
                let moved : length l.held ≡ length (v ∷ []) = ap length held in
                omega (arith, l.size, moved);
            consumed = omega (arith, l.consumed);
          })

    frees :
        (i node : ℕ)
        → Linear s p (Popper.at_free i node)
        → PopperStep n s (Popper.at_free i node) p (consumer n (Popper.at_free i node) spurious s)
    unfolding consumer
    frees i node l =
        let (empty, out, (v, prev, there)) = l.pops in
        rw (consumer, there)
          (record {
            cells = l.cells;
            held = l.held;
            chain = Chain-update s.heap node none s.top l.cells out l.chain;
            distinct = l.distinct;
            pushes = Pushes-update s.heap node i none l.cells p l.differ l.pushes;
            pops = empty;
            differ = Differ-idle p (suc i);
            once = l.once;
            size = l.size;
            consumed = l.consumed;
          })

    pub consumer-Linear : (q : Popper) → Linear s p q → PopperStep n s q p (consumer n q spurious s)
    consumer-Linear (Popper.at_load i) l = loads i l
    consumer-Linear (Popper.at_prev i top) l = follows i top l
    consumer-Linear (Popper.at_cas i top prev) l = swaps i top prev l
    consumer-Linear (Popper.at_print i node) l = prints i node l
    consumer-Linear (Popper.at_free i node) l = frees i node l
