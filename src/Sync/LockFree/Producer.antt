-- ===== src/Sync/LockFree/Producer.antt =====
-- A step of `producer` in lock-free/stack.c keeps the invariant and does not fault.
use caos_seminars.Prelude.{
  ℕ, zero, suc, ◌≡◌, ◌≢◌, refl, sym, ap, ◌∙◌, inl, inr, Bool, true, List, ◌∷◌, Option, none, arith,
  ◌==◌, ltb, Bool-cases, Option-cases, subst,
}
use caos_seminars.Kernel.{update}
use caos_seminars.Kernel.Moves.{update_self}
use caos_seminars.Sync.LockFree.{Node, Heap, Shared, Pusher, Popper, is_fresh, producer}
use caos_seminars.Sync.LockFree.Chain.{
  Cell, NotIn, Holds, Chain, Chain-update, NotIn-none, IsIn-ne, Holds-update,
}
use caos_seminars.Sync.LockFree.Invariant.{Pops, Apart, Linear, PusherStep}

is_fresh-none : (heap : Heap) (a : ℕ) → is_fresh heap a ≡ true → (a ≢ 0) × (heap a ≡ none)
is_fresh-none heap zero e = absurd (ground arith)
is_fresh-none heap (suc a) e = elim (Option-cases (heap (suc a))) [
  | inl free ↦ ((λ h. absurd (omega (arith, h))), free)
  | inr (node, used) ↦ absurd (ground (arith, used, e))
]

-- What the consumer knows outlives a change elsewhere.
Pops-update :
    (heap : Heap) (a : ℕ) (o : Option Node) (cells : List Cell) (held : List ℕ) (q : Popper)
    → NotIn a cells
    → Apart a q
    → Pops heap cells held q
    → Pops (update heap a o) cells held q
Pops-update heap a o cells held (Popper.at_load i) apart differ h = h
Pops-update heap a o cells held (Popper.at_prev i top) apart differ h = h
Pops-update heap a o cells held (Popper.at_cas i top prev) apart differ (h, mem, (v, there)) =
    (h, mem, (v, Holds-update heap top a v prev o (IsIn-ne top a cells mem apart) there))
Pops-update heap a o cells held (Popper.at_print i node) apart differ (out, (v, prev, there, h)) =
    (out, (v, prev, Holds-update heap node a v prev o differ there, h))
Pops-update heap a o cells held (Popper.at_free i node) apart differ (h, out, (v, prev, there)) =
    (h, out, (v, prev, Holds-update heap node a v prev o differ there))

Holds-ne : (heap : Heap) (a b v prev : ℕ) → Holds heap a v prev → heap b ≡ none → a ≢ b
Holds-ne heap a b v prev there free e = absurd (ground (arith, sym there ∙ ap heap e ∙ free))

Apart-none :
    (heap : Heap) (a : ℕ) (cells : List Cell) (held : List ℕ) (q : Popper)
    → heap a ≡ none
    → Pops heap cells held q
    → Apart a q
Apart-none heap a cells held (Popper.at_load i) free h = tt
Apart-none heap a cells held (Popper.at_prev i top) free h = tt
Apart-none heap a cells held (Popper.at_cas i top prev) free h = tt
Apart-none heap a cells held (Popper.at_print i node) free (out, (v, prev, there, h)) =
    Holds-ne heap node a v prev there free
Apart-none heap a cells held (Popper.at_free i node) free (h, out, (v, prev, there)) =
    Holds-ne heap node a v prev there free

-- ... and a push.
Pops-cons :
    (heap : Heap) (a w : ℕ) (cells : List Cell) (held : List ℕ) (q : Popper)
    → Apart a q
    → Pops heap cells held q
    → Pops heap ((a, w) ∷ cells) held q
Pops-cons heap a w cells held (Popper.at_load i) differ h = h
Pops-cons heap a w cells held (Popper.at_prev i top) differ (h, mem) = (h, inr mem)
Pops-cons heap a w cells held (Popper.at_cas i top prev) differ (h, mem, there) =
    (h, inr mem, there)
Pops-cons heap a w cells held (Popper.at_print i node) differ (out, there) = ((differ, out), there)
Pops-cons heap a w cells held (Popper.at_free i node) differ (h, out, there) =
    (h, (differ, out), there)

module _ (n : ℕ) (address : ℕ) (spurious : Bool) (s : Shared) (q : Popper) where
  allocates :
      (i : ℕ)
      → Linear s (Pusher.at_malloc i) q
      → PusherStep q (producer n (Pusher.at_malloc i) address spurious s)
  unfolding producer
  allocates i l = elim (Bool-cases (ltb i n)) [
    | inr over ↦ rw over l
    | inl more ↦ elim (Bool-cases (is_fresh s.heap address)) [
      | inr used ↦ rw (more, used) l
      | inl fresh ↦
          let (real, free) = is_fresh-none s.heap address fresh in
          let out = NotIn-none s.heap address s.top l.cells free l.chain in
          let apart = Apart-none s.heap address l.cells l.held q free l.pops in
          rw (more, fresh)
            (record {
              cells = l.cells;
              held = l.held;
              chain = Chain-update s.heap address _ s.top l.cells out l.chain;
              distinct = l.distinct;
              pushes = (real, out, (0, update_self s.heap address _));
              pops = Pops-update s.heap address _ l.cells l.held q out apart l.pops;
              differ = apart;
              once = l.once;
              size = l.size;
              consumed = l.consumed;
            })
    ]
  ]

  links :
      (i node top : ℕ)
      → Linear s (Pusher.at_link i node top) q
      → PusherStep q (producer n (Pusher.at_link i node top) address spurious s)
  unfolding producer
  links i node top l =
      let (real, out, (prev, there)) = l.pushes in
      rw (producer, there)
        (record {
          cells = l.cells;
          held = l.held;
          chain = Chain-update s.heap node _ s.top l.cells out l.chain;
          distinct = l.distinct;
          pushes = (real, out, update_self s.heap node _);
          pops = Pops-update s.heap node _ l.cells l.held q out l.differ l.pops;
          differ = l.differ;
          once = l.once;
          size = l.size;
          consumed = l.consumed;
        })

  swaps :
      (i node top : ℕ)
      → Linear s (Pusher.at_cas i node top) q
      → PusherStep q (producer n (Pusher.at_cas i node top) address spurious s)
  unfolding producer
  swaps i node top l =
      let (real, out, there) = l.pushes in
      let again : Linear s (Pusher.at_load i node) q = record {
        cells = l.cells;
        held = l.held;
        chain = l.chain;
        distinct = l.distinct;
        pushes = (real, out, (top, there));
        pops = l.pops;
        differ = l.differ;
        once = l.once;
        size = l.size;
        consumed = l.consumed;
      } in
      elim (Bool-cases spurious) [
        | inl fails ↦ rw fails again
        | inr tries ↦ elim (Bool-cases (s.top == top)) [
          | inr changed ↦ rw (tries, changed) again
          | inl same ↦
              let here : s.top ≡ top = ground arith in
              rw (tries, same)
                (record {
                  cells = (node, i) ∷ l.cells;
                  held = l.held;
                  chain =
                      (refl, real, (top, there, subst (λ t. Chain s.heap t l.cells) here l.chain));
                  distinct = (out, l.distinct);
                  pushes = tt;
                  pops = Pops-cons s.heap node i l.cells l.held q l.differ l.pops;
                  differ = tt;
                  once = λ v. ground (arith, l.once v);
                  size = omega (arith, l.size);
                  consumed = l.consumed;
                })
        ]
      ]

  pub producer-Linear : (p : Pusher) → Linear s p q → PusherStep q (producer n p address spurious s)
  unfolding producer
  producer-Linear (Pusher.at_malloc i) l = allocates i l
  producer-Linear (Pusher.at_load i node) l = record {
    cells = l.cells;
    held = l.held;
    chain = l.chain;
    distinct = l.distinct;
    pushes = l.pushes;
    pops = l.pops;
    differ = l.differ;
    once = l.once;
    size = l.size;
    consumed = l.consumed;
  }
  producer-Linear (Pusher.at_link i node top) l = links i node top l
  producer-Linear (Pusher.at_cas i node top) l = swaps i node top l
