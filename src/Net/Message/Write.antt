-- ===== src/Net/Message/Write.antt =====
-- What `write_message` of the servers over TCP sends, and that it returns.
use caos_seminars.Prelude.{
  ℕ, zero, suc, ◌+◌, ◌-◌, ◌≤◌, ◌<◌, ◌≡◌, refl, sym, subst, inl, inr, ◌⊎◌, true, some, List, [],
  ◌++◌, arith, length-take, take, drop, ltb, Bool-cases,
}
use native.Mathlib.Nat.{add-zero}
use caos_seminars.Bytes.{take-take, take-add, drop-drop}
use caos_seminars.Posix.{WriteResult}
use caos_seminars.Kernel.{Kernel}
use caos_seminars.Kernel.Effects
use caos_seminars.Kernel.Effects.{View, Effects}
use caos_seminars.Kernel.Moves.{Sent, Sent-none, Sent-some, Sent-append}
use caos_seminars.Net.Message.{write_loop, write_message}

-- A result that ends the loop.
abbrev pub Stops : WriteResult → Type 0
Stops (WriteResult.wrote zero) = Unit
Stops (WriteResult.wrote (suc _)) = ⊥
Stops (WriteResult.failed _) = Unit

module _ (K : Kernel) where
  open K use {World}

  -- The first `count` of the `size` bytes of `buff` from `off` on were sent, and nothing else
  -- happened: all of them, or up to a call of `write` for the rest that returned 0 or -1.
  pub record Writes (fd : ℕ) (buff : List ℕ) (off size : ℕ) (v v' : View) : Type 0 where
    pub count : ℕ
    pub fits : count ≤ size
    pub moved : Sent fd (take count (drop off buff)) v v'
    pub ending :
        (size ≤ count)
        ⊎ ((w : World) × Stops (K.write fd (take (size - count) (drop (off + count) buff)) w).0)

  Writes-later :
      (fd : ℕ) (buff : List ℕ) (off size k : ℕ) {v v' v'' : View}
      → k ≤ size
      → Sent fd (take k (take size (drop off buff))) v v'
      → Writes fd buff (off + k) (size - k) v' v''
      → Writes fd buff off size v v''
  Writes-later fd buff off size k {v} {v'' = v''} h first rest = record {
    count = k + rest.count;
    fits = omega (arith, rest.fits);
    moved = subst (λ l. Sent fd l v v'') pieces (Sent-append fd _ _ first rest.moved);
    ending = elim rest.ending [
      | inl all ↦ inl (omega (arith, all))
      | inr (w, stops) ↦
          let left : size - (k + rest.count) ≡ size - k - rest.count = omega arith in
          let at : off + (k + rest.count) ≡ off + k + rest.count = omega arith in
          inr (w, rw (left, at) stops)
    ];
  }
    where
      pieces :
          take k (take size (drop off buff)) ++ take rest.count (drop (off + k) buff)
          ≡ take (k + rest.count) (drop off buff)
      pieces =
          rw (take-take k size (drop off buff) h, ← drop-drop off k buff)
            (sym (take-add k rest.count (drop off buff)))

  stopped :
      (fd : ℕ) (buff : List ℕ) (off size : ℕ) {v v' : View} (w : World)
      → Sent fd [] v v'
      → Stops (K.write fd (take size (drop off buff)) w).0
      → Writes fd buff off size v v'
  stopped fd buff off size w moved stops = record {
    count = 0;
    fits = omega arith;
    moved = moved;
    ending = let left : size - 0 ≡ size = omega arith in inr (w, rw (left, add-zero off) stops);
  }

module _ (K : Kernel) (E : Effects K) where
  open K use {World}
  open E use {view, write_law}

  abbrev Finishes : (fuel fd : ℕ) (buff : List ℕ) (len off : ℕ) → World → Type 0
  Finishes fuel fd buff len off w =
      (w' : World) × (write_loop K.files fuel fd buff len off w ≡ some w')
      × Writes K fd buff off (len - off) (view w) (view w')

  -- One round of the loop, by the result of `write`.
  write_round :
      (fuel fd : ℕ) (buff : List ℕ) (len off : ℕ) (w : World) (result : WriteResult) (w1 : World)
      → K.write fd (take (len - off) (drop off buff)) w ≡ (result, w1)
      → Effects.AfterWrite fd (take (len - off) (drop off buff)) (view w) result (view w1)
      → ltb off len ≡ true
      → len - off < suc fuel
      → ((off' : ℕ) (w' : World) → len - off' < fuel → Finishes fuel fd buff len off' w')
      → Finishes (suc fuel) fd buff len off w
  unfolding write_loop
  write_round fuel fd buff len off w (WriteResult.failed err) w1 e law more enough again = (
    w1,
    rw (more, write_loop, e, e),
    stopped K fd buff off (len - off) w (Sent-none fd law) (rw e tt),
  )
  write_round fuel fd buff len off w (WriteResult.wrote zero) w1 e law more enough again = (
    w1,
    rw (more, write_loop, e, e),
    stopped K fd buff off (len - off) w (Sent-some fd [] law.1) (rw e tt),
  )
  write_round fuel fd buff len off w (WriteResult.wrote (suc k)) w1 e law more enough again =
      let small : suc k ≤ len - off =
        omega (arith, law.0, length-take {0} (len - off) (drop off buff)) in
      let (w', runs, rest) = again (off + suc k) w1 (omega arith) in
      let same : len - (off + suc k) ≡ len - off - suc k = omega arith in
      (
        w',
        rw (more, write_loop, e, e) runs,
        Writes-later K fd buff off (len - off) (suc k) small (Sent-some fd _ law.1)
            (subst (λ n. Writes K fd buff (off + suc k) n (view w1) (view w')) same rest),
      )

  write_loop-Finishes :
      (fuel fd : ℕ) (buff : List ℕ) (len off : ℕ) (w : World)
      → len - off < fuel
      → Finishes fuel fd buff len off w
  unfolding write_loop
  write_loop-Finishes zero fd buff len off w enough = absurd (omega arith)
  write_loop-Finishes (suc fuel) fd buff len off w enough = elim (Bool-cases (ltb off len)) [
    | inl more ↦
        write_round fuel fd buff len off w _ _ refl
          (write_law fd (take (len - off) (drop off buff)) w) more enough
          (write_loop-Finishes fuel fd buff len)
    | inr done ↦ (
      w,
      rw done,
      record {
        count = 0;
        fits = omega arith;
        moved = Sent-none fd refl;
        ending = inl (ground arith);
      },
    )
  ]

  -- `write_message` returns, whatever `write` returns. It has sent the first `len` bytes of
  -- the array to the client, or those before the first call of `write` that returned 0 or -1, and
  -- has touched no other descriptor.
  pub write_message-Writes :
      (fd : ℕ) (buff : List ℕ) (len : ℕ) (w : World)
      → (w' : World) × (write_message K.files fd buff len w ≡ some w')
        × Writes K fd buff 0 len (view w) (view w')
  unfolding write_message
  write_message-Writes fd buff len w =
      let same : len - 0 ≡ len = omega arith in
      rw same at (write_loop-Finishes (suc (suc len)) fd buff len 0 w (omega arith))
