-- ===== src/Memory/Matmul/Sweep.antt =====
-- Loops that visit each entry of a matrix once.
use caos_seminars.Prelude.{
  ℕ, zero, suc, ◌+◌, ◌≤◌, ◌<◌, ◌≡◌, ◌≢◌, ◌⊎◌, inl, inr, refl, ap, ◌∙◌, arith, ◌==◌, Bool-cases,
}
use caos_seminars.Memory.Matmul.{Matrix, store, for_range}

-- Bodies that agree on the range give equal loops.
pub for_range-eq {ℓ} :
    {S : Type ℓ} (left i : ℕ) (f g : ℕ → S → S) (s : S)
    → ((k : ℕ) (t : S) → k < i + left → f k t ≡ g k t)
    → for_range left i f s ≡ for_range left i g s
unfolding for_range
for_range-eq zero i f g s same = refl
for_range-eq (suc left) i f g s same =
    for_range-eq left (suc i) f g (f i s) (λ k t h. same k t (omega arith))
    ∙ ap (for_range left (suc i) g) (same i s (omega arith))

module _ (f : (i j old : ℕ) → ℕ) where
  abbrev pub set : (i j : ℕ) → Matrix → Matrix
  set i j m = store m i j (f i j (m i j))

  row-apart :
      (left j i : ℕ) (m : Matrix) (a b : ℕ)
      → (a ≢ i) ⊎ (b < j)
      → for_range left j (set i) m a b ≡ m a b
  unfolding for_range
  row-apart zero j i m a b apart = refl
  row-apart (suc left) j i m a b (inl other) =
      row-apart left (suc j) i (set i j m) a b (inl other) ∙ ground arith
  row-apart (suc left) j i m a b (inr before) =
      row-apart left (suc j) i (set i j m) a b (inr (omega arith)) ∙ ground arith

  row_entry :
      (left j i : ℕ) (m : Matrix) (b : ℕ)
      → j ≤ b
      → b < j + left
      → for_range left j (set i) m i b ≡ f i b (m i b)
  unfolding for_range
  row_entry zero j i m b from to = absurd (omega arith)
  row_entry (suc left) j i m b from to = elim (Bool-cases (b == j)) [
    | inl here ↦ row-apart left (suc j) i (set i j m) i b (inr (ground arith)) ∙ ground arith
    | inr later ↦ row_entry left (suc j) i (set i j m) b (ground arith) (omega arith) ∙ ground arith
  ]

  abbrev pub sweep_rows : (n left i : ℕ) → Matrix → Matrix
  sweep_rows n left i = for_range left i (λ i. for_range n 0 (set i))

  rows-apart : (n left i : ℕ) (m : Matrix) (a b : ℕ) → a < i → sweep_rows n left i m a b ≡ m a b
  unfolding for_range
  rows-apart n zero i m a b before = refl
  rows-apart n (suc left) i m a b before =
      rows-apart n left (suc i) (for_range n 0 (set i) m) a b (omega arith)
      ∙ row-apart n 0 i m a b (inl (λ e. absurd (omega (arith, e, before))))

  -- Every entry is set once, from its old value.
  pub rows_entry :
      (n left i : ℕ) (m : Matrix) (a b : ℕ)
      → i ≤ a
      → a < i + left
      → b < n
      → sweep_rows n left i m a b ≡ f a b (m a b)
  unfolding for_range
  rows_entry n zero i m a b from to inside = absurd (omega arith)
  rows_entry n (suc left) i m a b from to inside = elim (Bool-cases (a == i)) [
    | inl here ↦
        let same : a ≡ i = ground arith in
        rows-apart n left (suc i) (for_range n 0 (set i) m) a b (omega arith)
        ∙ rw same (row_entry n 0 i m b (omega arith) (omega arith))
    | inr later ↦
        rows_entry n left (suc i) (for_range n 0 (set i) m) a b (ground arith) (omega arith) inside
        ∙ ap (f a b) (row-apart n 0 i m a b (inl (λ e. absurd (ground arith))))
  ]
