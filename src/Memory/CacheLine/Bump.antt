-- ===== src/Memory/CacheLine/Bump.antt =====
-- One access of cache_line_benchmark.cpp, and sequences of them.
use caos_seminars.Prelude.{
  true, ℕ, zero, suc, ◌^◌, ◌≤◌, ◌<◌, ◌≡◌, refl, ap, ◌∙◌, inl, inr, List, [], ◌∷◌, arith, length,
  replicate, ltb, lt→ltb, Bool-cases,
}
use caos_seminars.Memory.CacheLine.{Run, ◌>>=◌, Pass, bump, guarded}

-- In the round number `k` of the outer loop, after an access below `p`: the elements from `p` on
-- were counted at most `k` times, and those before it at most once more.
abbrev pub Visited : (p k : ℕ) → List ℕ → Type 0
Visited p k [] = Unit
Visited zero k (v ∷ vs) = (v ≤ k) × Visited zero k vs
Visited (suc p) k (v ∷ vs) = (v ≤ suc k) × Visited p k vs

pub Visited-le : (p q k : ℕ) (m : List ℕ) → p ≤ q → Visited p k m → Visited q k m
Visited-le p q k [] h v = tt
Visited-le zero zero k (x ∷ xs) h v = v
Visited-le zero (suc q) k (x ∷ xs) h (v, vs) =
    (omega arith, Visited-le zero q k xs (omega arith) vs)
Visited-le (suc p) zero k (x ∷ xs) h v = absurd (omega arith)
Visited-le (suc p) (suc q) k (x ∷ xs) h (v, vs) = (v, Visited-le p q k xs (omega arith) vs)

pub Visited-suc : (p k : ℕ) (m : List ℕ) → Visited p k m → Visited 0 (suc k) m
Visited-suc p k [] v = tt
Visited-suc zero k (x ∷ xs) (v, vs) = (omega arith, Visited-suc zero k xs vs)
Visited-suc (suc p) k (x ∷ xs) (v, vs) = (v, Visited-suc p k xs vs)

pub Visited-replicate : (n : ℕ) → Visited 0 0 (replicate n 0)
Visited-replicate zero = tt
Visited-replicate (suc n) = (omega arith, Visited-replicate n)

bump-Visited :
    (i k : ℕ) (m : List ℕ)
    → suc k < 2 ^ 31
    → i < length m
    → Visited i k m
    → (m' : List ℕ) × (bump i m ≡ Run.done m') × (length m' ≡ length m) × Visited (suc i) k m'
unfolding bump
bump-Visited i k [] small h v = absurd (omega arith)
bump-Visited zero k (x ∷ xs) small h (v, vs) =
    let fits : ltb (suc x) (2 ^ 31) ≡ true = lt→ltb (suc x) (2 ^ 31) (omega arith) in
    (suc x ∷ xs, rw fits refl, refl, (omega arith, vs))
bump-Visited (suc i) k (x ∷ xs) small h (v, vs) =
    let (m', runs, same, w) = bump-Visited i k xs small (omega arith) vs in
    (x ∷ m', rw runs refl, ap suc same, (v, w))

-- An array of `n` elements in the round number `k`.
module _ (n k : ℕ) where
  -- From accesses below `p` to accesses below `q`, with no fault.
  abbrev pub Goes : (p q : ℕ) → Pass → Type 0
  Goes p q f =
      (m : List ℕ)
      → length m ≡ n
      → Visited p k m
      → (m' : List ℕ) × (f m ≡ Run.done m') × (length m' ≡ n) × Visited q k m'

  -- ... and to the end of the round.
  abbrev pub Ends : (p : ℕ) → Pass → Type 0
  Ends p f =
      (m : List ℕ)
      → length m ≡ n
      → Visited p k m
      → (m' : List ℕ) × (f m ≡ Run.done m') × (length m' ≡ n) × Visited 0 (suc k) m'

  pub Goes->>= : (p q r : ℕ) (f g : Pass) → Goes p q f → Goes q r g → Goes p r (λ m. f m >>= g)
  Goes->>= p q r f g a b m size v =
      let (m1, runs, size1, v1) = a m size v in
      let (m2, runs2, size2, v2) = b m1 size1 v1 in (m2, rw runs runs2, size2, v2)

  pub Ends->>= : (p q : ℕ) (f g : Pass) → Goes p q f → Ends q g → Ends p (λ m. f m >>= g)
  Ends->>= p q f g a b m size v =
      let (m1, runs, size1, v1) = a m size v in
      let (m2, runs2, size2, v2) = b m1 size1 v1 in (m2, rw runs runs2, size2, v2)

  pub Goes-done : (p q : ℕ) → p ≤ q → Goes p q Run.done
  Goes-done p q h m size v = (m, refl, size, Visited-le p q k m h v)

  pub Ends-done : (p : ℕ) → Ends p Run.done
  Ends-done p m size v = (m, refl, size, Visited-suc p k m v)

  module _ (small : suc k < 2 ^ 31) where
    pub bump-Goes : (p i : ℕ) → p ≤ i → i < n → Goes p (suc i) (bump i)
    bump-Goes p i h inside m size v =
        let (m', runs, same, w) =
          bump-Visited i k m small (omega (arith, size)) (Visited-le p i k m h v) in
        (m', runs, same ∙ size, w)

    pub guarded-Goes : (p i : ℕ) → p ≤ i → Goes p (suc i) (guarded n i)
    guarded-Goes p i h m size v = elim (Bool-cases (ltb i n)) [
      | inl inside ↦ rw inside (bump-Goes p i h (ground arith) m size v)
      | inr outside ↦ rw outside (Goes-done p (suc i) (omega arith) m size v)
    ]
