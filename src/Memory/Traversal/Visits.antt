-- ===== src/Memory/Traversal/Visits.antt =====
-- A traversal of list_traversal.cpp goes through each node once.
use caos_seminars.Prelude.{
  ℕ, zero, suc, ◌+◌, ◌-◌, ◌%◌, ◌^◌, ◌≤◌, ◌<◌, ◌≡◌, ◌≢◌, refl, ap, ◌∙◌, List, [], ◌∷◌, drop, none,
  some, length, replicate, arith, ◌==◌, if◌then◌else◌, ltb, leb, ◌&&◌,
}
use caos_seminars.Memory.Traversal.{
  Run, Links, link, at, addresses, link_nodes, traverse, traversals, time,
}

abbrev pub count : ℕ → List ℕ → ℕ
count a [] = 0
count a (x ∷ xs) = (if a == x then 1 else 0) + count a xs

-- The links of a list of nodes that stand in this order.
abbrev Chain : Links → List ℕ → Type 0
Chain next [] = Unit
Chain next (x ∷ []) = next x ≡ none
Chain next (x ∷ y ∷ rest) = (next x ≡ some y) × Chain next (y ∷ rest)

Chain-traverse :
    (next : Links) (x : ℕ) (xs : List ℕ) (fuel : ℕ)
    → length (x ∷ xs) ≤ fuel
    → Chain next (x ∷ xs)
    → traverse fuel next (some x) ≡ Run.done (x ∷ xs)
unfolding traverse
Chain-traverse next x xs zero enough chain = absurd (omega arith)
Chain-traverse next x [] (suc fuel) enough chain = rw chain refl
Chain-traverse next x (y ∷ ys) (suc fuel) enough (here, chain) =
    rw (here, Chain-traverse next y ys fuel (omega arith) chain) refl

-- Links from `x` on are not touched by those of nodes that are not among them.
abbrev Apart : ℕ → List ℕ → Type 0
Apart x [] = Unit
Apart x (y ∷ ys) = (x ≢ y) × Apart x ys

abbrev Distinct : List ℕ → Type 0
Distinct [] = Unit
Distinct (x ∷ xs) = Apart x xs × Distinct xs

-- The links that the loop makes between the nodes of a list.
abbrev linked : Links → List ℕ → Links
linked next [] = next
linked next (x ∷ []) = next
linked next (x ∷ y ∷ rest) = linked (link next x y) (y ∷ rest)

linked-Apart : (next : Links) (x : ℕ) (ys : List ℕ) → Apart x ys → linked next ys x ≡ next x
linked-Apart next x [] apart = refl
linked-Apart next x (y ∷ []) apart = refl
linked-Apart next x (y ∷ z ∷ rest) (ne, apart) =
    linked-Apart (link next y z) x (z ∷ rest) apart ∙ ground arith

-- The nodes have no links yet.
abbrev Unlinked : Links → List ℕ → Type 0
Unlinked next [] = Unit
Unlinked next (x ∷ xs) = (next x ≡ none) × Unlinked next xs

Unlinked-link :
    (next : Links) (x y : ℕ) (zs : List ℕ)
    → Apart x zs
    → Unlinked next zs
    → Unlinked (link next x y) zs
Unlinked-link next x y [] apart free = tt
Unlinked-link next x y (z ∷ zs) (ne, apart) (free, others) =
    (ground arith, Unlinked-link next x y zs apart others)

Unlinked-null : (xs : List ℕ) → Unlinked (λ _. none) xs
Unlinked-null [] = tt
Unlinked-null (x ∷ xs) = (refl, Unlinked-null xs)

linked-Chain :
    (next : Links) (xs : List ℕ) → Distinct xs → Unlinked next xs → Chain (linked next xs) xs
linked-Chain next [] distinct free = tt
linked-Chain next (x ∷ []) distinct free = free.0
linked-Chain next (x ∷ y ∷ rest) (apart, distinct) (free, others) = (
  linked-Apart (link next x y) x (y ∷ rest) apart ∙ ground arith,
  linked-Chain (link next x y) (y ∷ rest) distinct (Unlinked-link next x y (y ∷ rest) apart others),
)

drop-at :
    (nodes : List ℕ) (i x : ℕ) (rest : List ℕ)
    → drop i nodes ≡ x ∷ rest
    → (at nodes i ≡ Run.done x) × (drop (suc i) nodes ≡ rest)
drop-at [] zero x rest e = absurd (ground arith)
drop-at [] (suc i) x rest e = absurd (ground arith)
drop-at (y ∷ ys) zero x rest e = (ground arith, ground arith)
drop-at (y ∷ ys) (suc i) x rest e = drop-at ys i x rest e

link_nodes-linked :
    (nodes : List ℕ) (left i x : ℕ) (rest : List ℕ) (next : Links)
    → drop i nodes ≡ x ∷ rest
    → left ≡ length rest
    → link_nodes left i nodes next ≡ Run.done (linked next (x ∷ rest))
unfolding link_nodes
link_nodes-linked nodes zero i x [] next e size = refl
link_nodes-linked nodes zero i x (y ∷ rest) next e size = absurd (omega arith)
link_nodes-linked nodes (suc left) i x [] next e size = absurd (omega arith)
link_nodes-linked nodes (suc left) i x (y ∷ rest) next e size =
    let (here, tail) = drop-at nodes i x (y ∷ rest) e in
    let after : i + 1 ≡ suc i = omega arith in
    rw (here, after, (drop-at nodes (suc i) y rest tail).0)
      (link_nodes-linked nodes left (suc i) y rest (link next x y) tail (omega arith))

Apart-count : (x : ℕ) (ys : List ℕ) → count x ys ≡ 0 → Apart x ys
Apart-count x [] none_there = tt
Apart-count x (y ∷ ys) none_there = (λ e. absurd (ground arith), Apart-count x ys (omega arith))

Distinct-count : (xs : List ℕ) → ((a : ℕ) → count a xs ≤ 1) → Distinct xs
Distinct-count [] once = tt
Distinct-count (x ∷ xs) once =
    let here = once x in
    (Apart-count x xs (ground arith), Distinct-count xs (λ a. omega (arith, once a)))

count-addresses :
    (left i a : ℕ) → count a (addresses left i) ≡ (if leb i a && ltb a (i + left) then 1 else 0)
count-addresses zero i a = ground arith
count-addresses (suc left) i a = ground (arith, count-addresses left (suc i) a)

length-addresses : (left i : ℕ) → length (addresses left i) ≡ left
length-addresses zero i = refl
length-addresses (suc left) i = ap suc (length-addresses left (suc i))

traversals-replicate :
    (iters fuel : ℕ) (next : Links) (x : ℕ) (xs : List ℕ)
    → traverse fuel next (some x) ≡ Run.done (x ∷ xs)
    → traversals iters fuel next x ≡ Run.done (replicate iters (x ∷ xs))
unfolding traversals
traversals-replicate zero fuel next x xs e = refl
traversals-replicate (suc iters) fuel next x xs e =
    rw (e, traversals-replicate iters fuel next x xs e) refl

-- What `std::shuffle` does: it puts the elements in another order.
module _ (shuffle : List ℕ → List ℕ)
    (shuffle_count : (xs : List ℕ) (a : ℕ) → count a (shuffle xs) ≡ count a xs)
    (shuffle_length : (xs : List ℕ) → length (shuffle xs) ≡ length xs) where
  time_nodes :
      (fuel n iters : ℕ) (nodes : List ℕ)
      → 0 < n
      → n < 2 ^ 64
      → n ≤ fuel
      → shuffle (addresses n 0) ≡ nodes
      → length nodes ≡ n
      → Distinct nodes
      → time shuffle fuel n iters ≡ Run.done (replicate iters nodes)
  unfolding time
  time_nodes fuel n iters [] pos small enough e size distinct = absurd (omega arith)
  time_nodes fuel n iters (x ∷ xs) pos small enough e size distinct =
      let rounds : (n + (2 ^ 64 - 1)) % 2 ^ 64 ≡ length xs = omega arith in
      rw (e, rounds, link_nodes-linked (x ∷ xs) (length xs) 0 x xs (λ _. none) refl refl)
        (traversals-replicate iters fuel _ x xs (
          Chain-traverse _ x xs fuel (omega arith)
            (linked-Chain _ (x ∷ xs) distinct (Unlinked-null (x ∷ xs)))))

  shuffled_once : (n a : ℕ) → count a (shuffle (addresses n 0)) ≡ (if ltb a n then 1 else 0)
  shuffled_once n a = shuffle_count (addresses n 0) a ∙ count-addresses n 0 a ∙ ground arith

  -- For any order that the shuffle makes, each traversal of `time` ends after as many nodes as there
  -- are, and goes through each node of the memory once, in the shuffled order.
  pub time-visits :
      (fuel n iters : ℕ)
      → 0 < n
      → n < 2 ^ 64
      → n ≤ fuel
      → let nodes = shuffle (addresses n 0) in
        (time shuffle fuel n iters ≡ Run.done (replicate iters nodes))
        × (length nodes ≡ n)
        × ((a : ℕ) → count a nodes ≡ (if ltb a n then 1 else 0))
  time-visits fuel n iters pos small enough =
      let size : length (shuffle (addresses n 0)) ≡ n =
        shuffle_length (addresses n 0) ∙ length-addresses n 0 in
      (
        time_nodes fuel n iters _ pos small enough refl size
            (Distinct-count _ (λ a. ground (arith, shuffled_once n a))),
        size,
        shuffled_once n,
      )
