-- ===== src/Memory/Traversal.antt =====
-- sem06-memory/snippets/latency/list_traversal.cpp: `time` without the clock. The nodes are at the
-- addresses 0 to N - 1 of `memory`, and `shuffle` is a parameter.
use caos_seminars.Prelude.{
  ℕ, zero, suc, ◌+◌, ◌-◌, ◌%◌, ◌^◌, List, [], ◌∷◌, Option, none, some, length, ◌==◌, if◌then◌else◌,
}
pub mod Visits
pub mod Measurements

-- `fault`: an element outside of `nodes`.
pub data Run (A : Type 0) : Type 0 where
  done : (result : A) → Run A
  fault : Run A
  out_of_fuel : Run A

infixl 5 ◌>>=◌
abbrev pub ◌>>=◌ : {A B : Type 0} → Run A → (A → Run B) → Run B
Run.done a >>= f = f a
Run.fault >>= f = Run.fault
Run.out_of_fuel >>= f = Run.out_of_fuel

-- `next` of each node, `none` for a null pointer.
abbrev pub Links : Type 0
Links = ℕ → Option ℕ

abbrev pub link : Links → (from to : ℕ) → Links
link next from to node = if node == from then some to else next node

-- `nodes[i]`
abbrev pub at : List ℕ → ℕ → Run ℕ
at [] i = Run.fault
at (x ∷ xs) zero = Run.done x
at (x ∷ xs) (suc i) = at xs i

-- `nodes[i] = &memory[i]` for `i` from `i` on.
abbrev pub addresses : (left i : ℕ) → List ℕ
addresses zero i = []
addresses (suc left) i = i ∷ addresses left (suc i)

-- The loop that links the nodes, `left` rounds before its end.
unfoldable pub link_nodes : (left i : ℕ) (nodes : List ℕ) → Links → Run Links
link_nodes zero i nodes next = Run.done next
link_nodes (suc left) i nodes next = at nodes i >>= λ from.
    at nodes (i + 1) >>= λ to. link_nodes left (i + 1) nodes (link next from to)

-- The `while (node)`, on fuel, with the nodes that it goes through.
unfoldable pub traverse : (fuel : ℕ) → Links → Option ℕ → Run (List ℕ)
traverse fuel next none = Run.done []
traverse zero next (some node) = Run.out_of_fuel
traverse (suc fuel) next (some node) =
    traverse fuel next (next node) >>= λ rest. Run.done (node ∷ rest)

-- The repeated traversals, with the nodes of each.
unfoldable pub traversals : (iters fuel : ℕ) → Links → (start_node : ℕ) → Run (List (List ℕ))
traversals zero fuel next start_node = Run.done []
traversals (suc iters) fuel next start_node = traverse fuel next (some start_node) >>= λ visited.
    traversals iters fuel next start_node >>= λ rest. Run.done (visited ∷ rest)

-- `N - 1` is unsigned. `next` is null in all nodes at first.
unfoldable pub time : (shuffle : List ℕ → List ℕ) (fuel n iters : ℕ) → Run (List (List ℕ))
time shuffle fuel n iters =
    let nodes = shuffle (addresses n 0) in
    link_nodes ((n + (2 ^ 64 - 1)) % 2 ^ 64) 0 nodes (λ _. none) >>= λ next.
    at nodes 0 >>= λ start_node. traversals iters fuel next start_node
