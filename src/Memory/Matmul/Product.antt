-- ===== src/Memory/Matmul/Product.antt =====
-- The two products of naive.cpp are one function.
use caos_seminars.Prelude.{ℕ, zero, suc, ◌+◌, ◌*◌, ◌%◌, ◌^◌, ◌<◌, ◌≡◌, sym, ap, ◌∙◌, arith}
use mathlib.Core.Path.{fun_ext}
use caos_seminars.Memory.Matmul.{Matrix, store, for_range, add_mul, naive, transpose, fast}
use caos_seminars.Memory.Matmul.Sweep.{for_range-eq, sweep_rows, rows_entry}

store_self : (m : Matrix) (i j : ℕ) → store m i j (m i j) ≡ m
store_self m i j = fun_ext (λ a. fun_ext (λ b. ground arith))

store-store : (m : Matrix) (i j v w : ℕ) → store (store m i j v) i j w ≡ store m i j w
store-store m i j v w = fun_ext (λ a. fun_ext (λ b. ground arith))

store_here : (m : Matrix) (i j v : ℕ) → store m i j v i j ≡ v
store_here m i j v = ground arith

-- A loop that changes one entry only.
entry_loop :
    (g : ℕ → ℕ → ℕ) (left k i j : ℕ) (m : Matrix)
    → for_range left k (λ k m. store m i j (g k (m i j))) m
      ≡ store m i j (for_range left k g (m i j))
unfolding for_range
entry_loop g zero k i j m = sym (store_self m i j)
entry_loop g (suc left) k i j m =
    entry_loop g left (suc k) i j (store m i j (g k (m i j)))
    ∙ store-store m i j (g k (m i j)) _
    ∙ ap (λ v. store m i j (for_range left (suc k) g v)) (store_here m i j (g k (m i j)))

-- The innermost loop on its own, with a row of the first matrix and a column of the second.
dot : (n : ℕ) (row column : ℕ → ℕ) (acc : ℕ) → ℕ
dot n row column = for_range n 0 (λ k acc. add_mul acc (row k) (column k))

naive-sweep :
    (n : ℕ) (m1 m2 res : Matrix)
    → naive n m1 m2 res ≡ sweep_rows (λ i j. dot n (m1 i) (λ k. m2 k j)) n n 0 res
unfolding naive dot
naive-sweep n m1 m2 res = for_range-eq n 0 _ _ res (λ i s h.
    for_range-eq n 0 _ _ s
      (λ j t h'. entry_loop (λ k acc. add_mul acc (m1 i k) (m2 k j)) n 0 i j t))

transpose_entry :
    (n : ℕ) (m2 m2_t : Matrix) (j k : ℕ) → j < n → k < n → transpose n m2 m2_t j k ≡ m2 k j
unfolding transpose
transpose_entry n m2 m2_t j k h h' =
    rows_entry (λ i j old. m2 j i) n n 0 m2_t j k (omega arith) (omega arith) h'

-- The product by way of the transposed matrix is the plain one, whatever `m2T` held before.
pub fast-naive : (n : ℕ) (m1 m2 m2_t res : Matrix) → fast n m1 m2 m2_t res ≡ naive n m1 m2 res
unfolding fast naive
fast-naive n m1 m2 m2_t res = for_range-eq n 0 _ _ res (λ i s h. for_range-eq n 0 _ _ s (λ j t h'.
    for_range-eq n 0 _ _ t (λ k u h''.
      ap (λ v. store u i j (add_mul (u i j) (m1 i k) v))
        (transpose_entry n m2 m2_t j k (omega (arith, h')) (omega (arith, h''))))))

-- The sum of products of a row and a column, from the term `k` on.
abbrev pub products : (left k : ℕ) (row column : ℕ → ℕ) → ℕ
products zero k row column = 0
products (suc left) k row column = row k * column k + products left (suc k) row column

dot-products :
    (left k : ℕ) (row column : ℕ → ℕ) (acc : ℕ)
    → acc < 2 ^ 32
    → for_range left k (λ k acc. add_mul acc (row k) (column k)) acc
      ≡ (acc + products left k row column) % 2 ^ 32
unfolding for_range
dot-products zero k row column acc small = omega arith
dot-products (suc left) k row column acc small =
    dot-products left (suc k) row column (add_mul acc (row k) (column k)) (omega arith)
    ∙ omega arith

-- Each entry of the result is what it held before plus the sum of the products of its row and its
-- column, all modulo 2 ^ 32.
pub naive-products :
    (n : ℕ) (m1 m2 res : Matrix) (i j : ℕ)
    → i < n
    → j < n
    → res i j < 2 ^ 32
    → naive n m1 m2 res i j ≡ (res i j + products n 0 (m1 i) (λ k. m2 k j)) % 2 ^ 32
unfolding dot
naive-products n m1 m2 res i j h h' small =
    ap (λ (m : Matrix). m i j) (naive-sweep n m1 m2 res)
    ∙ rows_entry (λ i j. dot n (m1 i) (λ k. m2 k j)) n n 0 res i j (omega arith) (omega arith) h'
    ∙ dot-products n 0 (m1 i) (λ k. m2 k j) (res i j) small
