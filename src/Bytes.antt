-- ===== src/Bytes.antt =====
-- Byte arrays as lists: `memcpy` into an array at an offset, and the window between two offsets.
use caos_seminars.Prelude.{
  take-append-drop, take-length_le, drop-length_le, ℕ, zero, suc, ◌+◌, ◌-◌, ◌≤◌, ◌≡◌, refl, ap, ◌∙◌,
  sym, List, [], ◌∷◌, ◌++◌, append_assoc, arith, length, take, drop, length-append, length-take,
  length-drop, if◌then◌else◌, ◌==◌,
}
use Prim.Native.Nat.add
use native.Mathlib.Nat.{add-zero}

-- `memcpy(buf + off, bs, length bs)`. It is in bounds when `off + length bs ≤ length buf`.
abbrev pub blit : ℕ → List ℕ → List ℕ → List ℕ
blit off bs buf = take off buf ++ (bs ++ drop (off + length bs) buf)

-- The bytes from `from` up to, not including, `to`.
abbrev pub slice : ℕ → ℕ → List ℕ → List ℕ
slice from to buf = drop from (take to buf)

-- The string that an array holds: the bytes before the first NUL. Its length is `strlen`.
unfoldable pub cstring : List ℕ → List ℕ
cstring [] = []
cstring (c ∷ s) = if c == 0 then [] else c ∷ cstring s

pub drop-nil : (n : ℕ) → drop {A = ℕ} n [] ≡ []
drop-nil zero = refl
drop-nil (suc n) = refl

pub drop-drop : (a b : ℕ) (xs : List ℕ) → drop b (drop a xs) ≡ drop (a + b) xs
drop-drop zero b xs = ap (λ n. drop n xs) (omega arith)
drop-drop (suc a) b [] = drop-nil b ∙ sym (drop-nil (suc a + b))
drop-drop (suc a) b (x ∷ xs) = rw add.suc (drop-drop a b xs)

pub take-append_le : (n : ℕ) (xs ys : List ℕ) → n ≤ length xs → take n (xs ++ ys) ≡ take n xs
take-append_le zero xs ys h = refl
take-append_le (suc n) [] ys h = absurd (omega arith)
take-append_le (suc n) (x ∷ xs) ys h = ap (λ l. x ∷ l) (take-append_le n xs ys (omega arith))

pub drop-append_le : (n : ℕ) (xs ys : List ℕ) → n ≤ length xs → drop n (xs ++ ys) ≡ drop n xs ++ ys
drop-append_le zero xs ys h = refl
drop-append_le (suc n) [] ys h = absurd (omega arith)
drop-append_le (suc n) (x ∷ xs) ys h = drop-append_le n xs ys (omega arith)

pub take-append_add :
    (n m : ℕ) (xs ys : List ℕ) → n ≡ length xs + m → take n (xs ++ ys) ≡ xs ++ take m ys
take-append_add n m [] ys e = ap (λ k. take k ys) (omega arith)
take-append_add zero m (x ∷ xs) ys e = absurd (omega arith)
take-append_add (suc n) m (x ∷ xs) ys e = ap (λ l. x ∷ l) (take-append_add n m xs ys (omega arith))

pub drop-append_add : (n m : ℕ) (xs ys : List ℕ) → n ≡ length xs + m → drop n (xs ++ ys) ≡ drop m ys
drop-append_add n m [] ys e = ap (λ k. drop k ys) (omega arith)
drop-append_add zero m (x ∷ xs) ys e = absurd (omega arith)
drop-append_add (suc n) m (x ∷ xs) ys e = drop-append_add n m xs ys (omega arith)

pub length-blit :
    (off : ℕ) (bs buf : List ℕ)
    → off + length bs ≤ length buf
    → length (blit off bs buf) ≡ length buf
length-blit off bs buf h = omega (
  arith,
  length-append {0} (take off buf) (bs ++ drop (off + length bs) buf),
  length-append {0} bs (drop (off + length bs) buf),
  length-take {0} off buf,
  length-drop {0} (off + length bs) buf,
)

module _ (off : ℕ) (bs buf : List ℕ) (room : off ≤ length buf) where
  length-take_off : length (take off buf) ≡ off
  length-take_off = omega (arith, length-take {0} off buf)

  -- What `memcpy` wrote stands behind what stood before it.
  pub take-blit : take (off + length bs) (blit off bs buf) ≡ take off buf ++ bs
  take-blit =
      take-append_add _ (length bs) (take off buf) _ (omega (arith, length-take_off))
      ∙ ap (λ l. take off buf ++ l)
          (take-append_le (length bs) bs _ (omega arith) ∙ take-length_le _ bs (omega arith))

  -- ... and the bytes behind it are left alone.
  pub drop-blit : drop (off + length bs) (blit off bs buf) ≡ drop (off + length bs) buf
  drop-blit =
      drop-append_add _ (length bs) (take off buf) _ (omega (arith, length-take_off))
      ∙ drop-append_add _ 0 bs _ (omega arith)

  pub slice-blit :
      (from : ℕ)
      → from ≤ off
      → slice from (off + length bs) (blit off bs buf) ≡ slice from off buf ++ bs
  slice-blit from h =
      ap (drop from) take-blit
      ∙ drop-append_le from (take off buf) bs (omega (arith, length-take_off))

  -- Two copies in a row are one copy of both.
  pub blit-blit :
      (cs : List ℕ) → blit (off + length bs) cs (blit off bs buf) ≡ blit off (bs ++ cs) buf
  blit-blit cs =
      ap (λ l. l ++ (cs ++ drop (off + length bs + length cs) (blit off bs buf))) take-blit
      ∙ append_assoc (take off buf) bs _
      ∙ ap (λ l. take off buf ++ (bs ++ (cs ++ l))) beyond
      ∙ ap (λ l. take off buf ++ l) (sym (append_assoc bs cs _))
    where
      beyond :
          drop (off + length bs + length cs) (blit off bs buf) ≡ drop (off + length (bs ++ cs)) buf
      beyond =
          sym (drop-drop (off + length bs) (length cs) (blit off bs buf))
          ∙ ap (drop (length cs)) drop-blit
          ∙ drop-drop (off + length bs) (length cs) buf
          ∙ ap (λ n. drop n buf) (omega (arith, length-append {0} bs cs))

pub blit-nil : (off : ℕ) (buf : List ℕ) → blit off [] buf ≡ buf
blit-nil off buf = ap (λ n. take off buf ++ drop n buf) (add-zero off) ∙ take-append-drop off buf

pub take-take : (k n : ℕ) (xs : List ℕ) → k ≤ n → take k (take n xs) ≡ take k xs
take-take zero n xs h = refl
take-take (suc k) zero xs h = absurd (omega arith)
take-take (suc k) (suc n) [] h = refl
take-take (suc k) (suc n) (x ∷ xs) h = ap (λ l. x ∷ l) (take-take k n xs (omega arith))

pub take-add : (k n : ℕ) (xs : List ℕ) → take (k + n) xs ≡ take k xs ++ take n (drop k xs)
take-add zero n xs = ap (λ m. take m xs) (omega arith)
take-add (suc k) zero [] = rw add.suc
take-add (suc k) (suc n) [] = rw add.suc
take-add (suc k) n (x ∷ xs) = rw add.suc (ap (λ l. x ∷ l) (take-add k n xs))

-- A window splits at any point.
pub slice-split :
    (from k to : ℕ) (buf : List ℕ)
    → take k (slice from to buf) ++ slice (from + k) to buf ≡ slice from to buf
slice-split from k to buf =
    ap (λ l. take k (slice from to buf) ++ l) (sym (drop-drop from k (take to buf)))
    ∙ take-append-drop k (slice from to buf)

pub length-slice :
    (from to : ℕ) (buf : List ℕ) → to ≤ length buf → length (slice from to buf) ≡ to - from
length-slice from to buf h =
    omega (arith, length-drop {0} from (take to buf), length-take {0} to buf)

pub slice-empty : (at : ℕ) (buf : List ℕ) → slice at at buf ≡ []
slice-empty at buf = drop-length_le at (take at buf) (omega (arith, length-take {0} at buf))
