-- ===== src/Net/Message/Spec.antt =====
-- What `read_message` and `write_message` of the servers over TCP move.
use caos_seminars.Prelude.{
  ℕ, ◌+◌, ◌-◌, ◌<◌, ◌≡◌, refl, sym, ap, ◌∙◌, inl, inr, ◌⊎◌, List, [], ◌∷◌, ◌++◌, arith, length,
  take, get_or,
}
use caos_seminars.Prelude.Int.{ℤ, pos, minus_one}
use caos_seminars.Bytes.{blit, length-blit, take-blit, take-append_le, take-take}
use caos_seminars.Posix.{ReadResult}
use caos_seminars.Kernel.{Kernel}
use caos_seminars.Kernel.Effects
use caos_seminars.Kernel.Effects.{View, Effects}
use caos_seminars.Kernel.Moves.{Received, Received-none, Received-some}
use caos_seminars.Net.Message.{terminate, read_message}

-- A message in the array: its bytes, with a NUL behind them.
pub record IsMessage (bytes buff : List ℕ) : Type 0 where
  pub content : take (length bytes) buff ≡ bytes
  pub terminated : get_or buff (length bytes) 1 ≡ 0

-- The outcome of `read_message`: a message and its length, or none and a value that is not positive.
pub data Reads (fd : ℕ) (buff : List ℕ) (v : View) (n : ℤ) (buff' : List ℕ) (v' : View)
    : Type 0 where
  message :
      (bytes : List ℕ)
      → 0 < length bytes
      → n ≡ pos (length bytes)
      → length buff' ≡ length buff
      → IsMessage bytes buff'
      → Received fd bytes v v'
      → Reads fd buff v n buff' v'
  nothing :
      (n ≡ pos 0) ⊎ (n ≡ minus_one)
      → buff' ≡ buff
      → Received fd [] v v'
      → Reads fd buff v n buff' v'

get_or-append : (xs ys : List ℕ) (y d : ℕ) → get_or (xs ++ (y ∷ ys)) (length xs) d ≡ y
get_or-append [] ys y d = refl
get_or-append (x ∷ xs) ys y d = get_or-append xs ys y d

-- The bytes of a message that is shorter than the array, and the NUL behind it.
module _ (bytes buff : List ℕ) (room : length bytes < length buff) where
  abbrev pub stored : List ℕ
  stored = blit 0 bytes buff

  take-stored : take (length bytes) stored ≡ bytes
  take-stored =
      let n : length bytes ≡ 0 + length bytes = omega arith in
      ap (λ k. take k stored) n ∙ take-blit 0 bytes buff (omega arith)

  length-stored : length stored ≡ length buff
  length-stored = length-blit 0 bytes buff (omega arith)

  length-front : length (take (length bytes) stored) ≡ length bytes
  length-front = ap length take-stored

  pub length-terminated : length (blit (length bytes) (0 ∷ []) stored) ≡ length buff
  length-terminated =
      length-blit (length bytes) (0 ∷ []) stored (omega (arith, length-stored)) ∙ length-stored

  pub terminated-IsMessage : IsMessage bytes (blit (length bytes) (0 ∷ []) stored)
  terminated-IsMessage = record {
    content =
        take-append_le (length bytes) (take (length bytes) stored) _ (omega (arith, length-front))
        ∙ take-take (length bytes) (length bytes) stored (omega arith)
        ∙ take-stored;
    terminated =
        ap (λ n. get_or (blit (length bytes) (0 ∷ []) stored) n 1) (sym length-front)
        ∙ get_or-append (take (length bytes) stored) _ 0 1;
  }

terminate-Reads :
    (fd : ℕ) (buff : List ℕ) (result : ReadResult) (v v' : View)
    → 0 < length buff
    → Effects.AfterRead fd (length buff - 1) v result v'
    → Reads fd buff v (terminate buff result).0 (terminate buff result).1 v'
unfolding terminate
terminate-Reads fd buff (ReadResult.got []) v v' room law =
    nothing (inl refl) refl (Received-some fd [] law.1)
terminate-Reads fd buff (ReadResult.failed e) v v' room law =
    nothing (inr refl) refl (Received-none fd law)
terminate-Reads fd buff (ReadResult.got (b ∷ bs)) v v' room law =
    let fits : length (b ∷ bs) < length buff = omega (arith, law.0) in
    message (b ∷ bs) (omega arith) refl (length-terminated (b ∷ bs) buff fits)
      (terminated-IsMessage (b ∷ bs) buff fits) (Received-some fd (b ∷ bs) law.1)

module _ (K : Kernel) (E : Effects K) where
  open K use {World}
  open E use {view, read_law, write_law}

  -- `read_message` into an array of any positive size returns the number of bytes that it has
  -- received; they stand at the start of the array with a NUL behind them, still within the array.
  -- Or it returns 0 or -1, has received nothing and left the array alone.
  pub read_message-Reads :
      (fd : ℕ) (buff : List ℕ) (w : World)
      → 0 < length buff
      → let (n, buff', w') = read_message K.files fd buff (length buff) w in
        Reads fd buff (view w) n buff' (view w')
  unfolding read_message
  read_message-Reads fd buff w room =
      terminate-Reads fd buff (K.read fd (length buff - 1) w).0 (view w) _ room
        (read_law fd (length buff - 1) w)
