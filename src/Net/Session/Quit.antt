-- ===== src/Net/Session/Quit.antt =====
-- The quit command, in the bytes of a message.
use caos_seminars.Prelude.{
  ℕ, ◌<◌, ◌≡◌, refl, ap, Bool, false, List, [], ◌∷◌, ◌==◌, length, get_or, if◌then◌else◌, arith,
}
use caos_seminars.Net.Message.Spec.{IsMessage}

-- The message is a `q`, and nothing or a NUL follows.
abbrev pub says_quit : List ℕ → Bool
says_quit bytes = if get_or bytes 0 0 == 113 then get_or bytes 1 0 == 0 else false

-- A test on the array that holds a message agrees with `says_quit`.
abbrev pub Tests : (List ℕ → ℕ → Bool) → Type 0
Tests is_quit =
    (bytes buff : List ℕ)
    → 0 < length bytes
    → IsMessage bytes buff
    → is_quit buff (length bytes) ≡ says_quit bytes

-- The first two bytes of the array.
pub get_or-first :
    (bytes buff : List ℕ)
    → 0 < length bytes
    → IsMessage bytes buff
    → get_or buff 0 0 ≡ get_or bytes 0 0
get_or-first [] buff some_bytes m = absurd (omega arith)
get_or-first (b ∷ bs) [] some_bytes m = ap (λ l. get_or l 0 0) m.content
get_or-first (b ∷ bs) (x ∷ xs) some_bytes m = ap (λ l. get_or l 0 0) m.content

pub get_or-second :
    (bytes buff : List ℕ)
    → 0 < length bytes
    → IsMessage bytes buff
    → get_or buff 1 0 ≡ get_or bytes 1 0
get_or-second [] buff some_bytes m = absurd (omega arith)
get_or-second (b ∷ bs) [] some_bytes m = ap (λ l. get_or l 1 0) m.content
get_or-second (b ∷ []) (x ∷ []) some_bytes m = refl
get_or-second (b ∷ []) (x ∷ y ∷ ys) some_bytes m = m.terminated
get_or-second (b ∷ c ∷ bs) (x ∷ []) some_bytes m = ap (λ l. get_or l 1 0) m.content
get_or-second (b ∷ c ∷ bs) (x ∷ y ∷ ys) some_bytes m = ap (λ l. get_or l 1 0) m.content
