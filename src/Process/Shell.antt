-- ===== src/Process/Shell.antt =====
-- sem07-processes/snippets/simple_shell.c: how a line becomes the arguments of `execvp`.
use caos_seminars.Prelude.{
  ℕ, zero, suc, Bool, true, false, ◌||◌, Option, none, some, List, [], ◌∷◌, length, ltb, ◌==◌,
  if◌then◌else◌, replicate,
}
use caos_seminars.Bytes.{cstring}
pub mod Words

-- `MAX_ARGS`
abbrev pub max_args : ℕ
max_args = 10

-- The characters of `" \n"`.
abbrev pub is_delimiter : ℕ → Bool
is_delimiter c = c == b' ' || c == b'\n'

-- `strtok` passes over delimiters, ...
pub skip : List ℕ → List ℕ
skip [] = []
skip (c ∷ s) = elim (is_delimiter c) [ true ↦ skip s | false ↦ c ∷ s ]

-- ... takes what stands before the next one, ...
pub token : List ℕ → List ℕ
token [] = []
token (c ∷ s) = elim (is_delimiter c) [ true ↦ [] | false ↦ c ∷ token s ]

-- ... and goes on behind that, which it overwrites by a NUL.
pub behind : List ℕ → List ℕ
behind [] = []
behind (c ∷ s) = elim (is_delimiter c) [ true ↦ s | false ↦ behind s ]

-- The token at the start of what is left, if there is one, and what is left behind it.
pub next_token : List ℕ → Option (List ℕ × List ℕ)
next_token [] = none
next_token (c ∷ s) = some (token (c ∷ s), behind (c ∷ s))

-- `strtok(s, " \n")` as the C standard has it, on the bytes that are left of the array, whose string
-- ends before the first NUL: the token, and what is left; `none` is NULL.
pub strtok : List ℕ → Option (List ℕ × List ℕ)
unfolding skip next_token token behind cstring
strtok s = next_token (skip (cstring s))

-- A pointer in `args`, `none` for NULL. What the array has beyond the end is not the program's.
pub data Args : Type 0 where
  args : (pointers : List (Option (List ℕ))) (argc : ℕ) → Args
  overrun : Args
  out_of_fuel : Args

-- `args[argc] = pos`; `none` for a write outside of the array.
pub store :
    (pointers : List (Option (List ℕ))) (argc : ℕ) (pos : List ℕ) → Option (List (Option (List ℕ)))
store [] argc pos = none
store (p ∷ ps) zero pos = some (some pos ∷ ps)
store (p ∷ ps) (suc argc) pos = elim (store ps argc pos) [ none ↦ none | some qs ↦ some (p ∷ qs) ]

-- The `while (pos != NULL)`, on fuel, from the call of `strtok` that sets `pos`.
pub collect : (fuel : ℕ) (rest : List ℕ) (pointers : List (Option (List ℕ))) (argc : ℕ) → Args
unfolding strtok store
collect zero rest pointers argc = Args.out_of_fuel
collect (suc fuel) rest pointers argc = elim (strtok rest) [
  | none ↦ Args.args pointers argc
  | some (pos, rest') ↦ elim (store pointers argc pos) [
    | none ↦ Args.overrun
    | some pointers' ↦ collect fuel rest' pointers' (suc argc)
  ]
]

-- The body of the loop before `fork`: each call of `strtok` but the last takes a byte or more.
unfoldable pub parse_line : (buff : List ℕ) → Args
unfolding collect
parse_line buff = collect (suc (length buff)) buff (replicate max_args none) 0
