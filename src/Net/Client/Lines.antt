-- ===== src/Net/Client/Lines.antt =====
-- The lines that sem10-net-sockets/snippets/tcp/tcp_client.c reads.
use caos_seminars.Prelude.{
  ℕ, zero, suc, ◌-◌, ◌<◌, ◌≡◌, refl, ap, ◌∙◌, false, some, List, [], ◌∷◌, ◌++◌, ◌==◌, arith, length,
  if◌then◌else◌,
}
use caos_seminars.Bytes.{cstring}
use caos_seminars.Net.Client.{buff_size, line_of, fgets, chomp, is_q}

-- Neither a line feed nor a NUL.
abbrev pub AllText : List ℕ → Type 0
AllText [] = Unit
AllText (c ∷ s) = ((c == b'\n') ≡ false) × ((c == 0) ≡ false) × AllText s

-- A line of a length for which there is room in the array.
abbrev pub AllLines : List (List ℕ) → Type 0
AllLines [] = Unit
AllLines (l ∷ ls) = AllText l × (length l < buff_size - 1) × AllLines ls

-- What is typed.
abbrev pub typed : List (List ℕ) → List ℕ
typed [] = []
typed (l ∷ ls) = l ++ (b'\n' ∷ typed ls)

line_of-typed :
    (count : ℕ) (l rest : List ℕ)
    → AllText l
    → length l < count
    → line_of count (l ++ (b'\n' ∷ rest)) ≡ (l ++ (b'\n' ∷ []), rest)
unfolding line_of
line_of-typed zero l rest h room = absurd (omega arith)
line_of-typed (suc count) [] rest h room = refl
line_of-typed (suc count) (c ∷ l) rest (e, _, h) room =
    rw (e, line_of-typed count l rest h (omega arith), line_of)

fgets-typed :
    (l rest : List ℕ)
    → AllText l
    → length l < buff_size - 1
    → fgets buff_size (l ++ (b'\n' ∷ rest)) ≡ some (l ++ (b'\n' ∷ []), rest)
unfolding fgets
fgets-typed [] rest h room = ap some (line_of-typed (buff_size - 1) [] rest h room)
fgets-typed (c ∷ l) rest h room = ap some (line_of-typed (buff_size - 1) (c ∷ l) rest h room)

cstring-typed : (l : List ℕ) → AllText l → cstring (l ++ (b'\n' ∷ [])) ≡ l ++ (b'\n' ∷ [])
unfolding cstring
cstring-typed [] h = refl
cstring-typed (c ∷ l) (_, e, h) = rw (e, cstring) (ap (λ s. c ∷ s) (cstring-typed l h))

chomp-typed : (l : List ℕ) → chomp (l ++ (b'\n' ∷ [])) ≡ l
unfolding chomp
chomp-typed [] = refl
chomp-typed (c ∷ []) = refl
chomp-typed (c ∷ d ∷ l) = ap (λ s. c ∷ s) (chomp-typed (d ∷ l))

-- The next line, as the loop takes it.
pub next_line :
    (l rest : List ℕ)
    → AllText l
    → length l < buff_size - 1
    → (line : List ℕ) × (fgets buff_size (l ++ (b'\n' ∷ rest)) ≡ some (line, rest))
      × (chomp (cstring line) ≡ l)
next_line l rest h room =
    (l ++ (b'\n' ∷ []), fgets-typed l rest h room, ap chomp (cstring-typed l h) ∙ chomp-typed l)

-- The messages of a conversation: the lines that are not empty, up to the first `q`.
abbrev pub script : List (List ℕ) → List (List ℕ)
script [] = []
script ([] ∷ ls) = script ls
script ((c ∷ l) ∷ ls) = (c ∷ l) ∷ (if is_q (c ∷ l) then [] else script ls)
