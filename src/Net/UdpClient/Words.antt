-- ===== src/Net/UdpClient/Words.antt =====
-- The words that sem10-net-sockets/snippets/udp/udp_client.c reads.
use caos_seminars.Prelude.{
  ℕ, ◌<◌, ◌≡◌, ◌≢◌, refl, sym, ap, ◌∙◌, true, false, none, some, List, [], ◌∷◌, ◌++◌, append-nil,
  ◌==◌, length,
}
use caos_seminars.Bytes.{cstring}
use caos_seminars.Net.UdpClient.{buff_size, is_space, skip, word_of, next_word, scanf}

abbrev pub AllSpace : List ℕ → Type 0
AllSpace [] = Unit
AllSpace (c ∷ s) = (is_space c ≡ true) × AllSpace s

-- Neither white space nor a NUL.
abbrev pub AllText : List ℕ → Type 0
AllText [] = Unit
AllText (c ∷ s) = (is_space c ≡ false) × ((c == 0) ≡ false) × AllText s

-- A word for which there is room in the array.
abbrev pub IsWord : List ℕ → Type 0
IsWord word = (word ≢ []) × AllText word × (length word < buff_size)

-- Words, each with the white space behind it.
abbrev pub AllWords : List (List ℕ × List ℕ) → Type 0
AllWords [] = Unit
AllWords ((word, gap) ∷ ps) = IsWord word × (gap ≢ []) × AllSpace gap × AllWords ps

-- What is typed, behind some white space.
abbrev pub typed : (gap : List ℕ) → List (List ℕ × List ℕ) → List ℕ
typed gap [] = gap
typed gap ((word, gap') ∷ ps) = gap ++ (word ++ typed gap' ps)

abbrev pub words : List (List ℕ × List ℕ) → List (List ℕ)
words [] = []
words ((word, gap) ∷ ps) = word ∷ words ps

skip-append : (gap s : List ℕ) → AllSpace gap → skip (gap ++ s) ≡ skip s
unfolding skip
skip-append [] s h = refl
skip-append (c ∷ gap) s (e, h) = rw (e, skip) (skip-append gap s h)

-- No word goes on here.
abbrev Stops : List ℕ → Type 0
Stops [] = Unit
Stops (c ∷ s) = is_space c ≡ true

word_of-append : (word s : List ℕ) → AllText word → Stops s → word_of (word ++ s) ≡ (word, s)
unfolding word_of
word_of-append [] [] h stop = refl
word_of-append [] (c ∷ s) h stop = rw (stop, word_of)
word_of-append (c ∷ word) s (e, _, h) stop =
    rw (e, word_of) (ap (λ (r : List ℕ × List ℕ). (c ∷ r.0, r.1)) (word_of-append word s h stop))

skip_word : (c : ℕ) (s : List ℕ) → is_space c ≡ false → skip (c ∷ s) ≡ c ∷ s
unfolding skip
skip_word c s e = rw (e, skip)

Stops-typed :
    (gap : List ℕ) (ps : List (List ℕ × List ℕ)) → gap ≢ [] → AllSpace gap → Stops (typed gap ps)
Stops-typed [] ps ne h = absurd (ne refl)
Stops-typed (c ∷ gap) [] ne (e, h) = e
Stops-typed (c ∷ gap) (p ∷ ps) ne (e, h) = e

pub cstring-AllText : (word : List ℕ) → AllText word → cstring word ≡ word
unfolding cstring
cstring-AllText [] h = refl
cstring-AllText (c ∷ word) (_, e, h) = rw (e, cstring) (ap (λ s. c ∷ s) (cstring-AllText word h))

-- The next word, as the loop takes it.
pub scanf-typed :
    (gap word gap' : List ℕ) (ps : List (List ℕ × List ℕ))
    → AllSpace gap
    → AllWords ((word, gap') ∷ ps)
    → scanf (typed gap ((word, gap') ∷ ps)) ≡ some (word, typed gap' ps)
unfolding scanf next_word
scanf-typed gap [] gap' ps hg ((ne, _, _), _, _, _) = absurd (ne refl)
scanf-typed gap (c ∷ word) gap' ps hg ((ne, hw, _), ng, hg', _) =
    rw (skip-append gap (c ∷ word ++ typed gap' ps) hg, skip_word c (word ++ typed gap' ps) hw.0)
      (ap some (word_of-append (c ∷ word) (typed gap' ps) hw (Stops-typed gap' ps ng hg')))

pub scanf-AllSpace : (gap : List ℕ) → AllSpace gap → scanf gap ≡ none
unfolding scanf next_word
scanf-AllSpace gap h =
    ap (λ l. next_word (skip l)) (sym (append-nil gap)) ∙ ap next_word (skip-append gap [] h)
