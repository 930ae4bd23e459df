-- ===== src/Process/Shell/Words.antt =====
-- The arguments that sem07-processes/snippets/simple_shell.c makes of a line.
use caos_seminars.Prelude.{
  sym, subst, Bool-cases, ◌==◌, ℕ, zero, suc, ◌-◌, ◌≤◌, ◌<◌, ◌≡◌, ◌≢◌, refl, ap, Bool, true, false,
  Option, none, some, List, [], ◌∷◌, ◌++◌, length, length-append, ltb, if◌then◌else◌, replicate,
  arith, Option-cases, inl, inr, append_assoc, ◌∙◌,
}
use mathlib.Core.List.{append-nil}
use mathlib.Core.Path.{ap₂}
use caos_seminars.Bytes.{cstring}
use caos_seminars.Process.Shell.{
  Args, max_args, is_delimiter, skip, token, behind, next_token, strtok, store, collect, parse_line,
}

abbrev pub AllAre : Bool → List ℕ → Type 0
AllAre b [] = Unit
AllAre b (c ∷ s) = (is_delimiter c ≡ b) × AllAre b s

-- A word with the delimiters before it.
abbrev pub Spaced : Type 0
Spaced = List ℕ × List ℕ

-- Each word has delimiters before it, and one character or more, none of them a delimiter.
abbrev pub AllSpaced : List Spaced → Type 0
AllSpaced [] = Unit
AllSpaced ((gap, word) ∷ ps) =
    (gap ≢ []) × AllAre true gap × (word ≢ []) × AllAre false word × AllSpaced ps

-- A line of words, of which the first may stand at the start.
abbrev pub IsLine : List Spaced → Type 0
IsLine [] = Unit
IsLine ((gap, word) ∷ ps) = AllAre true gap × (word ≢ []) × AllAre false word × AllSpaced ps

-- The bytes of the line, with the delimiters at its end.
abbrev pub spelled : List Spaced → List ℕ → List ℕ
spelled [] end = end
spelled ((gap, word) ∷ ps) end = gap ++ (word ++ spelled ps end)

abbrev pub words : List Spaced → List (List ℕ)
words [] = []
words ((gap, word) ∷ ps) = word ∷ words ps

skip-append : (gap s : List ℕ) → AllAre true gap → skip (gap ++ s) ≡ skip s
unfolding skip
skip-append [] s h = refl
skip-append (c ∷ gap) s (e, h) = rw (e, skip) (skip-append gap s h)

-- What follows a word: nothing, or a delimiter.
abbrev Stops : List ℕ → Type 0
Stops [] = Unit
Stops (c ∷ s) = is_delimiter c ≡ true

-- What `strtok` leaves for the next call.
abbrev remaining : List ℕ → List ℕ
remaining [] = []
remaining (c ∷ s) = s

token-append : (word s : List ℕ) → AllAre false word → Stops s → token (word ++ s) ≡ word
unfolding token
token-append [] [] h stop = refl
token-append [] (c ∷ s) h stop = rw (stop, token)
token-append (c ∷ word) s (e, h) stop = rw (e, token) (ap (λ l. c ∷ l) (token-append word s h stop))

behind-append : (word s : List ℕ) → AllAre false word → Stops s → behind (word ++ s) ≡ remaining s
unfolding behind
behind-append [] [] h stop = refl
behind-append [] (c ∷ s) h stop = rw (stop, behind)
behind-append (c ∷ word) s (e, h) stop = rw (e, behind) (behind-append word s h stop)

skip_word : (c : ℕ) (s : List ℕ) → is_delimiter c ≡ false → skip (c ∷ s) ≡ c ∷ s
unfolding skip
skip_word c s e = rw (e, skip)

strtok-word :
    (line gap word s : List ℕ)
    → cstring line ≡ gap ++ (word ++ s)
    → AllAre true gap
    → word ≢ []
    → AllAre false word
    → Stops s
    → strtok line ≡ some (word, remaining s)
unfolding strtok
strtok-word line gap [] s el hg ne hw stop = absurd (ne refl)
strtok-word line gap (c ∷ word) s el hg ne hw stop =
    rw (el, skip-append gap (c ∷ word ++ s) hg, skip_word c (word ++ s) hw.0)
      (ap₂ (λ (l r : List ℕ). some (l, r)) (token-append (c ∷ word) s hw stop)
        (behind-append (c ∷ word) s hw stop))

strtok-end : (line end : List ℕ) → cstring line ≡ end → AllAre true end → strtok line ≡ none
unfolding strtok next_token
strtok-end line end el h =
    ap (λ l. next_token (skip l)) el
    ∙ ap (λ l. next_token (skip l)) (sym (append-nil end))
    ∙ ap next_token (skip-append end [] h)

-- The words stored one after the other.
fill : (pointers : List (Option (List ℕ))) (argc : ℕ) → List (List ℕ) → Args
fill pointers argc [] = Args.args pointers argc
fill pointers argc (w ∷ ws) = elim (store pointers argc w) [
  | none ↦ Args.overrun
  | some pointers' ↦ fill pointers' (suc argc) ws
]

-- What `strtok` leaves behind a word is a line of the words that follow.
spelled-Stops :
    (ps : List Spaced) (end : List ℕ) → AllSpaced ps → AllAre true end → Stops (spelled ps end)
spelled-Stops [] [] h e = tt
spelled-Stops [] (c ∷ end) h e = e.0
spelled-Stops (([], word) ∷ ps) end h e = absurd (h.0 refl)
spelled-Stops ((c ∷ gap, word) ∷ ps) end h e = h.1.0

-- The line without its first delimiter, if it has one.
abbrev shortened : List Spaced → List Spaced
shortened [] = []
shortened ((gap, word) ∷ ps) = (remaining gap, word) ∷ ps

remaining-spelled :
    (ps : List Spaced) (end : List ℕ)
    → AllSpaced ps
    → AllAre true end
    → (end' : List ℕ) × AllAre true end'
      × IsLine (shortened ps)
      × (words (shortened ps) ≡ words ps)
      × (remaining (spelled ps end) ≡ spelled (shortened ps) end')
remaining-spelled [] [] h e = ([], tt, tt, refl, refl)
remaining-spelled [] (c ∷ end) h e = (end, e.1, tt, refl, refl)
remaining-spelled (([], word) ∷ ps) end h e = absurd (h.0 refl)
remaining-spelled ((c ∷ gap, word) ∷ ps) end h e = (end, e, (h.1.1, h.2, h.3, h.4), refl, refl)

length-remaining : (s : List ℕ) → length (remaining s) ≤ length s
length-remaining [] = omega arith
length-remaining (c ∷ s) = omega arith

length-word : (word : List ℕ) → word ≢ [] → 0 < length word
length-word [] h = absurd (h refl)
length-word (c ∷ word) h = omega arith

-- No NUL is among the bytes.
abbrev NoNul : List ℕ → Type 0
NoNul [] = Unit
NoNul (c ∷ s) = ((c == 0) ≡ false) × NoNul s

cstring-NoNul : (s : List ℕ) → NoNul (cstring s)
unfolding cstring
cstring-NoNul [] = tt
cstring-NoNul (c ∷ s) = elim (Bool-cases (c == 0)) [
  | inl nul ↦ rw nul tt
  | inr e ↦ rw e (e, cstring-NoNul s)
]

cstring_same : (s : List ℕ) → NoNul s → cstring s ≡ s
unfolding cstring
cstring_same [] h = refl
cstring_same (c ∷ s) (e, h) = rw (e, cstring) (ap (λ l. c ∷ l) (cstring_same s h))

NoNul-behind : (a b : List ℕ) → NoNul (a ++ b) → NoNul b
NoNul-behind [] b h = h
NoNul-behind (c ∷ a) b h = NoNul-behind a b h.1

NoNul-remaining : (s : List ℕ) → NoNul s → NoNul (remaining s)
NoNul-remaining [] h = tt
NoNul-remaining (c ∷ s) h = h.1

length-cstring : (s : List ℕ) → length (cstring s) ≤ length s
unfolding cstring
length-cstring [] = omega arith
length-cstring (c ∷ s) = elim (Bool-cases (c == 0)) [
  | inl nul ↦ rw (nul, cstring) (omega arith)
  | inr e ↦ rw (e, cstring) (omega (arith, length-cstring s))
]

-- Fuel for a call of `strtok` for each byte and one more.
collect-fill :
    (fuel : ℕ) (line : List ℕ) (ps : List Spaced) (end : List ℕ) (pointers : List (Option (List ℕ)))
    (argc : ℕ)
    → cstring line ≡ spelled ps end
    → NoNul (spelled ps end)
    → IsLine ps
    → AllAre true end
    → length (spelled ps end) < fuel
    → collect fuel line pointers argc ≡ fill pointers argc (words ps)
unfolding collect fill
collect-fill zero line ps end pointers argc el hn h e enough = absurd (omega arith)
collect-fill (suc fuel) line [] end pointers argc el hn h e enough =
    rw (strtok-end line end el e, collect)
collect-fill (suc fuel) line ((gap, word) ∷ ps) end pointers argc el hn h e enough =
    let (end', e', h', same, rest) = remaining-spelled ps end h.3 e in
    let shorter : length (spelled (shortened ps) end') < fuel = omega (
      arith,
      ap length rest,
      length-remaining (spelled ps end),
      length-append {0} gap (word ++ spelled ps end),
      length-append {0} word (spelled ps end),
      length-word word h.1,
    ) in
    let clean : NoNul (spelled (shortened ps) end') = subst NoNul rest (
      NoNul-remaining (spelled ps end)
        (NoNul-behind word (spelled ps end) (NoNul-behind gap (word ++ spelled ps end) hn))) in
    rw
      (
        strtok-word line gap word (spelled ps end) el h.0 h.1 h.2 (spelled-Stops ps end h.3 e),
        collect,
      )
      (elim (Option-cases (store pointers argc word)) [
        | inl outside ↦ rw (outside, fill)
        | inr (pointers', stored) ↦
            rw (stored, fill)
              (ap (λ l. collect fuel l pointers' (suc argc)) rest
                ∙ collect-fill fuel (spelled (shortened ps) end') (shortened ps) end' pointers'
                    (suc argc) (cstring_same (spelled (shortened ps) end') clean) clean h' e'
                    shorter
                ∙ ap (fill pointers' (suc argc)) same)
      ])

-- An array whose first entries are the words, and whose others are NULL.
abbrev pub filled : (free : ℕ) → List (List ℕ) → List (Option (List ℕ))
filled free [] = replicate free none
filled free (w ∷ ws) = some w ∷ filled free ws

module _ (w : List ℕ) where
  store-filled :
      (free : ℕ) (ws : List (List ℕ))
      → store (filled (suc free) ws) (length ws) w ≡ some (filled free (ws ++ (w ∷ [])))
  unfolding store
  store-filled free [] = refl
  store-filled free (v ∷ ws) = rw (store-filled free ws, store)

  store-full : (ws : List (List ℕ)) → store (filled 0 ws) (length ws) w ≡ none
  unfolding store
  store-full [] = refl
  store-full (v ∷ ws) = rw (store-full ws, store)

-- What comes of `words` stored behind `done` in an array with room for `free` more.
abbrev stored_all : (free : ℕ) (done words : List (List ℕ)) → Args
stored_all free done ws =
    if ltb free (length ws)
    then Args.overrun
    else Args.args (filled (free - length ws) (done ++ ws)) (length (done ++ ws))

sub-zero : (n : ℕ) → n - 0 ≡ n
sub-zero n = omega arith

length-snoc : (ws : List (List ℕ)) (w : List ℕ) → suc (length ws) ≡ length (ws ++ (w ∷ []))
length-snoc ws w = omega (arith, length-append {0} ws (w ∷ []))

stored-suc :
    (free n : ℕ) (ws : List (List ℕ))
    → (if ltb free n then Args.overrun else Args.args (filled (free - n) ws) (length ws)) ≡ (
        if ltb (suc free) (suc n)
        then Args.overrun
        else Args.args (filled (suc free - suc n) ws) (length ws))
stored-suc free n ws =
    let same : free - n ≡ suc free - suc n = omega arith in rw (← same) (ground arith)

fill-filled :
    (free : ℕ) (done ws : List (List ℕ))
    → fill (filled free done) (length done) ws ≡ stored_all free done ws
unfolding fill
fill-filled free done [] = rw (append-nil done) (ground (arith, sub-zero free))
fill-filled zero done (w ∷ ws) = rw (store-full w done, fill) (ground arith)
fill-filled (suc free) done (w ∷ ws) =
    rw (store-filled w free done, fill)
      (ap (λ n. fill (filled free (done ++ (w ∷ []))) n ws) (length-snoc done w)
        ∙ fill-filled free (done ++ (w ∷ [])) ws
        ∙ (rw (append_assoc done (w ∷ []) ws) (stored-suc free (length ws) (done ++ w ∷ ws))))

-- For any line whose bytes before the first NUL, if it has one, are words with any delimiters between
-- them, before the first and behind the last: if there are at most `max_args` words, `args` holds exactly the words in order, `argc` is their
-- number, and the rest of `args` is NULL; if there are more, the program writes outside of `args`.
pub parse_line-words :
    (line : List ℕ) (ps : List Spaced) (end : List ℕ)
    → cstring line ≡ spelled ps end
    → IsLine ps
    → AllAre true end
    → parse_line line ≡ (
        if ltb max_args (length (words ps))
        then Args.overrun
        else Args.args (filled (max_args - length (words ps)) (words ps)) (length (words ps)))
unfolding parse_line
parse_line-words line ps end el h e =
    collect-fill (suc (length line)) line ps end (replicate max_args none) 0 el
      (subst NoNul el (cstring-NoNul line)) h e (omega (arith, ap length el, length-cstring line))
    ∙ fill-filled max_args [] (words ps)
