-- ===== src/Tests/ProcessTests.antt =====
-- The programs of sem07-processes on a process with its three standard descriptors.
use caos_seminars.Prelude.{
  ◌==◌, Option, ℕ, ◌≡◌, ◌≢◌, refl, true, none, some, List, [], ◌∷◌, arith, ltb, if◌then◌else◌,
}
use caos_seminars.Process.Descriptors.{Description, Table, Calls, AfterPipe, Laws}
use caos_seminars.Process.Pipe.{main}
use caos_seminars.Process.Pipe.Ends.{Began, AllWired, main-AllWired}
use caos_seminars.Bytes.{cstring}
use caos_seminars.Process.Shell.{Args, parse_line}
use caos_seminars.Process.Shell.Words.{Spaced, filled, parse_line-words}

-- Descriptors below 3 are open, and `pipe` takes 3 and 4.
abbrev standard : Table
standard g = if ltb g 3 then some (Description.inherited g) else none

abbrev made : Table → Table
made t = λ g.
    if g == 4 then some Description.pipe_out else if g == 3 then some Description.pipe_in else t g

abbrev pipe_by : (first second : Option Description) → Table → Option (ℕ × ℕ) × Table
pipe_by none none t = (some (3, 4), made t)
pipe_by _ _ t = (none, t)

abbrev dup2_by : Option Description → (old new : ℕ) → Table → Table
dup2_by none old new t = t
dup2_by (some d) old new t = λ g. if g == new then some d else t g

abbrev simple : Calls
simple = record {
  World = Table;
  pipe = λ t. pipe_by (t 3) (t 4) t;
  dup2 = λ old new t. dup2_by (t old) old new t;
  close = λ fd t g. if g == fd then none else t g;
}

pipe_by_law :
    (first second : Option Description) (t : Table)
    → t 3 ≡ first
    → t 4 ≡ second
    → AfterPipe t (pipe_by first second t).0 (pipe_by first second t).1
pipe_by_law none none t e3 e4 = (omega arith, e3, e4, λ g. refl)
pipe_by_law none (some d) t e3 e4 = λ g. refl
pipe_by_law (some d) second t e3 e4 = λ g. refl

dup2_by_law :
    (old new : ℕ) (d : Description) (t : Table)
    → t old ≡ some d
    → old ≢ new
    → (g : ℕ) → dup2_by (t old) old new t g ≡ (if g == new then some d else t g)
dup2_by_law old new d t e ne g = rw e refl

abbrev simple_laws : Laws simple
simple_laws = record {
  table = λ t. t;
  pipe_law = λ t. pipe_by_law (t 3) (t 4) t refl refl;
  dup2_law = dup2_by_law;
  close_law = λ fd t g. refl;
}

standard-Began : Began standard
standard-Began = record {
  no_writer = λ g. ground arith;
  no_reader = λ g. ground arith;
  has_stdin = cc;
  has_stdout = cc;
}

main-AllWired_example : AllWired simple simple_laws standard (main simple true true standard)
main-AllWired_example = main-AllWired simple simple_laws true true standard standard-Began

-- `ls -l`, after a space, and a NUL and more bytes behind the line.
abbrev typed : List ℕ
typed = 32 ∷ 108 ∷ 115 ∷ 32 ∷ 32 ∷ 45 ∷ 108 ∷ 10 ∷ 0 ∷ 120 ∷ 10 ∷ []

abbrev listing : List Spaced
listing = (32 ∷ [], 108 ∷ 115 ∷ []) ∷ (32 ∷ 32 ∷ [], 45 ∷ 108 ∷ []) ∷ []

parse_line-words_example :
    parse_line typed ≡ Args.args (filled 8 ((108 ∷ 115 ∷ []) ∷ (45 ∷ 108 ∷ []) ∷ [])) 2
unfolding cstring
parse_line-words_example =
    parse_line-words typed listing (10 ∷ []) refl (ground arith) (ground arith)

-- Eleven words of a letter each.
abbrev eleven : List ℕ
eleven =
    97 ∷ 32 ∷ 97 ∷ 32 ∷ 97 ∷ 32 ∷ 97 ∷ 32 ∷ 97 ∷ 32 ∷ 97 ∷ 32 ∷ 97 ∷ 32 ∷ 97 ∷ 32 ∷ 97 ∷ 32 ∷ 97
    ∷ 32 ∷ 97 ∷ 10 ∷ []

parse_line_overruns : parse_line eleven ≡ Args.overrun
unfolding parse_line
parse_line_overruns = refl
