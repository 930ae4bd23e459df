-- ===== src/Process/Pipe/Ends.antt =====
-- Who holds the ends of the pipe of sem07-processes/snippets/pipe.c.
use caos_seminars.Prelude.{
  refl, Option, ℕ, ◌≡◌, ◌≢◌, sym, ap, ◌∙◌, Bool, true, false, none, some, List, [], ◌∷◌, ◌++◌, ◌==◌,
  if◌then◌else◌, arith,
}
use caos_seminars.Process.Descriptors.{
  Description, Table, stdin_fileno, stdout_fileno, Calls, Laws, AfterPipe, redirect_table,
}
use caos_seminars.Process.Pipe.{Name, Outcome, first_child, second_child, forked, plumb, main}

-- What a descriptor of a process has to be: the standard output of ps is the only end for writing,
-- the standard input of tail the only one for reading, and all else is as it was before `pipe`.
abbrev pub expected : Name → Table → Table
expected Name.ps t g = if g == stdout_fileno then some Description.pipe_out else t g
expected Name.tail t g = if g == stdin_fileno then some Description.pipe_in else t g
expected Name.parent t g = t g

-- What of a process is to be shown: its table, and that it holds an end of the pipe nowhere else.
pub record Plumbed (t : Table) (name : Name) (table : Table) : Type 0 where
  pub wired : (g : ℕ) → table g ≡ expected name t g
  pub writer :
      (g : ℕ) → table g ≡ some Description.pipe_out → (name ≡ Name.ps) × (g ≡ stdout_fileno)
  pub reader :
      (g : ℕ) → table g ≡ some Description.pipe_in → (name ≡ Name.tail) × (g ≡ stdin_fileno)

-- The process began with no end of the pipe, and with its standard input and output open.
pub record Began (t : Table) : Type 0 where
  pub no_writer : (g : ℕ) → t g ≢ some Description.pipe_out
  pub no_reader : (g : ℕ) → t g ≢ some Description.pipe_in
  pub has_stdin : t stdin_fileno ≢ none
  pub has_stdout : t stdout_fileno ≢ none

expected-writer :
    (name : Name) (t : Table) (g : ℕ)
    → Began t
    → expected name t g ≡ some Description.pipe_out
    → (name ≡ Name.ps) × (g ≡ stdout_fileno)
expected-writer Name.ps t g b h = ground (arith, b.no_writer g)
expected-writer Name.tail t g b h = ground (arith, b.no_writer g)
expected-writer Name.parent t g b h = ground (arith, b.no_writer g)

expected-reader :
    (name : Name) (t : Table) (g : ℕ)
    → Began t
    → expected name t g ≡ some Description.pipe_in
    → (name ≡ Name.tail) × (g ≡ stdin_fileno)
expected-reader Name.ps t g b h = ground (arith, b.no_reader g)
expected-reader Name.tail t g b h = ground (arith, b.no_reader g)
expected-reader Name.parent t g b h = ground (arith, b.no_reader g)

expected-Plumbed :
    (name : Name) (t table : Table)
    → Began t
    → ((g : ℕ) → table g ≡ expected name t g)
    → Plumbed t name table
expected-Plumbed name t table b h = record {
  wired = h;
  writer = λ g e. expected-writer name t g b (sym (h g) ∙ e);
  reader = λ g e. expected-reader name t g b (sym (h g) ∙ e);
}

module _ (C : Calls) (L : Laws C) where
  open C use {World, pipe, close, dup2}
  open L use {table, pipe_law, dup2_law, close_law}

  abbrev pub AllPlumbed : (t : Table) → List (Name × World) → Type 0
  AllPlumbed t [] = Unit
  AllPlumbed t ((name, w) ∷ rest) = Plumbed t name (table w) × AllPlumbed t rest

  module _ (fd0 fd1 : ℕ) (t : Table) (w : World) (made : AfterPipe t (some (fd0, fd1)) (table w))
      (b : Began t) where
    not_stdout : (fd : ℕ) → t fd ≡ none → fd ≢ stdout_fileno
    not_stdout fd e same = b.has_stdout (ap t (sym same) ∙ e)

    not_stdin : (fd : ℕ) → t fd ≡ none → fd ≢ stdin_fileno
    not_stdin fd e same = b.has_stdin (ap t (sym same) ∙ e)

    writes : table w fd1 ≡ some Description.pipe_out
    writes = made.3 fd1 ∙ (ground arith)

    reads : table w fd0 ≡ some Description.pipe_in
    reads = made.3 fd0 ∙ (ground (arith, made.0))

    first_child-expected : (g : ℕ) → table (first_child C fd0 fd1 w) g ≡ expected Name.ps t g
    unfolding first_child
    first_child-expected g =
        rw
          (
            close_law fd1 (close fd0 (dup2 fd1 stdout_fileno w)) g,
            close_law fd0 (dup2 fd1 stdout_fileno w) g,
            dup2_law fd1 stdout_fileno Description.pipe_out w writes (not_stdout fd1 made.2) g,
            made.3 g,
          )
          (ground (arith, not_stdout fd0 made.1, not_stdout fd1 made.2, made))

    reads_closed : table (close fd1 w) fd0 ≡ some Description.pipe_in
    reads_closed = close_law fd1 w fd0 ∙ (ground (arith, made.0, reads))

    second_child-expected :
        (g : ℕ) → table (second_child C fd0 (close fd1 w)) g ≡ expected Name.tail t g
    unfolding second_child
    second_child-expected g =
        rw
          (
            redirect_table C L fd0 stdin_fileno Description.pipe_in (close fd1 w) reads_closed
                (not_stdin fd0 made.1) g,
            close_law fd1 w g,
            made.3 g,
          )
          (ground (arith, not_stdin fd0 made.1, not_stdin fd1 made.2, made))

    parent-expected : (g : ℕ) → table (close fd0 (close fd1 w)) g ≡ expected Name.parent t g
    parent-expected g =
        rw (close_law fd0 (close fd1 w) g, close_law fd1 w g, made.3 g) (ground (arith, made))

  forked-AllPlumbed :
      (done : Bool) (t : Table) (name : Name) (w : World) (rest : List (Name × World))
      → Plumbed t name (table w)
      → AllPlumbed t rest
      → AllPlumbed t (forked C done (name, w) ++ rest)
  forked-AllPlumbed true t name w rest p ps = (p, ps)
  forked-AllPlumbed false t name w rest p ps = ps

  plumb-AllPlumbed :
      (fd0 fd1 : ℕ) (first_fork second_fork : Bool) (t : Table) (w : World)
      → AfterPipe t (some (fd0, fd1)) (table w)
      → Began t
      → AllPlumbed t (plumb C fd0 fd1 first_fork second_fork w)
  unfolding plumb
  plumb-AllPlumbed fd0 fd1 first_fork second_fork t w made b =
      forked-AllPlumbed first_fork t Name.ps _ _
        (expected-Plumbed Name.ps t _ b (first_child-expected fd0 fd1 t w made b))
        (forked-AllPlumbed second_fork t Name.tail _ _
          (expected-Plumbed Name.tail t _ b (second_child-expected fd0 fd1 t w made b))
          (expected-Plumbed Name.parent t _ b (parent-expected fd0 fd1 t w made b), tt))

  -- The outcome of `main`: `pipe` has failed, or every process holds what it should.
  abbrev pub AllWired : (first : World) → Outcome World → Type 0
  AllWired first (Outcome.undefined w) = (pipe first).0 ≡ none
  AllWired first (Outcome.processes ps) = AllPlumbed (table first) ps

  wired :
      (first_fork second_fork : Bool) (w : World) (result : Option (ℕ × ℕ)) (w1 : World)
      → pipe w ≡ (result, w1)
      → AfterPipe (table w) result (table w1)
      → Began (table w)
      → AllWired w (main C first_fork second_fork w)
  unfolding main
  wired first_fork second_fork w none w1 e law b =
      rw (e, main) (ap (λ (r : Option (ℕ × ℕ) × World). r.0) e)
  wired first_fork second_fork w (some (fd0, fd1)) w1 e law b =
      rw (e, main, e) (plumb-AllPlumbed fd0 fd1 first_fork second_fork (table w) w1 law b)

  -- For a process that began with its standard input and output open and no end of a pipe: unless
  -- `pipe` has failed, and whichever of the two calls of `fork` succeed, each process holds what
  -- the first one held before but for the standard output of ps and the standard input of tail.
  -- The standard output of ps is the only end for writing in any process, and the standard input of
  -- tail the only one for reading.
  pub main-AllWired :
      (first_fork second_fork : Bool) (w : World)
      → Began (table w)
      → AllWired w (main C first_fork second_fork w)
  main-AllWired first_fork second_fork w b = wired first_fork second_fork w _ _ refl (pipe_law w) b
