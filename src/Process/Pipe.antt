-- ===== src/Process/Pipe.antt =====
-- sem07-processes/snippets/pipe.c: the descriptors of the three processes.
use caos_seminars.Prelude.{ℕ, Bool, true, false, none, some, List, [], ◌∷◌, ◌++◌}
use caos_seminars.Process.Descriptors.{Calls, stdin_fileno, stdout_fileno}
pub mod Ends

pub data Name : Type 0 where
  ps : Name
  tail : Name
  parent : Name

-- `processes`: those that have come of `main`, each when it calls `execlp`, or, the parent,
-- `waitpid`. `undefined`: `pipe` has failed, which the program does not look at, and it goes on with
-- an array that has no values.
pub data Outcome (W : Type 0) : Type 0 where
  processes : List (Name × W) → Outcome W
  undefined : (w : W) → Outcome W

module _ (C : Calls) where
  open C use {World, pipe, dup2, close}

  -- The first child, up to `execlp("ps", …)`.
  unfoldable pub first_child : (fd0 fd1 : ℕ) → World → World
  first_child fd0 fd1 w = close fd1 (close fd0 (dup2 fd1 stdout_fileno w))

  -- The second child, up to `execlp("tail", …)`.
  unfoldable pub second_child : (fd0 : ℕ) → World → World
  second_child fd0 w = close fd0 (dup2 fd0 stdin_fileno w)

  -- A child begins with the descriptors of its parent, if its `fork` has succeeded. The parent does
  -- not look whether it has.
  abbrev pub forked : Bool → Name × World → List (Name × World)
  forked true child = child ∷ []
  forked false child = []

  -- `main` once it has the pipe.
  unfoldable pub plumb : (fd0 fd1 : ℕ) (first_fork second_fork : Bool) → World → List (Name × World)
  plumb fd0 fd1 first_fork second_fork w =
      let w1 = close fd1 w in
      let w2 = close fd0 w1 in
      forked first_fork (Name.ps, first_child fd0 fd1 w)
      ++ (forked second_fork (Name.tail, second_child fd0 w1) ++ ((Name.parent, w2) ∷ []))

  -- `first_fork` and `second_fork`: whether the two calls of `fork` succeed.
  unfoldable pub main : (first_fork second_fork : Bool) → World → Outcome World
  main first_fork second_fork w =
      let (result, w1) = pipe w in
      elim result [
        | none ↦ Outcome.undefined w1
        | some (fd0, fd1) ↦ Outcome.processes (plumb fd0 fd1 first_fork second_fork w1)
      ]
