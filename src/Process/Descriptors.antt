-- ===== src/Process/Descriptors.antt =====
-- What sem07-processes/snippets/pipe.c takes from the system: the calls that change a descriptor
-- table, which are parameters, and what the manual pages say that they do.
use caos_seminars.Prelude.{ℕ, ◌≡◌, ◌≢◌, Option, none, some, ◌==◌, if◌then◌else◌}

-- What a descriptor stands for: an end of the pipe that the program makes, or something that was
-- open before it began.
pub data Description : Type 0 where
  pipe_in : Description
  pipe_out : Description
  inherited : (number : ℕ) → Description

abbrev pub Table : Type 0
Table = ℕ → Option Description

abbrev pub stdin_fileno : ℕ
stdin_fileno = 0

abbrev pub stdout_fileno : ℕ
stdout_fileno = 1

-- The calls on the state of a process. `pipe` gives `fd[0]` and `fd[1]`, and `none` for -1.
pub record Calls : Type 1 where
  pub World : Type 0
  pub pipe : World → Option (ℕ × ℕ) × World
  pub dup2 : (old new : ℕ) → World → World
  pub close : (fd : ℕ) → World → World

-- `pipe` returns two descriptors that were not open.
abbrev pub AfterPipe : Table → Option (ℕ × ℕ) → Table → Type 0
AfterPipe t (some (fd0, fd1)) t' =
    (fd0 ≢ fd1)
    × (t fd0 ≡ none)
    × (t fd1 ≡ none)
    × ((g : ℕ)
        → t' g ≡ (
            if g == fd1
            then some Description.pipe_out
            else if g == fd0
            then some Description.pipe_in
            else t g))
AfterPipe t none t' = (g : ℕ) → t' g ≡ t g

pub record Laws (C : Calls) : Type 0 where
  pub table : C.World → Table
  pub pipe_law : (w : C.World) → AfterPipe (table w) (C.pipe w).0 (table (C.pipe w).1)
  -- `dup2` of a descriptor that is open to another number.
  pub dup2_law :
      (old new : ℕ) (d : Description) (w : C.World)
      → table w old ≡ some d
      → old ≢ new
      → (g : ℕ) → table (C.dup2 old new w) g ≡ (if g == new then some d else table w g)
  pub close_law :
      (fd : ℕ) (w : C.World) (g : ℕ)
      → table (C.close fd w) g ≡ (if g == fd then none else table w g)

-- A redirection: `target` stands for what `fd` stood for, `fd` is closed, and every other descriptor
-- is as before.
pub redirect_table :
    (C : Calls) (L : Laws C) (fd target : ℕ) (d : Description) (w : C.World)
    → L.table w fd ≡ some d
    → fd ≢ target
    → (g : ℕ)
    → L.table (C.close fd (C.dup2 fd target w)) g
      ≡ (if g == fd then none else if g == target then some d else L.table w g)
redirect_table C L fd target d w e ne g =
    rw (L.close_law fd (C.dup2 fd target w) g, L.dup2_law fd target d w e ne g)
