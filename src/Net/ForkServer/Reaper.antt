-- ===== src/Net/ForkServer/Reaper.antt =====
-- The handler of SIGCHLD of tcp-fork/tcp_server.c leaves no zombie.
use caos_seminars.Prelude.{
  ℕ, zero, suc, ◌<◌, ◌≡◌, refl, Option, none, some, arith, Option-cases, inl, inr,
}
use caos_seminars.Net.ForkServer.{sigchld_handler}

-- What the manual page says of `waitpid(-1, NULL, WNOHANG)`: a positive result is the number of a
-- child that has ended and that is now reaped; with another result there is no such child.
abbrev pub AfterWait : (zombies : ℕ) → Option ℕ → (zombies' : ℕ) → Type 0
AfterWait zombies (some _) zombies' = zombies ≡ suc zombies'
AfterWait zombies none zombies' = (zombies ≡ 0) × (zombies' ≡ 0)

module _ {W : Type 0} (waitpid : W → Option ℕ × W) (zombies : W → ℕ)
    (wait_law : (w : W) → AfterWait (zombies w) (waitpid w).0 (zombies (waitpid w).1)) where
  -- The handler of SIGCHLD returns, and reaps every child that has ended by then, however many of
  -- them share the signal.
  pub sigchld_handler-reaps :
      (fuel : ℕ) (w : W)
      → zombies w < fuel
      → (w' : W) × (sigchld_handler waitpid fuel w ≡ some w') × (zombies w' ≡ 0)
  unfolding sigchld_handler
  sigchld_handler-reaps zero w enough = absurd (omega arith)
  sigchld_handler-reaps (suc fuel) w enough = elim (Option-cases (waitpid w).0) [
    | inl over ↦
        let (before, after) : AfterWait (zombies w) none (zombies (waitpid w).1) =
          rw over at (wait_law w) in
        ((waitpid w).1, rw (sigchld_handler, over) refl, after)
    | inr (pid, reaped) ↦
        let fewer : zombies w ≡ suc (zombies (waitpid w).1) = rw reaped at (wait_law w) in
        let (w', runs, none_left) =
          sigchld_handler-reaps fuel (waitpid w).1 (omega (arith, fewer, enough)) in
        (w', rw (sigchld_handler, reaped) runs, none_left)
  ]
