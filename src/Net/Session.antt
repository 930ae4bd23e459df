-- ===== src/Net/Session.antt =====
-- The loop over the messages of one client, of tcp/tcp_server.c and of the child in
-- tcp-fork/tcp_server.c. The two differ in the test for the quit command alone.
use caos_seminars.Prelude.{ℕ, zero, suc, Bool, none, some, Option, List, if◌then◌else◌}
use caos_seminars.Prelude.Int.{ℤ, pos, negsuc}
use caos_seminars.Posix.{Files}
use caos_seminars.Net.Message.{read_message, write_message}
pub mod Quit
pub mod Echo

abbrev pub buff_size : ℕ
buff_size = 4096

-- `running`: the rounds that the loop was given are over, and it goes on from there.
pub data Talk (W : Type 0) : Type 0 where
  ended : (w : W) → Talk W
  running : (msg : List ℕ) (w : W) → Talk W
  out_of_fuel : Talk W

module _ (F : Files) (is_quit : List ℕ → ℕ → Bool) where
  open F use {World}

  unfoldable pub session : (rounds client_fd : ℕ) (msg : List ℕ) → World → Talk World
  session zero client_fd msg w = Talk.running msg w
  session (suc rounds) client_fd msg w =
      let (bytes_read, msg', w1) = read_message F client_fd msg buff_size w in
      elim bytes_read [
        | negsuc _ ↦ Talk.ended w1
        | pos zero ↦ Talk.ended w1
        | pos (suc k) ↦
            let next : Talk World = elim (write_message F client_fd msg' (suc k) w1) [
              | some w2 ↦ session rounds client_fd msg' w2
              | none ↦ Talk.out_of_fuel
            ] in
            if is_quit msg' (suc k) then Talk.ended w1 else next
      ]
