-- ===== src/Io/Reprinter.antt =====
-- sem03-lowlevel-io-fs/smart_reprinter.c, `main` as built with `_USE_READ` and `_USE_READ_RETRY`.
use caos_seminars.Prelude.{ℕ, Option, none, some, List, [], ◌∷◌, ◌++◌, length, take}
use caos_seminars.Prelude.Int.{ℤ, pos, negsuc}
use caos_seminars.Bytes.{blit, cstring}
use caos_seminars.Posix.{Files, ReadResult}
use caos_seminars.Io.ReadRetry.{read_retry}
pub mod Reports

abbrev pub buffer_size : ℕ
buffer_size = 4096

-- What `printf("Read '%.*s'", …)` writes around the string: `Read '`, and `'` at its end.
abbrev pub quoted : List ℕ → List ℕ
quoted s = (b'R' ∷ b'e' ∷ b'a' ∷ b'd' ∷ b' ' ∷ b'\'' ∷ []) ++ (s ++ (b'\'' ∷ []))

-- `printed`: `main` has printed `text` and returned 0. `failed`: it has returned -1.
pub data Exit (W : Type 0) : Type 0 where
  printed : (text : List ℕ) (w : W) → Exit W
  failed : (w : W) → Exit W
  out_of_fuel : Exit W

-- The test of `bytes_read` and the `printf`. `%.*s` takes at most `bytes_read` bytes, up to a NUL.
unfoldable pub report : {W : Type 0} → (bytes_read : ℤ) (buffer : List ℕ) → W → Exit W
report (pos bytes_read) buffer w = Exit.printed (quoted (cstring (take bytes_read buffer))) w
report (negsuc _) buffer w = Exit.failed w

module _ (F : Files) where
  open F use {World, read}

  -- With `_USE_READ`.
  unfoldable pub main_read : (buffer : List ℕ) → World → Exit World
  unfolding report
  main_read buffer w =
      let (result, w1) = read 0 buffer_size w in
      elim result [
        | ReadResult.failed _ ↦ Exit.failed w1
        | ReadResult.got bytes ↦ report (pos (length bytes)) (blit 0 bytes buffer) w1
      ]

  -- With `_USE_READ_RETRY`, whose loop runs on fuel.
  unfoldable pub main_read_retry : (fuel : ℕ) (buffer : List ℕ) → World → Exit World
  unfolding report
  main_read_retry fuel buffer w = elim (read_retry F fuel 0 buffer buffer_size w) [
    | none ↦ Exit.out_of_fuel
    | some (bytes_read, buffer', w1) ↦ report bytes_read buffer' w1
  ]
