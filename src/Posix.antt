-- ===== src/Posix.antt =====
-- What the programs take from the operating system: `read` and `write` on file descriptors.
-- The calls themselves are parameters (`Files`); `Streams` and `Patient` are what POSIX documents
-- of them and what the programs rely on.
use caos_seminars.Prelude.{ℕ, ◌≤◌, ◌<◌, ◌≡◌, ◌≢◌, Bool, true, false, List, ◌++◌, length, take}

-- The values of `errno` that the programs tell apart. EWOULDBLOCK is EAGAIN, as on Linux.
pub data Errno : Type 0 where
  eagain : Errno
  eintr : Errno
  other : (code : ℕ) → Errno

-- `errno == EAGAIN || errno == EINTR`
abbrev pub retryable : Errno → Bool
retryable eagain = true
retryable eintr = true
retryable (other _) = false

-- `errno == EAGAIN || errno == EWOULDBLOCK`
abbrev pub would_block : Errno → Bool
would_block eagain = true
would_block _ = false

-- `got bs` is a return value of `length bs`, with the bytes placed in the buffer; `failed` is -1.
pub data ReadResult : Type 0 where
  got : (bytes : List ℕ) → ReadResult
  failed : (e : Errno) → ReadResult

pub data WriteResult : Type 0 where
  wrote : (count : ℕ) → WriteResult
  failed : (e : Errno) → WriteResult

-- `read(fd, …, count)` and `write(fd, bytes, length bytes)`, on the state of the system.
pub record Files : Type 1 where
  pub World : Type 0
  pub read : (fd count : ℕ) → World → ReadResult × World
  pub write : (fd : ℕ) (bytes : List ℕ) → World → WriteResult × World

module _ {W : Type 0} (received sent : W → ℕ → List ℕ) where
  -- A read gives at most the bytes asked for, and takes them from that descriptor alone.
  abbrev pub ReadLaw : (fd count : ℕ) → W → ReadResult × W → Type 0
  ReadLaw fd count w (ReadResult.got bs, w') =
      (length bs ≤ count)
      × (received w' fd ≡ received w fd ++ bs)
      × ((g : ℕ) → g ≢ fd → received w' g ≡ received w g)
      × (sent w' ≡ sent w)
  ReadLaw fd count w (ReadResult.failed e, w') = (received w' ≡ received w) × (sent w' ≡ sent w)

  -- A write takes a prefix of the bytes, and passes it to that descriptor alone.
  abbrev pub WriteLaw : (fd : ℕ) (bytes : List ℕ) → W → WriteResult × W → Type 0
  WriteLaw fd bytes w (WriteResult.wrote k, w') =
      (k ≤ length bytes)
      × (sent w' fd ≡ sent w fd ++ take k bytes)
      × ((g : ℕ) → g ≢ fd → sent w' g ≡ sent w g)
      × (received w' ≡ received w)
  WriteLaw fd bytes w (WriteResult.failed e, w') = (received w' ≡ received w) × (sent w' ≡ sent w)

-- Every descriptor has the bytes received from it so far, and those sent to it.
pub record Streams (F : Files) : Type 0 where
  pub received : F.World → ℕ → List ℕ
  pub sent : F.World → ℕ → List ℕ
  pub read_law : (fd count : ℕ) (w : F.World) → ReadLaw received sent fd count w (F.read fd count w)
  pub write_law :
      (fd : ℕ) (bs : List ℕ) (w : F.World) → WriteLaw received sent fd bs w (F.write fd bs w)

module _ {W : Type 0} (budget : W → ℕ) where
  abbrev pub ReadSpends : W → ReadResult × W → Type 0
  ReadSpends w (ReadResult.got bs, w') = budget w' ≤ budget w
  ReadSpends w (ReadResult.failed e, w') =
      (budget w' ≤ budget w) × (retryable e ≡ true → budget w' < budget w)

  abbrev pub WriteSpends : W → WriteResult × W → Type 0
  WriteSpends w (WriteResult.wrote k, w') = budget w' ≤ budget w
  WriteSpends w (WriteResult.failed e, w') =
      (budget w' ≤ budget w) × (retryable e ≡ true → budget w' < budget w)

-- EAGAIN and EINTR do not come for ever: at most `budget` more of them.
pub record Patient (F : Files) : Type 0 where
  pub budget : F.World → ℕ
  pub read_spends : (fd count : ℕ) (w : F.World) → ReadSpends budget w (F.read fd count w)
  pub write_spends : (fd : ℕ) (bs : List ℕ) (w : F.World) → WriteSpends budget w (F.write fd bs w)

abbrev pub Accepts : (bs : List ℕ) → WriteResult → Type 0
Accepts bs (WriteResult.wrote k) = 0 < length bs → 0 < k
Accepts bs (WriteResult.failed e) = retryable e ≡ true

-- A descriptor, such as a regular file with room on the disk, that never refuses bytes for good.
pub record Reliable (F : Files) (fd : ℕ) : Type 0 where
  pub accepts : (bs : List ℕ) (w : F.World) → Accepts bs (F.write fd bs w).0
