-- ===== src/Tests/Slow.antt =====
-- A concrete kernel: it moves few bytes at a time and interrupts calls, as its script says.
use caos_seminars.Prelude.{
  ℕ, zero, suc, ◌≡◌, refl, ap, List, [], ◌∷◌, ◌++◌, arith, length, length-take, take, drop, ◌==◌,
  if◌then◌else◌,
}
use Prim.Native.Nat.{min}
use caos_seminars.Posix.{
  Files, ReadResult, WriteResult, eintr, Streams, Patient, Reliable, Accepts, ReadLaw, WriteLaw,
  ReadSpends, WriteSpends,
}

-- Each call uses up one entry of the script: 0 interrupts it, and `suc k` moves at most `k + 1`
-- bytes. Without an entry a call moves all it can. `input` is what is there to read.
pub record World : Type 0 where
  pub script : List ℕ
  pub input : List ℕ
  pub received : ℕ → List ℕ
  pub sent : ℕ → List ℕ

abbrev pub update : (ℕ → List ℕ) → ℕ → List ℕ → ℕ → List ℕ
update f fd bs g = if g == fd then f fd ++ bs else f g

abbrev pub take_in : (fd count : ℕ) → World → ReadResult × World
take_in fd count w = (
  ReadResult.got (take count w.input),
  record w { input = drop count w.input; received = update w.received fd (take count w.input) },
)

abbrev pub put_out : (fd count : ℕ) (bs : List ℕ) → World → WriteResult × World
put_out fd count bs w = (
  WriteResult.wrote (min count (length bs)),
  record w { sent = update w.sent fd (take (min count (length bs)) bs) },
)

abbrev pub read_by : List ℕ → (fd count : ℕ) → World → ReadResult × World
read_by [] fd count w = take_in fd count w
read_by (zero ∷ rest) fd count w = (ReadResult.failed eintr, record w { script = rest })
read_by (suc k ∷ rest) fd count w = take_in fd (min (suc k) count) (record w { script = rest })

abbrev pub write_by : List ℕ → (fd : ℕ) (bs : List ℕ) → World → WriteResult × World
write_by [] fd bs w = put_out fd (length bs) bs w
write_by (zero ∷ rest) fd bs w = (WriteResult.failed eintr, record w { script = rest })
write_by (suc k ∷ rest) fd bs w = put_out fd (suc k) bs (record w { script = rest })

abbrev pub slow : Files
slow = record {
  World = World;
  read = λ fd count w. read_by w.script fd count w;
  write = λ fd bs w. write_by w.script fd bs w;
}

pub read_by-ReadLaw :
    (s : List ℕ) (fd count : ℕ) (w : World)
    → ReadLaw (λ (v : World). v.received) (λ (v : World). v.sent) fd count w (read_by s fd count w)
read_by-ReadLaw [] fd count w =
    (omega (arith, length-take {0} count w.input), ground arith, ground arith, refl)
read_by-ReadLaw (zero ∷ rest) fd count w = (refl, refl)
read_by-ReadLaw (suc k ∷ rest) fd count w =
    (omega (arith, length-take {0} (min (suc k) count) w.input), ground arith, ground arith, refl)

pub write_by-WriteLaw :
    (s : List ℕ) (fd : ℕ) (bs : List ℕ) (w : World)
    → WriteLaw (λ (v : World). v.received) (λ (v : World). v.sent) fd bs w (write_by s fd bs w)
write_by-WriteLaw [] fd bs w = (omega arith, ground arith, ground arith, refl)
write_by-WriteLaw (zero ∷ rest) fd bs w = (refl, refl)
write_by-WriteLaw (suc k ∷ rest) fd bs w = (omega arith, ground arith, ground arith, refl)

abbrev pub slow_streams : Streams slow
slow_streams = record {
  received = λ w. w.received;
  sent = λ w. w.sent;
  read_law = λ fd count w. read_by-ReadLaw w.script fd count w;
  write_law = λ fd bs w. write_by-WriteLaw w.script fd bs w;
}

pub read_by-ReadSpends :
    (s : List ℕ) (fd count : ℕ) (w : World)
    → w.script ≡ s
    → ReadSpends (λ (v : World). length v.script) w (read_by s fd count w)
read_by-ReadSpends [] fd count w e = omega arith
read_by-ReadSpends (zero ∷ rest) fd count w e =
    (omega (arith, ap length e), λ _. omega (arith, ap length e))
read_by-ReadSpends (suc k ∷ rest) fd count w e = omega (arith, ap length e)

pub write_by-WriteSpends :
    (s : List ℕ) (fd : ℕ) (bs : List ℕ) (w : World)
    → w.script ≡ s
    → WriteSpends (λ (v : World). length v.script) w (write_by s fd bs w)
write_by-WriteSpends [] fd bs w e = omega arith
write_by-WriteSpends (zero ∷ rest) fd bs w e =
    (omega (arith, ap length e), λ _. omega (arith, ap length e))
write_by-WriteSpends (suc k ∷ rest) fd bs w e = omega (arith, ap length e)

abbrev pub slow_patient : Patient slow
slow_patient = record {
  budget = λ w. length w.script;
  read_spends = λ fd count w. read_by-ReadSpends w.script fd count w refl;
  write_spends = λ fd bs w. write_by-WriteSpends w.script fd bs w refl;
}

pub write_by-Accepts :
    (s : List ℕ) (fd : ℕ) (bs : List ℕ) (w : World) → Accepts bs (write_by s fd bs w).0
write_by-Accepts [] fd bs w = λ h. omega arith
write_by-Accepts (zero ∷ rest) fd bs w = refl
write_by-Accepts (suc k ∷ rest) fd bs w = λ h. omega arith

abbrev pub slow_reliable : (fd : ℕ) → Reliable slow fd
slow_reliable fd = record { accepts = λ bs w. write_by-Accepts w.script fd bs w }

-- Nothing moved yet, `input` to read, and the script.
abbrev pub world : (script input : List ℕ) → World
world script input = record { script = script; input = input; received = λ _. []; sent = λ _. [] }
