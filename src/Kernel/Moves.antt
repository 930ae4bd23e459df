-- ===== src/Kernel/Moves.antt =====
-- The bytes that a `read` or a `write` moves, as a relation between two views of the world.
use caos_seminars.Prelude.{
  append_assoc, ◌==◌, inl, inr, ◌⊎◌, none, some, Option, Bool-cases, ℕ, ◌≡◌, ◌≢◌, sym, ap, ◌∙◌,
  List, [], ◌++◌, arith,
}
use mathlib.Core.List.{append-nil}
use caos_seminars.Kernel.{update}
use caos_seminars.Kernel.Effects.{View}

-- Between two views, `bytes` were received from `fd`, and nothing else happened.
pub record Received (fd : ℕ) (bytes : List ℕ) (v v' : View) : Type 0 where
  pub here : v'.received fd ≡ v.received fd ++ bytes
  pub elsewhere : (g : ℕ) → g ≢ fd → v'.received g ≡ v.received g
  pub same_sent : v'.sent ≡ v.sent
  pub same_open : v'.is_open ≡ v.is_open
  pub same_watch : v'.watch ≡ v.watch
  pub same_allocated : v'.allocated ≡ v.allocated

-- ... or `bytes` were sent to it.
pub record Sent (fd : ℕ) (bytes : List ℕ) (v v' : View) : Type 0 where
  pub here : v'.sent fd ≡ v.sent fd ++ bytes
  pub elsewhere : (g : ℕ) → g ≢ fd → v'.sent g ≡ v.sent g
  pub same_received : v'.received ≡ v.received
  pub same_open : v'.is_open ≡ v.is_open
  pub same_watch : v'.watch ≡ v.watch
  pub same_allocated : v'.allocated ≡ v.allocated

pub Received-none : (fd : ℕ) {v v' : View} → v' ≡ v → Received fd [] v v'
Received-none fd {v} e = record {
  here = ap (λ (u : View). u.received fd) e ∙ sym (append-nil (v.received fd));
  elsewhere = λ g ne. ap (λ (u : View). u.received g) e;
  same_sent = ap (λ (u : View). u.sent) e;
  same_open = ap (λ (u : View). u.is_open) e;
  same_watch = ap (λ (u : View). u.watch) e;
  same_allocated = ap (λ (u : View). u.allocated) e;
}

pub Sent-none : (fd : ℕ) {v v' : View} → v' ≡ v → Sent fd [] v v'
Sent-none fd {v} e = record {
  here = ap (λ (u : View). u.sent fd) e ∙ sym (append-nil (v.sent fd));
  elsewhere = λ g ne. ap (λ (u : View). u.sent g) e;
  same_received = ap (λ (u : View). u.received) e;
  same_open = ap (λ (u : View). u.is_open) e;
  same_watch = ap (λ (u : View). u.watch) e;
  same_allocated = ap (λ (u : View). u.allocated) e;
}

pub update_self {ℓ} : {A : Type ℓ} (f : ℕ → A) (i : ℕ) (a : A) → update f i a i ≡ a
update_self f i a = ground arith

pub update-other {ℓ} : {A : Type ℓ} (f : ℕ → A) (i j : ℕ) (a : A) → j ≢ i → update f i a j ≡ f j
update-other f i j a ne = ground arith

pub Received-some :
    (fd : ℕ) (bytes : List ℕ) {v v' : View}
    → v' ≡ record v { received = update v.received fd (v.received fd ++ bytes) }
    → Received fd bytes v v'
Received-some fd bytes {v} e = record {
  here = ap (λ (u : View). u.received fd) e ∙ update_self v.received fd _;
  elsewhere = λ g ne. ap (λ (u : View). u.received g) e ∙ update-other v.received fd g _ ne;
  same_sent = ap (λ (u : View). u.sent) e;
  same_open = ap (λ (u : View). u.is_open) e;
  same_watch = ap (λ (u : View). u.watch) e;
  same_allocated = ap (λ (u : View). u.allocated) e;
}

pub Sent-some :
    (fd : ℕ) (bytes : List ℕ) {v v' : View}
    → v' ≡ record v { sent = update v.sent fd (v.sent fd ++ bytes) }
    → Sent fd bytes v v'
Sent-some fd bytes {v} e = record {
  here = ap (λ (u : View). u.sent fd) e ∙ update_self v.sent fd _;
  elsewhere = λ g ne. ap (λ (u : View). u.sent g) e ∙ update-other v.sent fd g _ ne;
  same_received = ap (λ (u : View). u.received) e;
  same_open = ap (λ (u : View). u.is_open) e;
  same_watch = ap (λ (u : View). u.watch) e;
  same_allocated = ap (λ (u : View). u.allocated) e;
}

-- An entry of a changed family is the new one, or an old one elsewhere.
pub update-none-some {ℓ} :
    {A : Type ℓ} (f : ℕ → Option A) (i j : ℕ) (a : A)
    → update f i none j ≡ some a
    → (j ≢ i) × (f j ≡ some a)
update-none-some f i j a h = elim (Bool-cases (i == j)) [
  | inl same ↦ absurd (ground arith)
  | inr differ ↦ (ground arith, ground arith)
]

pub update-some-some {ℓ} :
    {A : Type ℓ} (f : ℕ → Option A) (i j : ℕ) (a b : A)
    → update f i (some a) j ≡ some b
    → ((j ≡ i) × (a ≡ b)) ⊎ ((j ≢ i) × (f j ≡ some b))
update-some-some f i j a b h = elim (Bool-cases (i == j)) [
  | inl same ↦ inl (ground arith, ground arith)
  | inr differ ↦ inr (ground arith, ground arith)
]

-- Two moves of the same descriptor are one.
pub Sent-append :
    (fd : ℕ) (a b : List ℕ) {v v' v'' : View}
    → Sent fd a v v'
    → Sent fd b v' v''
    → Sent fd (a ++ b) v v''
Sent-append fd a b {v} first second = record {
  here = second.here ∙ ap (λ l. l ++ b) first.here ∙ append_assoc (v.sent fd) a b;
  elsewhere = λ g ne. second.elsewhere g ne ∙ first.elsewhere g ne;
  same_received = second.same_received ∙ first.same_received;
  same_open = second.same_open ∙ first.same_open;
  same_watch = second.same_watch ∙ first.same_watch;
  same_allocated = second.same_allocated ∙ first.same_allocated;
}
