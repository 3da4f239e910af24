-- ===== src/Prelude/Exec.antt =====
-- Code that mutates a shared object and may panic. Neither tokio's mutex nor the channels roll
-- back, so what was written before the panic stays: the state comes back beside it.
use mathlib.Core.Option.{Option, none, some}

pub data Outcome {ℓ} (A : Type ℓ) : Type ℓ where
  done : A → Outcome A
  panic : Outcome A

abbrev pub Exec {ℓ κ} : Type ℓ → Type κ → Type (ℓ ⊔ κ)
Exec S A = S → Outcome A × S

module _ {ℓ κ} {S : Type ℓ} {A : Type κ} where
  abbrev pub pure : A → Exec S A
  pure a s = (done a, s)

  abbrev pub lift : Outcome A → Exec S A
  lift r s = (r, s)

  abbrev pub gets : (S → A) → Exec S A
  gets f s = (done (f s), s)

abbrev pub modify {ℓ} : {S : Type ℓ} → (S → S) → Exec S (Unit {0})
modify f s = (done tt, f s)

module _ {ℓ κ μ} {S : Type ℓ} {A : Type κ} {B : Type μ} where
  abbrev pub continue : Outcome A → (A → Exec S B) → Exec S B
  continue (done a) f s = f a s
  continue panic f s = (panic, s)

  infixl 10 ◌>>=◌
  abbrev pub ◌>>=◌ : Exec S A → (A → Exec S B) → Exec S B
  ◌>>=◌ m f s = let (r, s') = m s in continue r f s'

infixl 10 ◌>>◌
abbrev pub ◌>>◌ {ℓ κ} : {S : Type ℓ} {B : Type κ} → Exec S (Unit {0}) → Exec S B → Exec S B
m >> n = m >>= λ _. n

-- Indexing and `unwrap`: no value is a panic.
abbrev pub expect {ℓ} : {A : Type ℓ} → Option A → Outcome A
expect none = panic
expect (some a) = done a

abbrev pub map_done {ℓ κ} : {A : Type ℓ} {B : Type κ} → (A → B) → Outcome A → Outcome B
map_done f (done a) = done (f a)
map_done f panic = panic

-- What holds between the states of two steps, and passes from one to the next, holds between the
-- first and the last, whether or not the first step panics.
pub continue-related {ℓ κ μ ν} :
    {S : Type ℓ} {A : Type κ} {B : Type μ} (R : S → S → Type ν)
    → ((s s' s'' : S) → R s s' → R s' s'' → R s s'')
    → (o : Outcome A) (f : A → Exec S B) (s s' : S) → R s s'
    → ((a : A) → R s' (f a s').1)
    → R s (continue o f s').1
continue-related R trans panic f s s' h k = h
continue-related R trans (done a) f s s' h k = trans s s' (f a s').1 h (k a)
