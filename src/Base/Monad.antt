-- ===== src/Base/Monad.antt =====
-- How a Go function ends, and the state monad of the program. An `error` is its text.
use mathlib.Core.Path.{◌≡◌, refl}
use mathlib.Core.Logic.{◌⊎◌, inl, inr}
use mathlib.Core.List.{List}
use Prim.Native.Nat.{ℕ}

-- A Go string of valid UTF-8, as its code points.
abbrev pub Text : Type 0
Text = List ℕ

-- The results `(a, nil)` and `(_, err)`.
pub data Result {ℓ} (A : Type ℓ) : Type ℓ where
  ok : A → Result A
  err : Text → Result A

-- A call returns, panics, or ends the process (`logrus.Fatalf`).
pub data Outcome {ℓ} (A : Type ℓ) : Type ℓ where
  done : A → Outcome A
  panicked : Text → Outcome A
  exited : Text → Outcome A

pub Result-cases {ℓ} :
    {A : Type ℓ} (r : Result A) → ((a : A) × (r ≡ ok a)) ⊎ ((m : Text) × (r ≡ err m))
Result-cases (ok a) = inl (a, refl)
Result-cases (err m) = inr (m, refl)

pub Outcome-cases {ℓ} :
    {A : Type ℓ} (o : Outcome A)
    → ((a : A) × (o ≡ done a)) ⊎ (((m : Text) × (o ≡ panicked m)) ⊎ ((m : Text) × (o ≡ exited m)))
Outcome-cases (done a) = inl (a, refl)
Outcome-cases (panicked m) = inr (inl (m, refl))
Outcome-cases (exited m) = inr (inr (m, refl))

module _ {ℓ κ} {A : Type ℓ} {B : Type κ} where
  -- Go on with what a call returned.
  abbrev pub and_then : Outcome A → (A → Outcome B) → Outcome B
  and_then (done a) f = f a
  and_then (panicked m) f = panicked m
  and_then (exited m) f = exited m

abbrev pub M : Type 0 → Type 0 → Type 0
M S A = S → Outcome A × S

abbrev pub return : {S A : Type 0} → A → M S A
return a s = (done a, s)

abbrev pub panic : {S A : Type 0} → Text → M S A
panic m s = (panicked m, s)

abbrev pub fatal : {S A : Type 0} → Text → M S A
fatal m s = (exited m, s)

abbrev pub resume : {S A B : Type 0} → Outcome A × S → (A → M S B) → Outcome B × S
resume (done a, s) f = f a s
resume (panicked m, s) f = (panicked m, s)
resume (exited m, s) f = (exited m, s)

infixl 5 ◌>>=◌ ◌>>◌
abbrev pub ◌>>=◌ : {S A B : Type 0} → M S A → (A → M S B) → M S B
◌>>=◌ m f s = resume (m s) f

abbrev pub ◌>>◌ : {S B : Type 0} → M S (Unit {0}) → M S B → M S B
m >> k = m >>= λ _. k

-- A function that reads the state only.
abbrev pub reads : {S A : Type 0} → (S → Outcome A) → M S A
reads f s = (f s, s)
