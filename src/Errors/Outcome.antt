-- ===== src/Errors/Outcome.antt =====
-- Chains of steps that only compute, and what holds of a result where it is no error.
use secunda_test.Base.{◌≡◌, refl, subst, arith}
use secunda_test.Errors.{GoError}
use secunda_test.Errors.Action.{Result, ok, err}

infixl 5 ◌>>=◌
abbrev pub ◌>>=◌ : {A B : Type 0} → Result A → (A → Result B) → Result B
ok a >>= f = f a
err e >>= f = err e

-- What a successful chain has gone through.
pub bind-ok :
    {A B : Type 0} (r : Result A) (k : A → Result B) {b : B}
    → (r >>= k) ≡ ok b
    → (a : A) × (r ≡ ok a) × (k a ≡ ok b)
bind-ok (ok a) k h = (a, refl, h)
bind-ok (err e) k h = absurd (ground arith)

abbrev pub OnOk : {A : Type 0} → (A → Type 0) → Result A → Type 0
OnOk P (ok a) = P a
OnOk P (err e) = Unit

pub OnOk-bind :
    {A B : Type 0} (P : A → Type 0) (Q : B → Type 0) (r : Result A) (f : A → Result B)
    → OnOk P r
    → ((a : A) → P a → OnOk Q (f a))
    → OnOk Q (r >>= f)
OnOk-bind P Q (ok a) f p k = k a p
OnOk-bind P Q (err e) f p k = tt

pub OnOk-ok : {A : Type 0} (P : A → Type 0) (r : Result A) {a : A} → OnOk P r → r ≡ ok a → P a
OnOk-ok P r p e = subst (OnOk P) e p

abbrev pub OnErr : {A : Type 0} → (GoError → Type 0) → Result A → Type 0
OnErr P (ok a) = Unit
OnErr P (err e) = P e

pub OnErr-bind :
    {A B : Type 0} (P : GoError → Type 0) (r : Result A) (f : A → Result B)
    → OnErr P r
    → ((a : A) → OnErr P (f a))
    → OnErr P (r >>= f)
OnErr-bind P (ok a) f p k = k a
OnErr-bind P (err e) f p k = p
