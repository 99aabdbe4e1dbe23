-- ===== src/Errors/Action.antt =====
-- A Go call that returns `(A, error)` and changes the world `W`, which is whatever its callees keep:
-- tables, cache, log. The world comes back after an error too.
use secunda_test.Base.{◌≡◌, refl, Bool, true, false, inl, inr, ◌⊎◌, arith}
use secunda_test.Errors.{GoError}

pub data Result (A : Type 0) : Type 0 where
  ok : A → Result A
  err : GoError → Result A

abbrev pub Action : Type 0 → Type 0 → Type 0
Action W A = W → Result A × W

module _ {W A : Type 0} where
  abbrev pub pure : A → Action W A
  pure a w = (ok a, w)

  abbrev pub fail : GoError → Action W A
  fail e w = (err e, w)

  abbrev pub lift : Result A → Action W A
  lift r w = (r, w)

  -- The outcome of a call with its error changed, and with its error as a value.
  abbrev pub map_error : (GoError → GoError) → Result A × W → Result A × W
  map_error change (ok a, w) = (ok a, w)
  map_error change (err e, w) = (err (change e), w)

  abbrev pub caught : Result A × W → Result (Result A) × W
  caught (ok a, w) = (ok (ok a), w)
  caught (err e, w) = (ok (err e), w)

module _ {W A : Type 0} where
  -- `if err != nil { return change(err) }`
  abbrev pub on_error : (GoError → GoError) → Action W A → Action W A
  on_error change m w = map_error change (m w)

  -- The error as a value, for code that goes on after it.
  abbrev pub try : Action W A → Action W (Result A)
  try m w = caught (m w)

-- `if refused { return err }`
abbrev pub refuse_if : {W : Type 0} → Bool → GoError → Action W (Unit {0})
refuse_if true e w = (err e, w)
refuse_if false e w = (ok tt, w)

-- The rest of a function, on the outcome of a call that stands before `if err != nil { return err }`.
abbrev pub after : {W A B : Type 0} → (A → Action W B) → Result A × W → Result B × W
after f (ok a, w) = f a w
after f (err e, w) = (err e, w)

infixl 5 ◌>>=◌ ◌>>◌
abbrev pub ◌>>=◌ : {W A B : Type 0} → Action W A → (A → Action W B) → Action W B
◌>>=◌ m f w = after f (m w)

abbrev pub ◌>>◌ : {W A B : Type 0} → Action W A → Action W B → Action W B
m >> k = m >>= λ _. k

pub Result-cases :
    {A : Type 0} (r : Result A) → ((a : A) × (r ≡ ok a)) ⊎ ((e : GoError) × (r ≡ err e))
Result-cases (ok a) = inl (a, refl)
Result-cases (err e) = inr (e, refl)

-- To split on the outcome of a call and keep the equation.
pub Outcome-cases :
    {W A : Type 0} (r : Result A × W)
    → ((a : A) × (w : W) × (r ≡ (ok a, w))) ⊎ ((e : GoError) × (w : W) × (r ≡ (err e, w)))
Outcome-cases (ok a, w) = inl (a, w, refl)
Outcome-cases (err e, w) = inr (e, w, refl)

-- A chain that succeeds has a first call that succeeds.
pub after-eq-ok :
    {W A B : Type 0} (f : A → Action W B) (r : Result A × W) {b : B} {w' : W}
    → after f r ≡ (ok b, w')
    → (a : A) × (w : W) × (r ≡ (ok a, w)) × (f a w ≡ (ok b, w'))
after-eq-ok f (ok a, w) h = (a, w, refl, h)
after-eq-ok f (err e, w) h = absurd (ground arith)

pub map_error-eq-ok :
    {W A : Type 0} (change : GoError → GoError) (r : Result A × W) {a : A} {w : W}
    → map_error change r ≡ (ok a, w)
    → r ≡ (ok a, w)
map_error-eq-ok change (ok b, w1) h = h
map_error-eq-ok change (err e, w1) h = absurd (ground arith)

pub refuse_if-eq-ok :
    {W : Type 0} (b : Bool) (e : GoError) (w : W) {w' : W}
    → refuse_if b e w ≡ (ok tt, w')
    → (b ≡ false) × (w ≡ w')
refuse_if-eq-ok true e w h = absurd (ground arith)
refuse_if-eq-ok false e w h = (refl, ground arith)
