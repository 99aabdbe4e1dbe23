-- ===== src/Base/Finding.antt =====
-- Rows that a test finds, and the distinct values among them.
use mathlib.Core.Path.{◌≡◌, refl, ◌∙◌, ap}
use mathlib.Core.Logic.{inl, inr}
use mathlib.Core.Bool.{Bool, true, false, ◌&&◌}
use mathlib.Core.List.{List, [], ◌∷◌, map}
use Prim.Native.Nat.{suc}
use native.Mathlib.Omega.{arith}
use secunda_test.Base.Tests.{Bool-cases}
use secunda_test.Base.Lists.{any, keep, length}
use secunda_test.Base.Joins.{any-keep, any-map}
use secunda_test.Base.Distinct.{IsDistinct, same_number, is_in}
use secunda_test.Base.Int.{ℤ, ◌==ℤ◌}

-- A row of some rows, by the tests that find it.
abbrev pub IsIn : {A : Type 0} → A → List A → Type 0
IsIn {A = A} x xs = (p : A → Bool) → p x ≡ true → any p xs ≡ true

pub map_same :
    {A B : Type 0} (f g : A → B) (xs : List A)
    → ((x : A) → IsIn x xs → f x ≡ g x)
    → map f xs ≡ map g xs
map_same f g [] h = refl
map_same f g (x ∷ xs) h =
    rw (h x (λ p k. ground (arith, k)), map_same f g xs (λ y i. h y (λ p k. ground (arith, i p k))))
      refl

-- What holds of every row that a test finds, holds if it finds one.
pub any-true :
    {A : Type 0} (p : A → Bool) (b : Bool) (xs : List A)
    → ((x : A) → p x ≡ true → b ≡ true)
    → any p xs ≡ true
    → b ≡ true
any-true p b [] h k = absurd (ground (arith, k))
any-true p b (x ∷ xs) h k = elim (Bool-cases (p x)) [
  | inl e ↦ h x e
  | inr n ↦ any-true p b xs h (ground (arith, n, k))
]

pub any-impl :
    {A : Type 0} (p q : A → Bool) (xs : List A)
    → ((x : A) → p x ≡ true → q x ≡ true)
    → any p xs ≡ true
    → any q xs ≡ true
any-impl p q [] h k = k
any-impl p q (x ∷ xs) h k = elim (Bool-cases (p x)) [
  | inl e ↦ ground (arith, h x e)
  | inr n ↦ ground (arith, any-impl p q xs h (ground (arith, n, k)))
]

pub Bool_iff : (a b : Bool) → (a ≡ true → b ≡ true) → (b ≡ true → a ≡ true) → a ≡ b
Bool_iff a b f g = ground (arith, f, g)

pub any-impl_false :
    {A : Type 0} (p q : A → Bool) (xs : List A)
    → ((x : A) → p x ≡ true → q x ≡ true)
    → any q xs ≡ false
    → any p xs ≡ false
any-impl_false p q xs h k = elim (Bool-cases (any p xs)) [
  | inl e ↦ absurd (ground (arith, k, any-impl p q xs h e))
  | inr n ↦ n
]

pub any-never : {A : Type 0} (xs : List A) → any (λ (x : A). false) xs ≡ false
any-never [] = refl
any-never (x ∷ xs) = any-never xs

pub is_in-map-keep :
    {A : Type 0} (f : A → ℤ) (q : A → Bool) (z : ℤ) (xs : List A)
    → is_in z (map f (keep q xs)) ≡ any (λ x. q x && (f x ==ℤ z)) xs
is_in-map-keep f q z xs = any-map (same_number z) f (keep q xs) ∙ any-keep (λ x. f x ==ℤ z) q xs

pub numbers-IsDistinct :
    {A : Type 0} (f : A → ℤ) (xs : List A)
    → IsDistinct (λ x y. f y ==ℤ f x) xs
    → IsDistinct same_number (map f xs)
numbers-IsDistinct f [] d = tt
numbers-IsDistinct f (x ∷ xs) (new, d) =
    (any-map (same_number (f x)) f xs ∙ new, numbers-IsDistinct f xs d)

pub length-map : {A B : Type 0} (f : A → B) (xs : List A) → length (map f xs) ≡ length xs
length-map f [] = refl
length-map f (x ∷ xs) = ap suc (length-map f xs)
