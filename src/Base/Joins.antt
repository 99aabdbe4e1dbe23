-- ===== src/Base/Joins.antt =====
-- LEFT JOIN, and what is found in its rows.
use mathlib.Core.Path.{◌≡◌, refl, ◌∙◌, ap}
use mathlib.Core.Bool.{Bool, true, false, ◌||◌, ◌&&◌}
use mathlib.Core.Option.{Option, none, some}
use mathlib.Core.List.{List, [], ◌∷◌, ◌++◌, map}
use native.Mathlib.Omega.{arith}
use secunda_test.Base.Lists.{any, keep}

module _ {A B : Type 0} where
  -- A row without a partner stands with NULLs.
  abbrev pub padded : A → List B → List (A × Option B)
  padded a [] = (a, none) ∷ []
  padded a (b ∷ bs) = map (λ x. (a, some x)) (b ∷ bs)

  unfoldable pub left_join : (A → B → Bool) → List A → List B → List (A × Option B)
  left_join on [] bs = []
  left_join on (a ∷ rows) bs = padded a (keep (on a) bs) ++ left_join on rows bs

-- JOIN … ON
unfoldable pub inner_join : {A B : Type 0} → (A → B → Bool) → List A → List B → List (A × B)
inner_join on [] bs = []
inner_join on (a ∷ rows) bs = map (λ b. (a, b)) (keep (on a) bs) ++ inner_join on rows bs

pub any-append :
    {A : Type 0} (p : A → Bool) (xs ys : List A) → any p (xs ++ ys) ≡ (any p xs || any p ys)
any-append p [] ys = refl
any-append p (x ∷ xs) ys = ground (arith, any-append p xs ys)

pub any-map :
    {A B : Type 0} (p : B → Bool) (f : A → B) (xs : List A)
    → any p (map f xs) ≡ any (λ x. p (f x)) xs
any-map p f [] = refl
any-map p f (x ∷ xs) = ap (λ b. p (f x) || b) (any-map p f xs)

pub any-keep :
    {A : Type 0} (p q : A → Bool) (xs : List A) → any p (keep q xs) ≡ any (λ x. q x && p x) xs
any-keep p q [] = refl
any-keep p q (x ∷ xs) = ground (arith, any-keep p q xs)

pub any_same :
    {A : Type 0} (p q : A → Bool) → ((x : A) → p x ≡ q x) → (xs : List A) → any p xs ≡ any q xs
any_same p q h [] = refl
any_same p q h (x ∷ xs) = rw (h x, any_same p q h xs)

module _ {A B : Type 0} (p : A × Option B → Bool) where
  -- A test that NULLs fail finds a row with its partners.
  any-padded_right :
      (a : A) (bs : List B)
      → p (a, none) ≡ false
      → any p (padded a bs) ≡ any (λ b. p (a, some b)) bs
  any-padded_right a [] h = ground (arith, h)
  any-padded_right a (b ∷ bs) h = any-map p (λ x. (a, some x)) (b ∷ bs)

  pub any-left_join_right :
      (on : A → B → Bool)
      → ((a : A) → p (a, none) ≡ false)
      → (rows : List A) (bs : List B)
      → any p (left_join on rows bs) ≡ any (λ a. any (λ b. on a b && p (a, some b)) bs) rows
  unfolding left_join
  any-left_join_right on h [] bs = refl
  any-left_join_right on h (a ∷ rows) bs =
      any-append p (padded a (keep (on a) bs)) (left_join on rows bs)
      ∙ (λ i. any-padded_right a (keep (on a) bs) (h a) i || any-left_join_right on h rows bs i)
      ∙ ap (λ x. x || any (λ c. any (λ b. on c b && p (c, some b)) bs) rows)
          (any-keep (λ b. p (a, some b)) (on a) bs)

module _ {A B : Type 0} (p : A → Bool) where
  any-pair :
      (a : A) (bs : List B)
      → any (λ (r : A × Option B). p r.0) (map (λ b. (a, some b)) bs) ≡ (p a && any (λ b. true) bs)
  any-pair a [] = ground arith
  any-pair a (b ∷ bs) = ground (arith, any-pair a bs)

  any-padded_left : (a : A) (bs : List B) → any (λ (r : A × Option B). p r.0) (padded a bs) ≡ p a
  any-padded_left a [] = ground arith
  any-padded_left a (b ∷ bs) = ground (arith, any-pair a bs)

  -- Every row is there at least once.
  pub any-left_join_left :
      (on : A → B → Bool) (rows : List A) (bs : List B)
      → any (λ (r : A × Option B). p r.0) (left_join on rows bs) ≡ any p rows
  unfolding left_join
  any-left_join_left on [] bs = refl
  any-left_join_left on (a ∷ rows) bs =
      any-append (λ (r : A × Option B). p r.0) (padded a (keep (on a) bs)) (left_join on rows bs)
      ∙ (λ i. any-padded_left a (keep (on a) bs) i || any-left_join_left on rows bs i)
