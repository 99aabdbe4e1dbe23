-- ===== src/Base/Sorting.antt =====
-- What `sort_by` gives: the same rows, in order.
use Prim.Native.Nat.{ℕ, zero, suc}
use mathlib.Core.Path.{◌≡◌, refl, sym, ◌∙◌, ap}
use mathlib.Core.Logic.{inl, inr}
use mathlib.Core.Bool.{Bool, true, false, ◌||◌}
use mathlib.Core.List.{List, [], ◌∷◌}
use native.Mathlib.Omega.{arith}
use secunda_test.Base.Tests.{Bool-cases}
use secunda_test.Base.Lists.{All, any, keep, take, insert_by, sort_by}

-- A predicate of every row, behind a choice, an order and a cut.
module _ {ℓ} {A : Type ℓ} (P : A → Type 0) where
  pub All-keep : (p : A → Bool) (xs : List A) → All P xs → All P (keep p xs)
  All-keep p [] h = tt
  All-keep p (x ∷ xs) (q, h) = elim (Bool-cases (p x)) [
    | inl e ↦ rw e (q, All-keep p xs h)
    | inr n ↦ rw n (All-keep p xs h)
  ]

  All-insert_by_keep :
      (before : A → A → Bool) (x : A) (ys : List A) → P x → All P ys → All P (insert_by before x ys)
  unfolding insert_by
  All-insert_by_keep before x [] q h = (q, h)
  All-insert_by_keep before x (y ∷ ys) q (r, h) = elim (Bool-cases (before x y)) [
    | inl less ↦ rw less (q, (r, h))
    | inr more ↦ rw more (r, All-insert_by_keep before x ys q h)
  ]

  pub All-sort_by : (before : A → A → Bool) (xs : List A) → All P xs → All P (sort_by before xs)
  unfolding sort_by
  All-sort_by before [] h = tt
  All-sort_by before (x ∷ xs) (q, h) =
      All-insert_by_keep before x (sort_by before xs) q (All-sort_by before xs h)

  pub All-take : (n : ℕ) (xs : List A) → All P xs → All P (take n xs)
  All-take zero xs h = tt
  All-take (suc n) [] h = tt
  All-take (suc n) (x ∷ xs) (q, h) = (q, All-take n xs h)

module _ {ℓ} {A : Type ℓ} (before : A → A → Bool) where
  any-insert_by :
      (p : A → Bool) (x : A) (ys : List A) → any p (insert_by before x ys) ≡ (p x || any p ys)
  unfolding insert_by
  any-insert_by p x [] = refl
  any-insert_by p x (y ∷ ys) = ground (arith, any-insert_by p x ys)

  pub any-sort_by : (p : A → Bool) (xs : List A) → any p (sort_by before xs) ≡ any p xs
  unfolding sort_by
  any-sort_by p [] = refl
  any-sort_by p (x ∷ xs) =
      any-insert_by p x (sort_by before xs) ∙ ap (λ b. p x || b) (any-sort_by p xs)

  -- Each row may stand before every later one.
  abbrev pub IsSorted : List A → Type ℓ
  IsSorted [] = Unit
  IsSorted (x ∷ xs) = All (λ y. before x y ≡ true) xs × IsSorted xs

  module _ (total : (a b : A) → before a b ≡ false → before b a ≡ true)
      (trans : (a b c : A) → before a b ≡ true → before b c ≡ true → before a c ≡ true) where
    All-insert_by :
        (z x : A) (ys : List A)
        → before z x ≡ true
        → All (λ y. before z y ≡ true) ys
        → All (λ y. before z y ≡ true) (insert_by before x ys)
    unfolding insert_by
    All-insert_by z x [] h k = (h, k)
    All-insert_by z x (y ∷ ys) h (p, k) = elim (Bool-cases (before x y)) [
      | inl less ↦ rw less (h, (p, k))
      | inr more ↦ rw more (p, All-insert_by z x ys h k)
    ]

    All-trans :
        (x y : A) (ys : List A)
        → before x y ≡ true
        → All (λ z. before y z ≡ true) ys
        → All (λ z. before x z ≡ true) ys
    All-trans x y [] h k = tt
    All-trans x y (z ∷ zs) h (p, k) = (trans x y z h p, All-trans x y zs h k)

    insert_by-IsSorted : (x : A) (ys : List A) → IsSorted ys → IsSorted (insert_by before x ys)
    unfolding insert_by
    insert_by-IsSorted x [] s = (tt, tt)
    insert_by-IsSorted x (y ∷ ys) (first, s) = elim (Bool-cases (before x y)) [
      | inl less ↦ rw less ((less, All-trans x y ys less first), (first, s))
      | inr more ↦ rw more (All-insert_by y x ys (total x y more) first, insert_by-IsSorted x ys s)
    ]

    pub sort_by-IsSorted : (xs : List A) → IsSorted (sort_by before xs)
    unfolding sort_by
    sort_by-IsSorted [] = tt
    sort_by-IsSorted (x ∷ xs) = insert_by-IsSorted x (sort_by before xs) (sort_by-IsSorted xs)

    -- A row that may stand before all others goes to the front.
    insert_by-front :
        (x : A) (ys : List A) → All (λ y. before x y ≡ true) ys → insert_by before x ys ≡ x ∷ ys
    unfolding insert_by
    insert_by-front x [] h = refl
    insert_by-front x (y ∷ ys) (p, h) = rw p refl

    pub sort_by_of_IsSorted : (xs : List A) → IsSorted xs → sort_by before xs ≡ xs
    unfolding sort_by
    sort_by_of_IsSorted [] s = refl
    sort_by_of_IsSorted (x ∷ xs) (h, s) = rw (sort_by_of_IsSorted xs s) (insert_by-front x xs h)

    module _ (p : A → Bool) where
      keep-insert_by_chosen :
          (x : A) (ys : List A)
          → p x ≡ true
          → IsSorted ys
          → keep p (insert_by before x ys) ≡ insert_by before x (keep p ys)
      unfolding insert_by
      keep-insert_by_chosen x [] e s = rw e refl
      keep-insert_by_chosen x (y ∷ ys) e (h, s) = elim (Bool-cases (before x y)) [
        | inl less ↦
            rw (less, e)
              (sym (
                insert_by-front x (keep p (y ∷ ys))
                  (All-keep (λ z. before x z ≡ true) p (y ∷ ys) (less, All-trans x y ys less h))))
        | inr more ↦ elim (Bool-cases (p y)) [
          | inl kept ↦ rw (more, kept, more, keep-insert_by_chosen x ys e s) refl
          | inr gone ↦ rw (more, gone) (keep-insert_by_chosen x ys e s)
        ]
      ]

      keep-insert_by_dropped :
          (x : A) (ys : List A) → p x ≡ false → keep p (insert_by before x ys) ≡ keep p ys
      unfolding insert_by
      keep-insert_by_dropped x [] e = rw e refl
      keep-insert_by_dropped x (y ∷ ys) e = elim (Bool-cases (before x y)) [
        | inl less ↦ rw (less, e) refl
        | inr more ↦ rw (more, keep-insert_by_dropped x ys e) refl
      ]

      -- Rows may be chosen before they are put in order.
      pub keep-sort_by : (xs : List A) → keep p (sort_by before xs) ≡ sort_by before (keep p xs)
      unfolding sort_by
      keep-sort_by [] = refl
      keep-sort_by (x ∷ xs) = elim (Bool-cases (p x)) [
        | inl e ↦
            keep-insert_by_chosen x (sort_by before xs) e (sort_by-IsSorted xs)
            ∙ rw (e, keep-sort_by xs) refl
        | inr n ↦ keep-insert_by_dropped x (sort_by before xs) n ∙ rw n (keep-sort_by xs)
      ]
