-- ===== src/Base/Distinct.antt =====
-- Distinct values and rows.
use mathlib.Core.Path.{◌≡◌, refl, sym, ◌∙◌, ap, subst}
use mathlib.Core.Logic.{inl, inr}
use mathlib.Core.Bool.{Bool, true, false, not, ◌||◌, ◌&&◌}
use mathlib.Core.Option.{Option, some}
use mathlib.Core.List.{List, [], ◌∷◌, ◌++◌, map}
use Prim.Native.Nat.{ℕ, suc, ◌≤◌}
use native.Mathlib.Omega.{arith}
use secunda_test.Base.Tests.{Bool-cases, if◌then◌else◌}
use secunda_test.Base.Lists.{any, keep, length}
use secunda_test.Base.Joins.{any-keep, any_same, padded, left_join}
use secunda_test.Base.Int.{ℤ, ◌==ℤ◌, ==ℤ_iff}

-- No two rows clash.
abbrev pub IsDistinct : {A : Type 0} → (A → A → Bool) → List A → Type 0
IsDistinct clash [] = Unit
IsDistinct clash (x ∷ xs) = (any (clash x) xs ≡ false) × IsDistinct clash xs

-- The first row of every group.
unfoldable pub firsts : {A : Type 0} → (A → A → Bool) → List A → List A
firsts same [] = []
firsts same (x ∷ xs) = x ∷ keep (λ y. not (same x y)) (firsts same xs)

-- Rows repeated in place.
pub data Stutters {A : Type 0} : List A → List A → Type 0 where
  done : Stutters [] []
  first : (x : A) {xs ys : List A} → Stutters xs ys → Stutters (x ∷ xs) (x ∷ ys)
  again : (x : A) {xs ys : List A} → Stutters (x ∷ xs) ys → Stutters (x ∷ xs) (x ∷ ys)

pub Stutters-trans :
    {A : Type 0} {xs ys zs : List A} → Stutters xs ys → Stutters ys zs → Stutters xs zs
Stutters-trans done done = done
Stutters-trans (first x s) (first y t) = first x (Stutters-trans s t)
Stutters-trans (again x s) (first y t) = again x (Stutters-trans s t)
Stutters-trans (first x s) (again y t) = again x (Stutters-trans (first x s) t)
Stutters-trans (again x s) (again y t) = again x (Stutters-trans (again x s) t)

pub Stutters-map :
    {A B : Type 0} (f : A → B) {xs ys : List A} → Stutters xs ys → Stutters (map f xs) (map f ys)
Stutters-map f done = done
Stutters-map f (first x s) = first (f x) (Stutters-map f s)
Stutters-map f (again x s) = again (f x) (Stutters-map f s)

pub Stutters-refl : {A : Type 0} (xs : List A) → Stutters xs xs
Stutters-refl [] = done
Stutters-refl (x ∷ xs) = first x (Stutters-refl xs)

module _ {A B : Type 0} where
  abbrev lefts : List (A × Option B) → List A
  lefts = map (λ r. r.0)

  repeated-Stutters :
      (a : A) (b : B) (bs : List B) (xs : List A) (rest : List (A × Option B))
      → Stutters xs (lefts rest)
      → Stutters (a ∷ xs) (lefts (map (λ x. (a, some x)) (b ∷ bs) ++ rest))
  repeated-Stutters a b [] xs rest s = first a s
  repeated-Stutters a b (b' ∷ bs) xs rest s = again a (repeated-Stutters a b' bs xs rest s)

  padded-Stutters :
      (a : A) (bs : List B) (xs : List A) (rest : List (A × Option B))
      → Stutters xs (lefts rest)
      → Stutters (a ∷ xs) (lefts (padded a bs ++ rest))
  padded-Stutters a [] xs rest s = first a s
  padded-Stutters a (b ∷ bs) xs rest s = repeated-Stutters a b bs xs rest s

  -- A LEFT JOIN keeps the rows on its left, in their order.
  pub left_join-Stutters :
      (on : A → B → Bool) (rows : List A) (bs : List B)
      → Stutters rows (map (λ r. r.0) (left_join on rows bs))
  unfolding left_join
  left_join-Stutters on [] bs = done
  left_join-Stutters on (a ∷ rows) bs =
      padded-Stutters a (keep (on a) bs) rows (left_join on rows bs) (left_join-Stutters on rows bs)

map-map :
    {A B C : Type 0} (g : B → C) (f : A → B) (xs : List A)
    → map g (map f xs) ≡ map (λ x. g (f x)) xs
map-map g f [] = refl
map-map g f (x ∷ xs) = ap (λ l. g (f x) ∷ l) (map-map g f xs)

pub left_join-Stutters_by :
    {A B C : Type 0} (f : A → C) (on : A → B → Bool) (rows : List A) (bs : List B) {xs : List C}
    → Stutters xs (map f rows)
    → Stutters xs (map (λ (r : A × Option B). f r.0) (left_join on rows bs))
left_join-Stutters_by {A = A} {B = B} f on rows bs {xs = xs} s =
    subst (λ l. Stutters xs l) (map-map f (λ (r : A × Option B). r.0) (left_join on rows bs))
      (Stutters-trans s (Stutters-map f (left_join-Stutters on rows bs)))

module _ {A : Type 0} (same : A → A → Bool) where
  keep_fresh : (x : A) (xs : List A) → any (same x) xs ≡ false → keep (λ y. not (same x y)) xs ≡ xs
  keep_fresh x [] h = refl
  keep_fresh x (y ∷ ys) h = ground (arith, h, keep_fresh x ys)

  module _ (reflexive : (x : A) → same x x ≡ true) where
    pub firsts-Stutters :
        {xs ys : List A} → Stutters xs ys → IsDistinct same xs → firsts same ys ≡ xs
    unfolding firsts
    firsts-Stutters done d = refl
    firsts-Stutters (first x {xs = xs} s) (new, d) =
        rw (firsts-Stutters s d) (ap (λ l. x ∷ l) (keep_fresh x xs new))
    firsts-Stutters (again x {xs = xs} s) (new, d) =
        rw (firsts-Stutters s (new, d), reflexive x) (ap (λ l. x ∷ l) (keep_fresh x xs new))

abbrev pub same_number : ℤ → ℤ → Bool
same_number x y = y ==ℤ x

-- COUNT(DISTINCT …)
unfoldable pub count_distinct : List ℤ → ℕ
unfolding firsts
count_distinct xs = length (firsts same_number xs)

-- Values are compared with the library's test.
module _ (x : ℤ) where
  abbrev pub is_in : List ℤ → Bool
  is_in xs = any (same_number x) xs

same_number_apart : (x y z : ℤ) → (x ==ℤ z) ≡ false → (not (y ==ℤ x) && (y ==ℤ z)) ≡ (y ==ℤ z)
same_number_apart x y z n = ground (arith, n)

-- `firsts` keeps the values and each once.
pub is_in-firsts : (z : ℤ) (xs : List ℤ) → is_in z (firsts same_number xs) ≡ is_in z xs
unfolding firsts
is_in-firsts z [] = refl
is_in-firsts z (x ∷ xs) = elim (Bool-cases (x ==ℤ z)) [
  | inl e ↦ rw e refl
  | inr n ↦
      ap (λ b. (x ==ℤ z) || b)
        (any-keep (same_number z) (λ y. not (y ==ℤ x)) (firsts same_number xs)
          ∙ any_same _ _ (λ y. same_number_apart x y z n) (firsts same_number xs)
          ∙ is_in-firsts z xs)
]

module _ {A : Type 0} (clash : A → A → Bool) (p : A → Bool) where
  any-keep_absent : (q : A → Bool) (xs : List A) → any q xs ≡ false → any q (keep p xs) ≡ false
  any-keep_absent q [] h = refl
  any-keep_absent q (x ∷ xs) h = ground (arith, h, any-keep_absent q xs)

  pub keep-IsDistinct : (xs : List A) → IsDistinct clash xs → IsDistinct clash (keep p xs)
  keep-IsDistinct [] d = tt
  keep-IsDistinct (x ∷ xs) (new, d) = elim (Bool-cases (p x)) [
    | inl e ↦ rw e (any-keep_absent (clash x) xs new, keep-IsDistinct xs d)
    | inr n ↦ rw n (keep-IsDistinct xs d)
  ]

any-keep_others : (x : ℤ) (xs : List ℤ) → any (same_number x) (keep (λ y. not (y ==ℤ x)) xs) ≡ false
any-keep_others x [] = refl
any-keep_others x (y ∷ ys) = ground (arith, any-keep_others x ys)

pub firsts-IsDistinct : (xs : List ℤ) → IsDistinct same_number (firsts same_number xs)
unfolding firsts
firsts-IsDistinct [] = tt
firsts-IsDistinct (x ∷ xs) = (
  any-keep_others x (firsts same_number xs),
  keep-IsDistinct same_number (λ y. not (y ==ℤ x)) (firsts same_number xs) (firsts-IsDistinct xs),
)

abbrev without : ℤ → List ℤ → List ℤ
without x [] = []
without x (y ∷ ys) = if y ==ℤ x then ys else y ∷ without x ys

length-without : (x : ℤ) (ys : List ℤ) → is_in x ys ≡ true → length ys ≡ suc (length (without x ys))
length-without x [] h = absurd (ground (arith, h))
length-without x (y ∷ ys) h = ground (arith, h, length-without x ys)

is_in-without :
    (x z : ℤ) (ys : List ℤ) → (z ==ℤ x) ≡ false → is_in z ys ≡ true → is_in z (without x ys) ≡ true
is_in-without x z [] n h = h
is_in-without x z (y ∷ ys) n h = ground (arith, n, h, is_in-without x z ys n)

elsewhere : (x z : ℤ) (xs : List ℤ) → is_in x xs ≡ false → is_in z xs ≡ true → (z ==ℤ x) ≡ false
elsewhere x z xs new old = elim (Bool-cases (z ==ℤ x)) [
  | inl e ↦
      let found : is_in x xs ≡ true = subst (λ i. is_in i xs ≡ true) ((==ℤ_iff z x).0 e) old in
      absurd (ground (arith, new, found))
  | inr n ↦ n
]

-- Distinct values that all occur in another list are no more than it has.
length-IsDistinct :
    (xs ys : List ℤ)
    → IsDistinct same_number xs
    → ((z : ℤ) → is_in z xs ≡ true → is_in z ys ≡ true)
    → length xs ≤ length ys
length-IsDistinct [] ys d h = omega arith
length-IsDistinct (x ∷ xs) ys (new, d) h =
    let here = h x (ground arith) in
    omega (
      arith,
      length-without x ys here,
      length-IsDistinct xs (without x ys) d
          (λ z k. is_in-without x z ys (elsewhere x z xs new k) (h z (ground (arith, k)))),
    )

-- Distinct lists of the same values are equally long.
pub count_distinct-length :
    (xs ys : List ℤ)
    → IsDistinct same_number ys
    → ((z : ℤ) → is_in z xs ≡ is_in z ys)
    → count_distinct xs ≡ length ys
unfolding count_distinct
count_distinct-length xs ys d h =
    let same : (z : ℤ) → is_in z (firsts same_number xs) ≡ is_in z ys =
      λ z. is_in-firsts z xs ∙ h z in
    omega (
      arith,
      length-IsDistinct (firsts same_number xs) ys (firsts-IsDistinct xs) (λ z k. sym (same z) ∙ k),
      length-IsDistinct ys (firsts same_number xs) d (λ z k. same z ∙ k),
    )
