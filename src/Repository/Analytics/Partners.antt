-- ===== src/Repository/Analytics/Partners.antt =====
-- Rows that a join gives exactly one partner.
use secunda_test.Base.{
  not, All-keep, ==ℤ_iff, subst, suc, ◌≡◌, refl, sym, ap, ◌∙◌, Bool, true, false, ◌&&◌, ◌||◌, List,
  [], ◌∷◌, map, ℤ, ◌==ℤ◌, All, All-append, All-impl, any, keep, length, inner_join, firsts, IsIn,
  any-keep, any_same, keep-IsDistinct, IsDistinct, Bool-cases, inl, inr, arith,
}
use secunda_test.Text.{Text}
use secunda_test.Database.{Collation}

-- A row that has exactly one partner.
abbrev HasOne : {A B : Type 0} → (A → B → Bool) → List B → A → Type 0
HasOne {B = B} on bs a = (b : B) × (keep (on a) bs ≡ b ∷ [])

-- A number that occurs once names one row.
module _ {B : Type 0} (id : B → ℤ) where
  keep_no_other :
      (i : ℤ) (bs : List B) → any (λ b. id b ==ℤ i) bs ≡ false → keep (λ b. id b ==ℤ i) bs ≡ []
  keep_no_other i [] h = refl
  keep_no_other i (b ∷ bs) h = ground (arith, h, keep_no_other i bs)

  pub one_by_number :
      (i : ℤ) (bs : List B)
      → IsDistinct (λ x y. id y ==ℤ id x) bs
      → any (λ b. id b ==ℤ i) bs ≡ true
      → (b : B) × (keep (λ b. id b ==ℤ i) bs ≡ b ∷ [])
  one_by_number i [] d h = absurd (ground (arith, h))
  one_by_number i (b ∷ bs) (new, d) h = elim (Bool-cases (id b ==ℤ i)) [
    | inr other ↦ rw other (one_by_number i bs d (ground (arith, h, other)))
    | inl same ↦
        let clear : any (λ x. id x ==ℤ i) bs ≡ false =
          subst (λ j. any (λ x. id x ==ℤ j) bs ≡ false) ((==ℤ_iff (id b) i).0 same) new in
        rw same (b, ap (λ l. b ∷ l) (keep_no_other i bs clear))
  ]

-- Joined with exactly one partner each, rows are counted as before.
module _ {A B : Type 0} (on : A → B → Bool) (bs : List B) (p : A × B → Bool) (q : A → Bool) where
  pub length-keep-inner_join :
      (rows : List A)
      → All (λ a. (b : B) × (keep (on a) bs ≡ b ∷ []) × (p (a, b) ≡ q a)) rows
      → length (keep p (inner_join on rows bs)) ≡ length (keep q rows)
  unfolding inner_join
  length-keep-inner_join [] h = refl
  length-keep-inner_join (a ∷ rows) ((b, one, same), h) = elim (Bool-cases (q a)) [
    | inl e ↦ rw (one, same, e) (ap suc (length-keep-inner_join rows h))
    | inr n ↦ rw (one, same, n) (length-keep-inner_join rows h)
  ]

  pub any-inner_join :
      (rows : List A)
      → All (λ a. (b : B) × (keep (on a) bs ≡ b ∷ []) × (p (a, b) ≡ q a)) rows
      → any p (inner_join on rows bs) ≡ any q rows
  unfolding inner_join
  any-inner_join [] h = refl
  any-inner_join (a ∷ rows) ((b, one, same), h) =
      rw (one, same) (ap (λ x. q a || x) (any-inner_join rows h))

-- What every joined row has.
keep-facts :
    {B : Type 0} (p : B → Bool) (bs : List B) → All (λ b. (p b ≡ true) × IsIn b bs) (keep p bs)
keep-facts p [] = tt
keep-facts p (b ∷ bs) =
    let later : All (λ x. (p x ≡ true) × IsIn x (b ∷ bs)) (keep p bs) =
      All-impl (λ x h. (h.0, λ r k. ground (arith, h.1 r k))) (keep p bs) (keep-facts p bs) in
    elim (Bool-cases (p b)) [
      | inl e ↦ rw e ((e, λ r k. ground (arith, k)), later)
      | inr n ↦ rw n later
    ]

pub All-map :
    {A B : Type 0} (P : B → Type 0) (f : A → B) (xs : List A)
    → All (λ x. P (f x)) xs
    → All P (map f xs)
All-map P f [] h = tt
All-map P f (x ∷ xs) (p, h) = (p, All-map P f xs h)

module _ {A B : Type 0} (on : A → B → Bool) (bs : List B) (P : A → Type 0) (Q : A × B → Type 0)
    (joined : (a : A) (b : B) → P a → on a b ≡ true → IsIn b bs → Q (a, b)) where
  pub All-inner_join : (rows : List A) → All P rows → All Q (inner_join on rows bs)
  unfolding inner_join
  All-inner_join [] h = tt
  All-inner_join (a ∷ rows) (p, h) =
      All-append Q (map (λ b. (a, b)) (keep (on a) bs)) (inner_join on rows bs)
        (All-map Q (λ b. (a, b)) (keep (on a) bs)
          (All-impl (λ b k. joined a b p k.0 k.1) (keep (on a) bs) (keep-facts (on a) bs)))
        (All-inner_join rows h)

pub All-unit : {A : Type 0} (xs : List A) → All (λ x. Unit {0}) xs
All-unit [] = tt
All-unit (x ∷ xs) = (tt, All-unit xs)

pub All-firsts :
    {A : Type 0} (P : A → Type 0) (same : A → A → Bool) (xs : List A)
    → All P xs
    → All P (firsts same xs)
unfolding firsts
All-firsts P same [] h = tt
All-firsts P same (x ∷ xs) (p, h) =
    (p, All-keep P (λ y. not (same x y)) (firsts same xs) (All-firsts P same xs h))

pub keep-keep_and :
    {A : Type 0} (p q : A → Bool) (xs : List A) → keep p (keep q xs) ≡ keep (λ x. q x && p x) xs
keep-keep_and p q [] = refl
keep-keep_and p q (x ∷ xs) = elim (Bool-cases (q x)) [
  | inr n ↦ rw n (keep-keep_and p q xs)
  | inl e ↦ elim (Bool-cases (p x)) [
    | inl d ↦ rw (e, d, keep-keep_and p q xs) refl
    | inr m ↦ rw (e, m, keep-keep_and p q xs) refl
  ]
]

-- A row that was found by a number has the text of the one row with that number.
pub same_text :
    {B : Type 0} (c : Collation) (name : B → Text) (p : B → Bool) (b b0 : B) (bs : List B)
    → keep p bs ≡ b ∷ []
    → p b0 ≡ true
    → IsIn b0 bs
    → c.same (name b0) (name b) ≡ true
same_text c name p b b0 bs one found there =
    let seen : any (λ x. c.same (name b0) (name x)) (keep p bs) ≡ true =
      any-keep (λ x. c.same (name b0) (name x)) p bs
      ∙ there (λ x. p x && c.same (name b0) (name x))
          (ground (arith, found, c.same_refl (name b0))) in
    ground (arith, sym (ap (any (λ x. c.same (name b0) (name x))) one) ∙ seen)

module _ {A : Type 0} (same : A → A → Bool) where
  any_apart : (x : A) (xs : List A) → any (same x) (keep (λ y. not (same x y)) xs) ≡ false
  any_apart x [] = refl
  any_apart x (y ∷ ys) = ground (arith, any_apart x ys)

  -- The first rows of the groups are of different groups, and a test that a group passes as a whole finds
  -- among them what it finds among all rows.
  pub firsts-IsDistinct_by : (xs : List A) → IsDistinct same (firsts same xs)
  unfolding firsts
  firsts-IsDistinct_by [] = tt
  firsts-IsDistinct_by (x ∷ xs) = (
    any_apart x (firsts same xs),
    keep-IsDistinct same (λ y. not (same x y)) (firsts same xs) (firsts-IsDistinct_by xs),
  )

  pub any-firsts :
      (p : A → Bool)
      → ((x y : A) → same x y ≡ true → p x ≡ p y)
      → (xs : List A) → any p (firsts same xs) ≡ any p xs
  unfolding firsts
  any-firsts p group [] = refl
  any-firsts p group (x ∷ xs) = elim (Bool-cases (p x)) [
    | inl e ↦ rw e refl
    | inr n ↦ rw n (
        any-keep p (λ y. not (same x y)) (firsts same xs)
        ∙ any_same _ p (λ y. ground (arith, n, group x y)) (firsts same xs)
        ∙ any-firsts p group xs)
  ]

-- Other rows that do not clash.
pub IsDistinct-map :
    {A B : Type 0} (f : A → B) (same : A → A → Bool) (clash : B → B → Bool) (P : A → Type 0)
    → ((x y : A) → P x → P y → clash (f x) (f y) ≡ true → same x y ≡ true)
    → (xs : List A) → All P xs
    → IsDistinct same xs
    → IsDistinct clash (map f xs)
IsDistinct-map f same clash P h [] ps d = tt
IsDistinct-map {A = A} f same clash P h (x ∷ xs) (p, ps) (new, d) =
    (none_clashes xs ps new, IsDistinct-map f same clash P h xs ps d)
  where
    none_clashes :
        (ys : List A) → All P ys → any (same x) ys ≡ false → any (clash (f x)) (map f ys) ≡ false
    none_clashes [] qs e = refl
    none_clashes (y ∷ ys) (q, qs) e = ground (arith, e, h x y p q, none_clashes ys qs)
