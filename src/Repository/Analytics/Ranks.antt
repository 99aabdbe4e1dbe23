-- ===== src/Repository/Analytics/Ranks.antt =====
-- The ranks of `TopCreators`.
use secunda_test.Base.{
  ℕ, suc, ◌≤◌, ◌≡◌, refl, sym, ap, subst, ◌∙◌, Bool, true, false, List, [], ◌∷◌, ◌++◌, append-nil,
  map, ℤ, ◌==ℤ◌, ==ℤ_iff, All, keep, take, any, sort_by, IsSorted, keep-sort_by,
  sort_by_of_IsSorted, All-sort_by, All-take, firsts, same_number, is_in, is_in-firsts,
  firsts-IsDistinct, IsDistinct, Bool-cases, inl, inr, arith, any-map,
}
use secunda_test.Domain.{TopCreator}
use secunda_test.Repository.Analytics.Creators.{
  Group, better, numbered, number_from, window, windows, earlier_rank, on_podium, rank_groups,
}

keep-append :
    {A : Type 0} (p : A → Bool) (xs ys : List A) → keep p (xs ++ ys) ≡ keep p xs ++ keep p ys
keep-append p [] ys = refl
keep-append p (x ∷ xs) ys = elim (Bool-cases (p x)) [
  | inl e ↦ rw (e, keep-append p xs ys) refl
  | inr n ↦ rw (n, keep-append p xs ys) refl
]

keep-keep : {A : Type 0} (p q : A → Bool) (xs : List A) → keep p (keep q xs) ≡ keep q (keep p xs)
keep-keep p q [] = refl
keep-keep p q (x ∷ xs) = elim (Bool-cases (p x)) [
  | inl e ↦ elim (Bool-cases (q x)) [
    | inl d ↦ rw (e, d, e, keep-keep p q xs) refl
    | inr n ↦ rw (e, n, keep-keep p q xs) refl
  ]
  | inr m ↦ elim (Bool-cases (q x)) [
    | inl d ↦ rw (m, d, m, keep-keep p q xs) refl
    | inr n ↦ rw (m, n, keep-keep p q xs) refl
  ]
]

keep_nothing : {A : Type 0} (p : A → Bool) (xs : List A) → any p xs ≡ false → keep p xs ≡ []
keep_nothing p [] h = refl
keep_nothing p (x ∷ xs) h = ground (arith, h, keep_nothing p xs)

-- Rows of one team.
abbrev of : ℤ → Group → Bool
of id g = g.team_id ==ℤ id

abbrev row_of : ℤ → TopCreator → Bool
row_of id r = r.team_id ==ℤ id

keep-IsOf : (id : ℤ) (gs : List Group) → All (λ g. of id g ≡ true) (keep (of id) gs)
keep-IsOf id [] = tt
keep-IsOf id (g ∷ gs) = elim (Bool-cases (of id g)) [
  | inl e ↦ rw e (e, keep-IsOf id gs)
  | inr n ↦ rw n (keep-IsOf id gs)
]

module _ (id : ℤ) where
  keep-number_from_own :
      (n : ℕ) (gs : List Group)
      → All (λ g. of id g ≡ true) gs
      → keep (row_of id) (number_from n gs) ≡ number_from n gs
  unfolding number_from
  keep-number_from_own n [] h = refl
  keep-number_from_own n (g ∷ gs) (e, h) =
      rw e (ap (λ l. numbered n g ∷ l) (keep-number_from_own (suc n) gs h))

  keep-number_from_other :
      (j : ℤ)
      → (j ==ℤ id) ≡ false
      → (n : ℕ) (gs : List Group) → All (λ g. of j g ≡ true) gs
      → keep (row_of id) (number_from n gs) ≡ []
  unfolding number_from
  keep-number_from_other j d n [] h = refl
  keep-number_from_other j d n (g ∷ gs) (e, h) =
      let other : (g.team_id ==ℤ id) ≡ false = ground (arith, d, e) in
      rw other (keep-number_from_other j d (suc n) gs h)

  number_from-IsSorted :
      (n : ℕ) (gs : List Group)
      → All (λ g. of id g ≡ true) gs
      → IsSorted earlier_rank (number_from n gs)
  unfolding number_from
  number_from-IsSorted n [] h = tt
  number_from-IsSorted n (g ∷ gs) (e, h) =
      (later n (suc n) gs (omega arith) h, number_from-IsSorted (suc n) gs h)
    where
      later :
          (n k : ℕ) (gs : List Group)
          → n ≤ k
          → All (λ g. of id g ≡ true) gs
          → All (λ r. earlier_rank (numbered n g) r ≡ true) (number_from k gs)
      later n k [] l h = tt
      later n k (f ∷ gs) l (d, h) =
          (ground (arith, e, d, l), later n (suc k) gs (omega (arith, l)) h)

module _ (gs : List Group) where
  sorted_of : (id : ℤ) → All (λ g. of id g ≡ true) (sort_by better (keep (of id) gs))
  sorted_of id = All-sort_by (λ g. of id g ≡ true) better (keep (of id) gs) (keep-IsOf id gs)

  keep-windows_absent :
      (id : ℤ) (ids : List ℤ) → is_in id ids ≡ false → keep (row_of id) (windows gs ids) ≡ []
  keep-windows_absent id [] h = refl
  keep-windows_absent id (j ∷ ids) h =
      keep-append (row_of id) (window gs j) (windows gs ids) ∙ (λ i.
        keep-number_from_other id j (ground (arith, h)) 1 _ (sorted_of j) i
        ++ keep-windows_absent id ids (ground (arith, h)) i)

  keep-windows_here :
      (id : ℤ) (ids : List ℤ)
      → is_in id ids ≡ false
      → keep (row_of id) (windows gs (id ∷ ids)) ≡ window gs id
  keep-windows_here id ids new =
      keep-append (row_of id) (window gs id) (windows gs ids)
      ∙ (λ i. keep-number_from_own id 1 _ (sorted_of id) i ++ keep-windows_absent id ids new i)
      ∙ append-nil (window gs id)

  keep-windows :
      (id : ℤ) (ids : List ℤ)
      → IsDistinct same_number ids
      → is_in id ids ≡ true
      → keep (row_of id) (windows gs ids) ≡ window gs id
  keep-windows id [] d h = absurd (ground (arith, h))
  keep-windows id (j ∷ ids) (new, d) h = elim (Bool-cases (j ==ℤ id)) [
    | inl same ↦
        subst (λ k. is_in k ids ≡ false → keep (row_of id) (windows gs (k ∷ ids)) ≡ window gs id)
          (sym ((==ℤ_iff j id).0 same)) (keep-windows_here id ids) new
    | inr other ↦ keep-append (row_of id) (window gs j) (windows gs ids) ∙ (λ i.
        keep-number_from_other id j other 1 _ (sorted_of j) i
        ++ keep-windows id ids d (ground (arith, h, other)) i)
  ]

  window_absent :
      (id : ℤ) → is_in id (map (λ (g : Group). g.team_id) gs) ≡ false → window gs id ≡ []
  unfolding number_from sort_by
  window_absent id h =
      rw
        (keep_nothing (of id) gs (sym (any-map (same_number id) (λ (g : Group). g.team_id) gs) ∙ h))
        refl

  keep-windows_all :
      (id : ℤ)
      → keep (row_of id) (windows gs (firsts same_number (map (λ (g : Group). g.team_id) gs)))
        ≡ window gs id
  keep-windows_all id =
      let teams = map (λ (g : Group). g.team_id) gs in
      elim (Bool-cases (is_in id teams)) [
        | inl there ↦
            keep-windows id (firsts same_number teams) (firsts-IsDistinct teams)
              (is_in-firsts id teams ∙ there)
        | inr absent ↦
            keep-windows_absent id (firsts same_number teams) (is_in-firsts id teams ∙ absent)
            ∙ sym (window_absent id absent)
      ]

keep-number_from_late : (n : ℕ) (gs : List Group) → 4 ≤ n → keep on_podium (number_from n gs) ≡ []
unfolding number_from
keep-number_from_late n [] h = refl
keep-number_from_late n (g ∷ gs) h = ground (arith, h, keep-number_from_late (suc n) gs)

keep-number_from : (gs : List Group) → keep on_podium (number_from 1 gs) ≡ number_from 1 (take 3 gs)
unfolding number_from
keep-number_from [] = refl
keep-number_from (a ∷ []) = refl
keep-number_from (a ∷ b ∷ []) = refl
keep-number_from (a ∷ b ∷ d ∷ gs) =
    ap (λ l. numbered 1 a ∷ numbered 2 b ∷ numbered 3 d ∷ l)
      (keep-number_from_late 4 gs (omega arith))

-- The rows of the report for a team are the first three of its groups, fewer if it has fewer, from the most
-- tasks to the least and by the users' ids where they have as many; they stand in this order, with
-- the ranks 1, 2 and 3.
pub rank_groups-podium :
    (gs : List Group) (id : ℤ)
    → keep (λ r. r.team_id ==ℤ id) (rank_groups gs)
      ≡ number_from 1 (take 3 (sort_by better (keep (λ g. g.team_id ==ℤ id) gs)))
unfolding rank_groups
rank_groups-podium gs id =
    let all = windows gs (firsts same_number (map (λ (g : Group). g.team_id) gs)) in
    let own = sort_by better (keep (of id) gs) in
    keep-sort_by earlier_rank (λ a b h. ground arith) (λ a b c h k. ground arith) (row_of id)
      (keep on_podium all)
    ∙ ap (sort_by earlier_rank) (
        keep-keep (row_of id) on_podium all
        ∙ ap (keep on_podium) (keep-windows_all gs id)
        ∙ keep-number_from own)
    ∙ sort_by_of_IsSorted earlier_rank (λ a b h. ground arith) (λ a b c h k. ground arith)
        (number_from 1 (take 3 own))
        (number_from-IsSorted id 1 (take 3 own)
          (All-take (λ g. of id g ≡ true) 3 own (sorted_of gs id)))
