-- ===== src/Tests/Orders.antt =====
-- An order of teams, as a server may have it.
use secunda_test.Base.{
  Bool, List, [], ◌∷◌, ◌≡◌, refl, ◌∙◌, leb_ℤ, keep, length, insert_by, sort_by, arith,
  sort_by-IsSorted, IsSorted,
}
use secunda_test.Domain.{Team}
use secunda_test.Repository.Teams.{IsNewestFirst, HasSameRows, TeamOrder}

abbrev pub newer_team : Team → Team → Bool
newer_team a b = leb_ℤ b.created_at a.created_at

length-insert_by :
    (p : Team → Bool) (t : Team) (ts : List Team)
    → length (keep p (insert_by newer_team t ts)) ≡ length (keep p (t ∷ ts))
unfolding insert_by
length-insert_by p t [] = refl
length-insert_by p t (u ∷ ts) = ground (arith, length-insert_by p t ts)

pub length-sort_by : (ts : List Team) → HasSameRows (sort_by newer_team ts) ts
unfolding sort_by
length-sort_by [] p = refl
length-sort_by (t ∷ ts) p =
    length-insert_by p t (sort_by newer_team ts) ∙ ground (arith, length-sort_by ts p)

pub sorted-IsNewestFirst : (ts : List Team) → IsSorted newer_team ts → IsNewestFirst ts
sorted-IsNewestFirst [] h = tt
sorted-IsNewestFirst (t ∷ ts) (h, s) = (h, sorted-IsNewestFirst ts s)

abbrev pub newest : TeamOrder
newest = record {
  arrange = sort_by newer_team;
  same_rows = length-sort_by;
  newest_first = λ ts.
      sorted-IsNewestFirst (sort_by newer_team ts)
        (sort_by-IsSorted newer_team (λ a b h. ground arith) (λ a b c h k. ground arith) ts);
}
