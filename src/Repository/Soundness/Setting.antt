-- ===== src/Repository/Soundness/Setting.antt =====
-- New columns of a task keep the tables sound.
use secunda_test.Base.{
  IsDistinct, ℕ, ◌≡◌, refl, true, List, [], ◌∷◌, map, ℤ, All, any, ◌==ℤ◌, arith,
}
use secunda_test.Domain.{Task, status_valid}
use secunda_test.Database.{Collation, Rows, Counters}
use secunda_test.Repository.Tasks.{references, set_row, set_columns}
use secunda_test.Repository.Changes.{task_ok, AtMost-refl}
use secunda_test.Repository.Soundness.{given, HasReferences}
use secunda_test.Repository.Soundness.Growing.{Extends, HasReferences-more}
use secunda_test.Repository.Soundness.Adding.{IsSafe}

module _ (t : Task) (now : ℤ) where
  set_row-id : (x : Task) → (set_row t now x).id ≡ x.id
  unfolding set_columns
  set_row-id x = ground arith

  any-map-set_row :
      (i : ℤ) (ts : List Task)
      → any (λ (x : Task). x.id ==ℤ i) (map (set_row t now) ts) ≡ any (λ (x : Task). x.id ==ℤ i) ts
  any-map-set_row i [] = refl
  any-map-set_row i (x ∷ ts) = rw (set_row-id x, any-map-set_row i ts)

  map-set_row-IsDistinct :
      (ts : List Task)
      → IsDistinct (λ (x y : Task). y.id ==ℤ x.id) ts
      → IsDistinct (λ (x y : Task). y.id ==ℤ x.id) (map (set_row t now) ts)
  map-set_row-IsDistinct [] h = tt
  map-set_row-IsDistinct (x ∷ ts) (p, h) =
      (rw (set_row-id x, any-map-set_row x.id ts) p, map-set_row-IsDistinct ts h)

  map-set_row-given :
      (n : ℕ) (ts : List Task)
      → All (λ (x : Task). given n x.id ≡ true) ts
      → All (λ (x : Task). given n x.id ≡ true) (map (set_row t now) ts)
  map-set_row-given n [] h = tt
  map-set_row-given n (x ∷ ts) (p, h) = (rw (set_row-id x) p, map-set_row-given n ts h)

  module _ (r : Rows) (typed : status_valid t.status ≡ true)
      (known : references r t.assignee_id ≡ true) where
    set_row-ok : (x : Task) → task_ok r x ≡ true → task_ok r (set_row t now x) ≡ true
    unfolding set_columns
    set_row-ok x h = ground (arith, typed, known, h)

    map-set_row-ok :
        (ts : List Task)
        → All (λ x. task_ok r x ≡ true) ts
        → All (λ x. task_ok r x ≡ true) (map (set_row t now) ts)
    map-set_row-ok [] h = tt
    map-set_row-ok (x ∷ ts) (p, h) = (set_row-ok x p, map-set_row-ok ts h)

    module _ (c : Collation) (n : Counters) where
      pub task_set : IsSafe c r n (record r { tasks = map (set_row t now) r.tasks }) n
      task_set s =
          let r' = record r { tasks = map (set_row t now) r.tasks } in
          let more : Extends r r' =
            ((λ id h. h), (λ id h. h), (λ id h. rw (any-map-set_row id r.tasks) h)) in
          let foreign : HasReferences r r' =
            (s.foreign.0, s.foreign.1, map-set_row-ok r.tasks s.foreign.2, s.foreign.3) in
          (
            record {
              users = s.users;
              emails = s.emails;
              teams = s.teams;
              memberships = s.memberships;
              tasks = (
                map-set_row-given n.tasks r.tasks s.tasks.0,
                map-set_row-IsDistinct r.tasks s.tasks.1,
              );
              entries = s.entries;
              foreign = HasReferences-more r r' more r' foreign;
            },
            AtMost-refl n,
          )
