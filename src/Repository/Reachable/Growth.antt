-- ===== src/Repository/Reachable/Growth.antt =====
-- What no call takes back.
use secunda_test.Base.{◌≡◌, refl, sym, ap, ◌∙◌, List, [], ◌∷◌, ◌++◌, map, append_assoc, ℤ, arith}
use secunda_test.Domain.{Task}
use secunda_test.Database.{Collation, Rows, Counters, Db}
use secunda_test.Database.Preservation.{Promise}
use secunda_test.Repository.Tasks.{set_row, set_columns}
use secunda_test.Repository.Changes.{
  Change, nothing, new_user, new_team, new_member, new_task, new_entry, set_task,
}
use secunda_test.Repository.Reachable.{Reach}
use secunda_test.Repository.Reachable.Invariant.{reach-Kept}

-- The newer rows stand in front.
abbrev pub IsAppended : {A : Type 0} → List A → List A → Type 0
IsAppended {A = A} old new = (front : List A) × (new ≡ front ++ old)

IsAppended-refl : {A : Type 0} (xs : List A) → IsAppended xs xs
IsAppended-refl xs = ([], refl)

IsAppended-trans :
    {A : Type 0} {xs ys zs : List A} → IsAppended xs ys → IsAppended ys zs → IsAppended xs zs
IsAppended-trans {xs = xs} (f, e) (g, d) =
    (g ++ f, d ∙ ap (λ l. g ++ l) e ∙ sym (append_assoc g f xs))

-- What an UPDATE of a task leaves: its id, its team, its creator and the time of its creation.
abbrev pub origin : Task → ℤ × ℤ × ℤ × ℤ
origin t = (t.id, t.team_id, t.created_by, t.created_at)

abbrev pub IsGrown : Rows → Rows → Type 0
IsGrown r r' =
    IsAppended r.users r'.users
    × IsAppended r.teams r'.teams
    × IsAppended r.members r'.members
    × IsAppended (map origin r.tasks) (map origin r'.tasks)
    × IsAppended r.history r'.history

set_row-origin : (t : Task) (now : ℤ) (x : Task) → origin (set_row t now x) ≡ origin x
unfolding set_columns
set_row-origin t now x = ground arith

map-set_row-origin :
    (t : Task) (now : ℤ) (ts : List Task) → map origin (map (set_row t now) ts) ≡ map origin ts
map-set_row-origin t now [] = refl
map-set_row-origin t now (x ∷ ts) = rw (set_row-origin t now x, map-set_row-origin t now ts)

pub IsGrown-refl : (r : Rows) → IsGrown r r
IsGrown-refl r = (([], refl), ([], refl), ([], refl), ([], refl), ([], refl))

pub IsGrown-trans : (r r1 r2 : Rows) → IsGrown r r1 → IsGrown r1 r2 → IsGrown r r2
IsGrown-trans r r1 r2 h g = (
  IsAppended-trans h.0 g.0,
  IsAppended-trans h.1 g.1,
  IsAppended-trans h.2 g.2,
  IsAppended-trans h.3 g.3,
  IsAppended-trans h.4 g.4,
)

pub change-IsGrown :
    (c : Collation) (r r' : Rows) (n k : Counters) → Change c r n r' k → IsGrown r r'
change-IsGrown c r _ n _ (nothing k h) = IsGrown-refl r
change-IsGrown c r _ n _ (new_user u new fresh) =
    ((u ∷ [], refl), ([], refl), ([], refl), ([], refl), ([], refl))
change-IsGrown c r _ n _ (new_team t new valid) =
    (([], refl), (t ∷ [], refl), ([], refl), ([], refl), ([], refl))
change-IsGrown c r _ n _ (new_member m new valid) =
    (([], refl), ([], refl), (m ∷ [], refl), ([], refl), ([], refl))
change-IsGrown c r _ n _ (new_task t new valid) =
    (([], refl), ([], refl), ([], refl), (origin t ∷ [], refl), ([], refl))
change-IsGrown c r _ n _ (new_entry h new valid) =
    (([], refl), ([], refl), ([], refl), ([], refl), (h ∷ [], refl))
change-IsGrown c r _ n _ (set_task t now typed known) =
    (([], refl), ([], refl), ([], refl), ([], map-set_row-origin t now r.tasks), ([], refl))

abbrev pub growth : Promise
growth = record {
  relates = λ r n r' k. IsGrown r r';
  same = λ r n. IsGrown-refl r;
  then = λ {r} {r1} {r2} h g. IsGrown-trans r r1 r2 h g;
  undone = λ {r} h. IsGrown-refl r;
}

-- No call of the repositories removes or changes a user, a team, a membership or an entry of the history,
-- and none changes the id, the team, the creator or the time of creation of a task: the tables of a later
-- database are those of an earlier one, with newer rows in front.
pub reach-IsGrown : (c : Collation) (start db : Db) → Reach c start db → IsGrown start.rows db.rows
reach-IsGrown c start db reached = reach-Kept c growth (change-IsGrown c) reached
