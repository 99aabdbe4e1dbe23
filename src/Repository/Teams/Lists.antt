-- ===== src/Repository/Teams/Lists.antt =====
-- The teams that a user is in, by `ListByUser` of internal/repository/team_repo.go.
use secunda_test.Base.{
  Bool, false, List, [], ◌∷◌, map, ℤ, if◌then◌else◌, any, keep, ◌≡◌, refl, sym, ◌∙◌, arith,
  Bool-cases, inl, inr, IsDistinct, any_same,
}
use secunda_test.Errors.Action.{ok}
use secunda_test.Domain.{Team, TeamMember}
use secunda_test.Database.{Collation, Rows, Db}
use secunda_test.Database.Statement.{run}
use secunda_test.Repository.Soundness.{IsSound}
use secunda_test.Repository.Teams.{teams_of, TeamOrder, is_membership, list_by_user}

abbrev pub joined : ℤ → Rows → List Team
joined user_id r = keep (λ t. any (is_membership t.id user_id) r.members) r.teams

keep_absent : {A : Type 0} (p : A → Bool) (xs : List A) → any p xs ≡ false → keep p xs ≡ []
keep_absent p [] h = refl
keep_absent p (x ∷ xs) h = ground (arith, keep_absent p xs)

any-absent :
    {A : Type 0} (p q : A → Bool) (xs : List A)
    → ((x : A) → p x ≡ q x)
    → any p xs ≡ false
    → any q xs ≡ false
any-absent p q xs h k = sym (any_same p q h xs) ∙ k

-- A row of the join for each membership, and there is at most one.
keep-is_membership :
    (t : Team) (user_id : ℤ) (ms : List TeamMember)
    → IsDistinct (λ (m k : TeamMember). is_membership m.team_id m.user_id k) ms
    → map (λ _. t) (keep (is_membership t.id user_id) ms)
      ≡ (if any (is_membership t.id user_id) ms then t ∷ [] else [])
keep-is_membership t user_id [] d = refl
keep-is_membership t user_id (m ∷ ms) (new, d) = elim (Bool-cases (is_membership t.id user_id m)) [
  | inl e ↦
      let alone : any (is_membership t.id user_id) ms ≡ false =
        any-absent (is_membership m.team_id m.user_id) (is_membership t.id user_id) ms
          (λ k. ground (arith, e)) new in
      rw (e, keep_absent (is_membership t.id user_id) ms alone) refl
  | inr n ↦ rw n (keep-is_membership t user_id ms d)
]

teams_of-joined :
    (user_id : ℤ) (ms : List TeamMember) (ts : List Team)
    → IsDistinct (λ (m k : TeamMember). is_membership m.team_id m.user_id k) ms
    → teams_of user_id ms ts ≡ keep (λ t. any (is_membership t.id user_id) ms) ts
unfolding teams_of
teams_of-joined user_id ms [] d = refl
teams_of-joined user_id ms (t ∷ ts) d = elim (Bool-cases (any (is_membership t.id user_id) ms)) [
  | inl e ↦ rw (keep-is_membership t user_id ms d, e, teams_of-joined user_id ms ts d) refl
  | inr n ↦ rw (keep-is_membership t user_id ms d, n, teams_of-joined user_id ms ts d) refl
]

-- The teams that the user is in, each once.
pub list_by_user-joined :
    (c : Collation) (order : TeamOrder) (user_id : ℤ) (db : Db)
    → IsSound c db.rows db.counters
    → db.faults ≡ []
    → list_by_user order user_id db ≡ (ok (order.arrange (joined user_id db.rows)), db)
unfolding list_by_user run
list_by_user-joined c order user_id db s calm =
    rw (calm, teams_of-joined user_id db.rows.members db.rows.teams s.memberships) refl
