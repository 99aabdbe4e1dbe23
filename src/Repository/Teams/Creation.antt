-- ===== src/Repository/Teams/Creation.antt =====
-- What `CreateWithOwner` of internal/repository/team_repo.go leaves in the tables, and for `ListByUser`.
use secunda_test.Base.{
  false, List, [], ◌∷◌, ℤ, any, keep, ◌≡◌, refl, sym, subst, ◌∙◌, ap, arith, ◌==ℤ◌,
}
use secunda_test.Text.{Text}
use secunda_test.Errors.{within}
use secunda_test.Errors.Action.{Result, ok, map_error, map_error-eq-ok, after-eq-ok}
use secunda_test.Domain.{Team, TeamMember, role_owner}
use secunda_test.Database.{Collation, Rows, Db, Counters}
use secunda_test.Database.Statement.{run}
use secunda_test.Database.Laws.{run-ok}
use secunda_test.Repository.Soundness.{IsSound, IsNumbered}
use secunda_test.Repository.Reachable.Invariant.{create_team-Keeps, safety, change-IsSafe}
use secunda_test.Repository.Transaction.Laws.{IsCommitted, IsAtomic, with_tx-IsAtomic}
use secunda_test.Repository.Teams.{
  TeamOrder, IsNewestFirst, HasSameRows, is_membership, insert_team, insert_member,
  insert_with_owner, create_with_owner, list_by_user, get_member,
}
use secunda_test.Repository.Teams.Lists.{joined, list_by_user-joined}

abbrev pub team_row : ℤ → Text → ℤ → ℤ → Team
team_row id name owner_id now = record {
  id = id;
  name = name;
  created_by = owner_id;
  created_at = now;
}

abbrev pub owner_row : ℤ → ℤ → ℤ → TeamMember
owner_row id owner_id now = record {
  team_id = id;
  user_id = owner_id;
  role = role_owner;
  joined_at = now;
}

-- The tables with the team and its owner.
abbrev pub founded : ℤ → Text → ℤ → ℤ → Rows → Rows
founded id name owner_id now r = record r {
  teams = team_row id name owner_id now ∷ r.teams;
  members = owner_row id owner_id now ∷ r.members;
}

insert_team-ok :
    (name : Text) (owner_id id now : ℤ) (r r' : Rows) (n n' : Counters)
    → insert_team name owner_id now r n ≡ (ok id, r', n')
    → r' ≡ record r { teams = team_row id name owner_id now ∷ r.teams }
unfolding insert_team
insert_team-ok name owner_id id now r r' n n' e = ground arith

insert_member-ok :
    (id owner_id now : ℤ) (r r' : Rows) (n n' : Counters)
    → insert_member id owner_id role_owner now r n ≡ (ok tt, r', n')
    → r' ≡ record r { members = owner_row id owner_id now ∷ r.members }
unfolding insert_member
insert_member-ok id owner_id now r r' n n' e = ground arith

insert_with_owner-ok :
    (name : Text) (owner_id id : ℤ) (db db' : Db)
    → insert_with_owner name owner_id db ≡ (ok id, db')
    → db'.rows ≡ founded id name owner_id db.now db.rows
unfolding insert_with_owner
insert_with_owner-ok name owner_id id db db' e =
    let (i, db1, ran, rest) =
      after-eq-ok _ (map_error (within "insert team") (run (insert_team name owner_id) db)) e in
    let (_, db2, joins, last) =
      after-eq-ok _
        (map_error (within "insert owner membership")
          (run (insert_member i owner_id role_owner) db1))
        rest in
    let p =
      run-ok (insert_team name owner_id) db i db1 (map_error-eq-ok (within "insert team") _ ran) in
    let q =
      run-ok (insert_member i owner_id role_owner) db1 tt db2
        (map_error-eq-ok (within "insert owner membership") _ joins) in
    let rows1 =
      insert_team-ok name owner_id i db.now db.rows db1.rows db.counters db1.counters p.effect in
    let rows2 =
      insert_member-ok i owner_id db1.now db1.rows db2.rows db1.counters db2.counters q.effect in
    let same : i ≡ id = ground (arith, last) in
    ap (λ (o : Result ℤ × Db). o.1.rows) (sym last)
    ∙ rows2
    ∙ (λ k. record (rows1 k) { members = owner_row i owner_id (p.same_time k) ∷ (rows1 k).members })
    ∙ ap (λ j. founded j name owner_id db.now db.rows) same

create_with_owner-founded :
    (name : Text) (owner_id id : ℤ) (db db' : Db)
    → create_with_owner name owner_id db ≡ (ok id, db')
    → db'.rows ≡ founded id name owner_id db.now db.rows
unfolding create_with_owner
create_with_owner-founded name owner_id id db db' e =
    let c : IsCommitted (insert_with_owner name owner_id) db db'.rows id =
      subst (IsAtomic (insert_with_owner name owner_id) db) e
        (with_tx-IsAtomic (insert_with_owner name owner_id) db) in
    c.kept
    ∙ insert_with_owner-ok name owner_id id c.begun c.ended c.ran
    ∙ (λ i. founded id name owner_id (c.same_time i) (c.same_rows i))

keep-others :
    (id user_id now : ℤ) (ms : List TeamMember) (ts : List Team)
    → any (λ (t : Team). t.id ==ℤ id) ts ≡ false
    → keep (λ (t : Team). any (is_membership t.id user_id) (owner_row id user_id now ∷ ms)) ts
      ≡ keep (λ t. any (is_membership t.id user_id) ms) ts
keep-others id user_id now ms [] h = refl
keep-others id user_id now ms (t ∷ ts) h = ground (arith, h, keep-others id user_id now ms ts)

joined-founded :
    (id : ℤ) (name : Text) (owner_id now : ℤ) (r : Rows)
    → any (λ (t : Team). t.id ==ℤ id) r.teams ≡ false
    → joined owner_id (founded id name owner_id now r)
      ≡ team_row id name owner_id now ∷ joined owner_id r
joined-founded id name owner_id now r fresh =
    ground (arith, keep-others id owner_id now r.members r.teams fresh)

keep_owner :
    (id owner_id now : ℤ) (ms : List TeamMember)
    → keep (is_membership id owner_id) (owner_row id owner_id now ∷ ms)
      ≡ owner_row id owner_id now ∷ keep (is_membership id owner_id) ms
keep_owner id owner_id now ms = ground arith

module _ (c : Collation) (order : TeamOrder) (name : Text) (owner_id id : ℤ) (db db' : Db)
    (e : create_with_owner name owner_id db ≡ (ok id, db')) (calm : db'.faults ≡ []) where
  owner-get_member : get_member id owner_id db' ≡ (ok (owner_row id owner_id db.now), db')
  unfolding get_member run
  owner-get_member =
      rw
        (
          calm,
          create_with_owner-founded name owner_id id db db' e,
          keep_owner id owner_id db.now db.rows.members,
        )
        refl

  owner-list_by_user :
      IsSound c db.rows db.counters
      → list_by_user order owner_id db'
        ≡ (ok (order.arrange (team_row id name owner_id db.now ∷ joined owner_id db.rows)), db')
  owner-list_by_user s =
      let rows = create_with_owner-founded name owner_id id db db' e in
      let sound : IsSound c db'.rows db'.counters =
        subst (λ (o : Result ℤ × Db). IsSound c o.1.rows o.1.counters) e
          (create_team-Keeps c (safety c) (change-IsSafe c) name owner_id db s).0 in
      let (_, distinct) : IsNumbered (λ (t : Team). t.id) db'.counters.teams
          (founded id name owner_id db.now db.rows).teams =
        subst (λ (r : Rows). IsNumbered (λ (t : Team). t.id) db'.counters.teams r.teams) rows
          sound.teams in
      list_by_user-joined c order owner_id db' sound calm
      ∙ ap (λ (ts : List Team). (ok (order.arrange ts), db'))
          (ap (joined owner_id) rows ∙ joined-founded id name owner_id db.now db.rows distinct.0)

-- Behind a successful `CreateWithOwner` on sound tables, and if no statement to come fails, `GetMember` finds
-- the creator in the team, as its owner, and `ListByUser` answers, newest first, exactly the new team and the
-- teams that had a membership of the creator, each of them once.
pub create_with_owner-found :
    (c : Collation) (order : TeamOrder) (name : Text) (owner_id id : ℤ) (db db' : Db)
    → IsSound c db.rows db.counters
    → create_with_owner name owner_id db ≡ (ok id, db')
    → db'.faults ≡ []
    → (get_member id owner_id db' ≡ (ok (owner_row id owner_id db.now), db'))
      × ((ts : List Team) × (list_by_user order owner_id db' ≡ (ok ts, db'))
          × IsNewestFirst ts
          × HasSameRows ts (team_row id name owner_id db.now ∷ joined owner_id db.rows))
create_with_owner-found c order name owner_id id db db' s e calm =
    let ts = team_row id name owner_id db.now ∷ joined owner_id db.rows in
    (
      owner-get_member c order name owner_id id db db' e calm,
      (
        order.arrange ts,
        owner-list_by_user c order name owner_id id db db' e calm s,
        order.newest_first ts,
        order.same_rows ts,
      ),
    )
