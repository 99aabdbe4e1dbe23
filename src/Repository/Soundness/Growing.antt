-- ===== src/Repository/Soundness/Growing.antt =====
-- Soundness behind more rows and larger counters.
use secunda_test.Base.{
  ℕ, suc, ◌≤◌, ◌≡◌, refl, true, false, List, [], ◌∷◌, Option, none, some, ℤ, pos, All, All-impl,
  any, ◌==ℤ◌, arith,
}
use secunda_test.Domain.{User, Team, TeamMember, Task, TaskHistory}
use secunda_test.Database.{Collation, Rows, Counters, has_user, has_team, has_task}
use secunda_test.Repository.Tasks.{references}
use secunda_test.Repository.Soundness.{HasReferences, given, IsNumbered, IsSound}
use secunda_test.Repository.Changes.{team_ok, member_ok, task_ok, entry_ok, AtMost}

-- A later counter, and a number that no row has yet.
given_later : (n k : ℕ) (i : ℤ) → n ≤ k → given n i ≡ true → given k i ≡ true
given_later n k i h b = ground arith

module _ {A : Type 0} (id : A → ℤ) where
  pub numbered-grow : {n k : ℕ} (xs : List A) → n ≤ k → IsNumbered id n xs → IsNumbered id k xs
  numbered-grow {n = n} {k = k} xs h (bounds, distinct) =
      (All-impl (λ x b. given_later n k (id x) h b) xs bounds, distinct)

  fresh :
      (n : ℕ) (xs : List A)
      → All (λ x. given n (id x) ≡ true) xs
      → any (λ y. id y ==ℤ pos (suc n)) xs ≡ false
  fresh n [] h = refl
  fresh n (x ∷ xs) (b, h) = ground (arith, fresh n xs h)

  pub numbered-cons :
      (n : ℕ) (x : A) (xs : List A)
      → id x ≡ pos (suc n)
      → IsNumbered id n xs
      → IsNumbered id (suc n) (x ∷ xs)
  numbered-cons n x xs new (bounds, distinct) =
      let (later, _) = numbered-grow {n = n} {k = suc n} xs (omega arith) (bounds, distinct) in
      ((rw new (ground arith), later), (rw new (fresh n xs bounds), distinct))

-- Rows that hold every key of others.
abbrev pub Extends : Rows → Rows → Type 0
Extends r r' =
    ((id : ℤ) → has_user r id ≡ true → has_user r' id ≡ true)
    × ((id : ℤ) → has_team r id ≡ true → has_team r' id ≡ true)
    × ((id : ℤ) → has_task r id ≡ true → has_task r' id ≡ true)

module _ (r r' : Rows) (more : Extends r r') where
  pub references-more : (o : Option ℤ) → references r o ≡ true → references r' o ≡ true
  references-more none h = h
  references-more (some a) h = more.0 a h

  pub team_ok-more : (t : Team) → team_ok r t ≡ true → team_ok r' t ≡ true
  team_ok-more t h = more.0 t.created_by h

  pub member_ok-more : (m : TeamMember) → member_ok r m ≡ true → member_ok r' m ≡ true
  member_ok-more m h = ground (arith, h, more.1 m.team_id, more.0 m.user_id)

  pub task_ok-more : (t : Task) → task_ok r t ≡ true → task_ok r' t ≡ true
  task_ok-more t h =
      ground (arith, h, more.1 t.team_id, references-more t.assignee_id, more.0 t.created_by)

  pub entry_ok-more : (h : TaskHistory) → entry_ok r h ≡ true → entry_ok r' h ≡ true
  entry_ok-more h k = ground (arith, k, more.2 h.task_id, more.0 h.changed_by)

  pub HasReferences-more : (xs : Rows) → HasReferences r xs → HasReferences r' xs
  HasReferences-more xs h = (
    All-impl team_ok-more xs.teams h.0,
    All-impl member_ok-more xs.members h.1,
    All-impl task_ok-more xs.tasks h.2,
    All-impl entry_ok-more xs.history h.3,
  )

pub AtMost-trans : (n k l : Counters) → AtMost n k → AtMost k l → AtMost n l
AtMost-trans n k l h g =
    (omega (arith, h, g), omega (arith, h, g), omega (arith, h, g), omega (arith, h, g))

-- A rollback takes no number back.
pub IsSound-grow :
    (c : Collation) (r : Rows) (n k : Counters) → AtMost n k → IsSound c r n → IsSound c r k
IsSound-grow c r n k h s = record {
  users = numbered-grow (λ (u : User). u.id) r.users h.0 s.users;
  emails = s.emails;
  teams = numbered-grow (λ (t : Team). t.id) r.teams h.1 s.teams;
  memberships = s.memberships;
  tasks = numbered-grow (λ (t : Task). t.id) r.tasks h.2 s.tasks;
  entries = numbered-grow (λ (e : TaskHistory). e.id) r.history h.3 s.entries;
  foreign = s.foreign;
}
