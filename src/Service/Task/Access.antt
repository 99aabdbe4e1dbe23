-- ===== src/Service/Task/Access.antt =====
-- Who may do what to the tasks of a team (`requireMember` and its callers).
use secunda_test.Base.{true, List, ◌≡◌, ℤ, arith, inl, inr}
use secunda_test.Errors.{GoError, not_found, forbidden, is_error, is_error-detailed}
use secunda_test.Errors.Action.{Result, ok, err, Outcome-cases, after-eq-ok}
use secunda_test.Domain.{Task, TaskFilter, TeamMember}
use secunda_test.Service.Task.{
  TaskService, CreateTaskInput, require_member, not_a_member, create, list, update, history,
}
use secunda_test.Service.Task.Amend.{UpdateTaskInput}

module _ {W : Type 0} (s : TaskService W) where
  -- What the team repository answers to the membership query, with the world behind it.
  abbrev pub Denies : ℤ → ℤ → W → GoError → W → Type 0
  Denies team user w e w' =
      (s.teams.get_member team user w ≡ (err e, w')) × (is_error e not_found ≡ true)

  abbrev pub IsMember : ℤ → ℤ → W → Type 0
  IsMember team user w = (m : TeamMember) × (w' : W) × (s.teams.get_member team user w ≡ (ok m, w'))

  -- The result of a refused call: `ErrForbidden`, and nothing done since the membership query.
  abbrev pub IsForbidden : {A : Type 0} → Result A × W → W → Type 0
  IsForbidden r w' = (e : GoError) × (is_error e forbidden ≡ true) × (r ≡ (err e, w'))

  not_a_member-forbidden :
      (e : GoError) → is_error e not_found ≡ true → is_error (not_a_member e) forbidden ≡ true
  unfolding not_a_member
  not_a_member-forbidden e h =
      ground (arith, is_error-detailed forbidden "not a member of the team" forbidden)

  -- A user who is no member of the team creates no task in it and lists none: both calls end with
  -- `ErrForbidden`, in the world that the membership query left.
  pub create-list-IsForbidden :
      (input : CreateTaskInput) (f : TaskFilter) (w w' : W) (e : GoError)
      → f.team_id ≡ input.team_id
      → Denies input.team_id input.actor_id w e w'
      → IsForbidden (create s input w) w' × IsForbidden (list s f input.actor_id w) w'
  unfolding create list require_member
  create-list-IsForbidden input f w w' e same (answer, missing) = (
    (not_a_member e, not_a_member-forbidden e missing, rw answer),
    (not_a_member e, not_a_member-forbidden e missing, rw (same, answer)),
  )

  -- A user who is no member of the team that a task belongs to neither changes the task nor reads its
  -- history: both calls end with `ErrForbidden`, in the world that the membership query left.
  pub update-history-IsForbidden :
      (input : UpdateTaskInput) (t : Task) (w w1 w2 : W) (e : GoError)
      → s.tasks.get_by_id input.task_id w ≡ (ok t, w1)
      → Denies t.team_id input.actor_id w1 e w2
      → IsForbidden (update s input w) w2
        × IsForbidden (history s input.task_id input.actor_id w) w2
  unfolding update history require_member
  update-history-IsForbidden input t w w1 w2 e found (answer, missing) = (
    (not_a_member e, not_a_member-forbidden e missing, rw (found, answer)),
    (not_a_member e, not_a_member-forbidden e missing, rw (found, answer)),
  )

  require_member-ok :
      (team user : ℤ) (w : W) {w' : W} {u : Unit {0}}
      → require_member s team user w ≡ (ok u, w')
      → IsMember team user w
  unfolding require_member
  require_member-ok team user w {w'} h = elim (Outcome-cases (s.teams.get_member team user w)) [
    | inl (m, w1, e) ↦ (m, w1, e)
    | inr (x, w1, e) ↦ absurd (ground (arith, e, h))
  ]

  -- Whoever created a task was a member of its team at the time, and so was whoever was answered a list.
  pub create-list-IsMember :
      (input : CreateTaskInput) (f : TaskFilter) (actor : ℤ) (w : W) {t : Task} {ts : List Task}
      {w1 w2 : W}
      → create s input w ≡ (ok t, w1)
      → list s f actor w ≡ (ok ts, w2)
      → IsMember input.team_id input.actor_id w × IsMember f.team_id actor w
  unfolding create list
  create-list-IsMember input f actor w h k =
      let (_, v, created, _) = after-eq-ok _ (require_member s input.team_id input.actor_id w) h in
      let (_, v', listed, _) = after-eq-ok _ (require_member s f.team_id actor w) k in
      (
        require_member-ok input.team_id input.actor_id w created,
        require_member-ok f.team_id actor w listed,
      )
