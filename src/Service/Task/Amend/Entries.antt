-- ===== src/Service/Task/Amend/Entries.antt =====
-- What an amendment leaves alone, what each audit entry says, and when there is none.
use secunda_test.Base.{
  Bool, Option, none, some, List, [], ◌∷◌, ◌++◌, ◌≡◌, ◌≢◌, ◌⊎◌, ◌↔◌, inl, inr, refl, sym, ap, ◌∙◌,
  ℤ, arith, All, All-append,
}
use secunda_test.Text.{Text, text_eq_iff, trim_space}
use secunda_test.Errors.Action.{ok}
use secunda_test.Errors.Outcome.{OnOk, OnOk-bind, OnOk-ok}
use secunda_test.Domain.{Task, TaskStatus, TaskHistory}
use secunda_test.Service.Task.Amend.{
  UpdateTaskInput, Draft, field_title, field_description, field_status, field_assignee, change,
  entry, print_assignee, amend_title, amend_description, amend_status, amend_assignee, amend,
}
use secunda_test.Service.Task.Amend.Replay.{read_assignee}
use secunda_test.Service.Task.Amend.Audit.{IsAssignee, read_assignee-print_assignee}

print_assignee_inj :
    (a b : Option ℤ) → IsAssignee a → IsAssignee b → print_assignee a ≡ print_assignee b → a ≡ b
print_assignee_inj a b p q e =
    sym (read_assignee-print_assignee a p) ∙ (ap read_assignee e ∙ read_assignee-print_assignee b q)

append-ne-nil : {A : Type 0} (xs : List A) (x : A) → xs ++ x ∷ [] ≢ []
append-ne-nil [] x = cc
append-ne-nil (y ∷ xs) x = cc

module _ (input : UpdateTaskInput) (current : Task) where
  -- An entry for this task, by this actor, about a value that changed.
  pub record IsAttributed (h : TaskHistory) : Type 0 where
    pub task : h.task_id ≡ current.id
    pub actor : h.changed_by ≡ input.actor_id
    pub changed : h.old_value ≢ h.new_value

  -- The columns that `Update` must not touch.
  pub record IsSameTask (t : Task) : Type 0 where
    pub id : t.id ≡ current.id
    pub team : t.team_id ≡ current.team_id
    pub creator : t.created_by ≡ current.created_by
    pub created : t.created_at ≡ current.created_at
    pub stamped : t.updated_at ≡ current.updated_at

  abbrev Differs : Task → Type 0
  Differs t =
      ((t.title ≢ current.title) ⊎ (t.description ≢ current.description))
      ⊎ ((t.status ≢ current.status) ⊎ (t.assignee_id ≢ current.assignee_id))

  record IsRecorded (d : Draft) : Type 0 where
    entries : All IsAttributed d.history
    same : IsSameTask d.updated
    quiet : ((d.history ≡ []) × (d.updated ≡ current)) ⊎ ((d.history ≢ []) × Differs d.updated)

  change-IsRecorded :
      (field old new : Text) (updated : Task) (d : Draft)
      → IsRecorded d
      → old ≢ new
      → IsSameTask updated
      → Differs updated
      → IsRecorded (change input current field old new updated d)
  unfolding entry
  change-IsRecorded field old new updated d r ne same differs = record {
    entries =
        All-append IsAttributed d.history _ r.entries
          (record { task = refl; actor = refl; changed = λ e. ne (cc e) }, tt);
    same = same;
    quiet = inr (append-ne-nil d.history _, differs);
  }

  amend_title-IsRecorded :
      (title : Option Text) (d : Draft)
      → IsRecorded d
      → OnOk IsRecorded (amend_title input current title d)
  unfolding amend_title
  amend_title-IsRecorded none d r = r
  amend_title-IsRecorded (some title) d r =
      let nt = trim_space title in
      let updated : Task = record (d.updated) { title = nt } in
      let same : IsSameTask updated = record {
        id = r.same.id;
        team = r.same.team;
        creator = r.same.creator;
        created = r.same.created;
        stamped = r.same.stamped;
      } in
      let recorded : current.title ≢ nt
          → IsRecorded (change input current field_title current.title nt updated d) =
        λ ne.
          change-IsRecorded field_title current.title nt updated d r ne same
            (inl (inl (λ e. ne (sym e)))) in
      ground (arith, recorded, text_eq_iff nt current.title)

  amend_description-IsRecorded :
      (description : Option Text) (d : Draft)
      → IsRecorded d
      → IsRecorded (amend_description input current description d)
  unfolding amend_description
  amend_description-IsRecorded none d r = r
  amend_description-IsRecorded (some description) d r =
      let updated : Task = record (d.updated) { description = description } in
      let same : IsSameTask updated = record {
        id = r.same.id;
        team = r.same.team;
        creator = r.same.creator;
        created = r.same.created;
        stamped = r.same.stamped;
      } in
      let recorded : current.description ≢ description
          → IsRecorded
              (change input current field_description current.description description updated d) =
        λ ne.
          change-IsRecorded field_description current.description description updated d r ne same
            (inl (inr (λ e. ne (sym e)))) in
      ground (arith, recorded, text_eq_iff description current.description)

  amend_status-IsRecorded :
      (status : Option TaskStatus) (d : Draft)
      → IsRecorded d
      → OnOk IsRecorded (amend_status input current status d)
  unfolding amend_status
  amend_status-IsRecorded none d r = r
  amend_status-IsRecorded (some status) d r =
      let updated : Task = record (d.updated) { status = status } in
      let same : IsSameTask updated = record {
        id = r.same.id;
        team = r.same.team;
        creator = r.same.creator;
        created = r.same.created;
        stamped = r.same.stamped;
      } in
      let recorded : current.status ≢ status
          → IsRecorded (change input current field_status current.status status updated d) =
        λ ne.
          change-IsRecorded field_status current.status status updated d r ne same
            (inr (inl (λ e. ne (sym e)))) in
      ground (arith, recorded, text_eq_iff status current.status)

  assign_to-IsRecorded :
      (new : Option ℤ) (d : Draft)
      → IsRecorded d
      → IsAssignee current.assignee_id
      → IsAssignee new
      → current.assignee_id ≢ new
      → IsRecorded (
          change input current field_assignee
            (print_assignee current.assignee_id)
            (print_assignee new)
            (record (d.updated) { assignee_id = new })
            d)
  assign_to-IsRecorded new d r old_fits new_fits ne =
      change-IsRecorded field_assignee (print_assignee current.assignee_id) (print_assignee new)
        (record (d.updated) { assignee_id = new }) d r
        (λ e. ne (print_assignee_inj current.assignee_id new old_fits new_fits e))
        (record {
          id = r.same.id;
          team = r.same.team;
          creator = r.same.creator;
          created = r.same.created;
          stamped = r.same.stamped;
        })
        (inr (inr (λ e. ne (sym e))))

  amend_assignee-IsRecorded :
      (unset : Bool) (new : Option ℤ) (d : Draft)
      → IsRecorded d
      → IsAssignee current.assignee_id
      → IsAssignee new
      → IsRecorded (amend_assignee input current unset new d)
  unfolding amend_assignee
  amend_assignee-IsRecorded unset new d r old_fits new_fits = ground (
    arith,
    assign_to-IsRecorded none d r old_fits tt,
    assign_to-IsRecorded new d r old_fits new_fits,
  )

  amend-IsRecorded :
      IsAssignee current.assignee_id
      → IsAssignee input.assignee_id
      → OnOk IsRecorded (amend input current)
  unfolding amend
  amend-IsRecorded old_fits new_fits =
      OnOk-bind IsRecorded IsRecorded (amend_title input current input.title start) _
        (amend_title-IsRecorded input.title start (record {
          entries = tt;
          same = record { id = refl; team = refl; creator = refl; created = refl; stamped = refl };
          quiet = inl (refl, refl);
        }))
        (λ d r.
          OnOk-bind IsRecorded IsRecorded
            (amend_status input current input.status
              (amend_description input current input.description d))
            _
            (amend_status-IsRecorded input.status _
              (amend_description-IsRecorded input.description d r))
            (λ d' q.
              amend_assignee-IsRecorded input.unset_assign input.assignee_id d' q old_fits
                new_fits))
    where
      start : Draft
      start = record { updated = current; history = [] }

-- An amendment keeps the task's id, team, creator and time stamps. Each of its entries names this
-- task and the acting user, and its old value differs from its new value. Both assignees are int64
-- numbers or absent.
pub amend-IsAttributed :
    (input : UpdateTaskInput) (current : Task) {d : Draft}
    → IsAssignee current.assignee_id
    → IsAssignee input.assignee_id
    → amend input current ≡ ok d
    → All (IsAttributed input current) d.history × IsSameTask input current d.updated
amend-IsAttributed input current old_fits new_fits e =
    let r =
      OnOk-ok (IsRecorded input current) (amend input current)
        (amend-IsRecorded input current old_fits new_fits) e in
    (r.entries, r.same)

-- The history is empty exactly when the amended task is the stored one. Both assignees are int64
-- numbers or absent.
pub amend_quiet :
    (input : UpdateTaskInput) (current : Task) {d : Draft}
    → IsAssignee current.assignee_id
    → IsAssignee input.assignee_id
    → amend input current ≡ ok d
    → (d.history ≡ []) ↔ (d.updated ≡ current)
amend_quiet input current {d} old_fits new_fits e =
    let r =
      OnOk-ok (IsRecorded input current) (amend input current)
        (amend-IsRecorded input current old_fits new_fits) e in
    elim r.quiet [
      | inl (empty, same) ↦ ((λ _. same), (λ _. empty))
      | inr (filled, differs) ↦ (
        (λ empty. absurd (filled empty)),
        (λ same. absurd (
            ground (
              arith,
              differs,
              ap (λ (t : Task). t.title) same,
              ap (λ (t : Task). t.description) same,
              ap (λ (t : Task). t.status) same,
              ap (λ (t : Task). t.assignee_id) same,
            ))),
      )
    ]
