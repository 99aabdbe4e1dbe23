-- ===== src/Service/Task/Amend.antt =====
-- The pure part of `TaskService.Update` (internal/service/task.go): the fields that a request changes,
-- with the audit entry for each. A step takes `updated` and `history` as they stand before the source's
-- `if` for its field, and returns them as they stand after it, or the validation error.
pub mod Replay
pub mod Audit
pub mod Entries
pub mod Acceptance
use secunda_test.Base.{
  Bool, true, false, not, ◌&&◌, ◌||◌, Option, none, some, List, [], ◌∷◌, ◌++◌, ℤ, pos, ◌==ℤ◌,
  if◌then◌else◌,
}
use secunda_test.Text.{Text, codes, text_eq, is_empty, trim_space}
use secunda_test.Text.Decimal.{format_int}
use secunda_test.Errors.{validation, detailed}
use secunda_test.Errors.Action.{Result, ok, err}
use secunda_test.Errors.Outcome.{◌>>=◌}
use secunda_test.Domain.{Task, TaskStatus, TaskHistory, status_valid, zero_time}

pub record UpdateTaskInput : Type 0 where
  pub task_id : ℤ
  pub title : Option Text
  pub description : Option Text
  pub status : Option TaskStatus
  pub assignee_id : Option ℤ
  pub unset_assign : Bool
  pub actor_id : ℤ

-- The local variables `updated` and `history`.
pub record Draft : Type 0 where
  pub updated : Task
  pub history : List TaskHistory

-- The names in `task_history.field`.
abbrev pub field_title : Text
field_title = codes "title"

abbrev pub field_description : Text
field_description = codes "description"

abbrev pub field_status : Text
field_status = codes "status"

abbrev pub field_assignee : Text
field_assignee = codes "assignee_id"

-- `current.AssigneeID == nil || *current.AssigneeID != *in.AssigneeID`
abbrev pub differs : Option ℤ → ℤ → Bool
differs none new = true
differs (some old) new = not (old ==ℤ new)

-- The decimal print of an assignee, and "" for none.
abbrev pub print_assignee : Option ℤ → Text
print_assignee none = []
print_assignee (some a) = format_int a

module _ (input : UpdateTaskInput) (current : Task) where
  unfoldable pub entry : Text → Text → Text → TaskHistory
  entry field old new = record {
    id = pos 0;
    task_id = current.id;
    changed_by = input.actor_id;
    field = field;
    old_value = some old;
    new_value = some new;
    changed_at = zero_time;
  }

  -- The closure `add`, and the assignment behind its call.
  abbrev pub change : Text → Text → Text → Task → Draft → Draft
  change field old new updated d = record {
    updated = updated;
    history = d.history ++ entry field old new ∷ [];
  }

  unfoldable pub amend_title : Option Text → Draft → Result Draft
  amend_title none d = ok d
  amend_title (some title) d =
      let nt = trim_space title in
      if is_empty nt
      then err (detailed validation "title cannot be empty")
      else if text_eq nt current.title
      then ok d
      else ok (change field_title current.title nt (record (d.updated) { title = nt }) d)

  unfoldable pub amend_description : Option Text → Draft → Draft
  amend_description none d = d
  amend_description (some description) d =
      if text_eq description current.description
      then d
      else change field_description current.description description
          (record (d.updated) { description = description }) d

  unfoldable pub amend_status : Option TaskStatus → Draft → Result Draft
  amend_status none d = ok d
  amend_status (some status) d =
      if not (status_valid status)
      then err (detailed validation "invalid status")
      else if text_eq status current.status
      then ok d
      else ok (change field_status current.status status (record (d.updated) { status = status }) d)

  abbrev pub unassign : Option ℤ → Draft → Draft
  unassign none d = d
  unassign (some old) d =
      change field_assignee (format_int old) [] (record (d.updated) { assignee_id = none }) d

  abbrev pub assign : Option ℤ → Draft → Draft
  assign none d = d
  assign (some new) d =
      if differs current.assignee_id new
      then change field_assignee (print_assignee current.assignee_id) (format_int new)
          (record (d.updated) { assignee_id = some new }) d
      else d

  unfoldable pub amend_assignee : Bool → Option ℤ → Draft → Draft
  amend_assignee unset new d = if unset then unassign current.assignee_id d else assign new d

  unfoldable pub amend : Result Draft
  unfolding amend_title amend_description amend_status amend_assignee
  amend = do
    d ← amend_title input.title (record { updated = current; history = [] })
    let described = amend_description input.description d
    d' ← amend_status input.status described
    ok (amend_assignee input.unset_assign input.assignee_id d')
