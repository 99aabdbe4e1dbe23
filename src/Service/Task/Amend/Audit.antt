-- ===== src/Service/Task/Amend/Audit.antt =====
-- The entries that `Update` writes are an exact record of what it changes.
use secunda_test.Base.{Bool, Option, none, some, [], ◌∷◌, ◌≡◌, refl, sym, ◌∙◌, ℤ, IsInt64, arith}
use secunda_test.Text.{Text, trim_space}
use secunda_test.Text.Decimal.{format_int, parse_int}
use secunda_test.Text.Decimal.RoundTrip.{parse_int-format_int}
use secunda_test.Errors.Action.{ok}
use secunda_test.Errors.Outcome.{OnOk, OnOk-bind, OnOk-ok}
use secunda_test.Domain.{Task, TaskStatus}
use secunda_test.Service.Task.Amend.{
  UpdateTaskInput, Draft, field_title, field_description, field_status, field_assignee, change,
  entry, print_assignee, amend_title, amend_description, amend_status, amend_assignee, amend,
}
use secunda_test.Service.Task.Amend.Replay.{
  put_field, read_assignee, replay, rewind, replay-append, rewind-append,
}

-- An assignee that a task or a request may hold.
abbrev pub IsAssignee : Option ℤ → Type 0
IsAssignee none = Unit
IsAssignee (some a) = IsInt64 a

read_assignee_of_parse_int : (s : Text) (n : ℤ) → parse_int s ≡ some n → read_assignee s ≡ some n
unfolding parse_int
read_assignee_of_parse_int [] n h = cc
read_assignee_of_parse_int (c ∷ s) n h = h

read_assignee-format_int : (n : ℤ) → IsInt64 n → read_assignee (format_int n) ≡ some n
read_assignee-format_int n h =
    read_assignee_of_parse_int (format_int n) n (parse_int-format_int n h)

pub read_assignee-print_assignee :
    (o : Option ℤ) → IsAssignee o → read_assignee (print_assignee o) ≡ o
read_assignee-print_assignee none h = refl
read_assignee-print_assignee (some n) h = read_assignee-format_int n h

module _ (input : UpdateTaskInput) (current : Task) where
  -- The trail so far leads from the stored task to the amended one, and back.
  pub record IsAudited (d : Draft) : Type 0 where
    pub forward : replay d.history current ≡ d.updated
    pub backward : rewind d.history d.updated ≡ current

  change-IsAudited :
      (field old new : Text) (updated : Task) (d : Draft)
      → IsAudited d
      → put_field field new d.updated ≡ updated
      → put_field field old updated ≡ d.updated
      → IsAudited (change input current field old new updated d)
  unfolding entry
  change-IsAudited field old new updated d a there back = record {
    forward =
        rw (replay-append d.history (entry input current field old new) current, a.forward) there;
    backward =
        rw (rewind-append d.history (entry input current field old new) updated, back) a.backward;
  }

  -- The fields that the later steps have not looked at yet.
  abbrev KeepsAssignee : Task → Type 0
  KeepsAssignee t = t.assignee_id ≡ current.assignee_id

  abbrev KeepsStatus : Task → Type 0
  KeepsStatus t = (t.status ≡ current.status) × KeepsAssignee t

  abbrev KeepsDescription : Task → Type 0
  KeepsDescription t = (t.description ≡ current.description) × KeepsStatus t

  amend_title-IsAudited :
      (title : Option Text) (d : Draft)
      → IsAudited d
      → d.updated.title ≡ current.title
      → KeepsDescription d.updated
      → OnOk (λ d'. IsAudited d' × KeepsDescription d'.updated) (amend_title input current title d)
  unfolding amend_title
  amend_title-IsAudited none d a same keep = (a, keep)
  amend_title-IsAudited (some title) d a same keep =
      let nt = trim_space title in
      let updated : Task = record (d.updated) { title = nt } in
      let audited : IsAudited (change input current field_title current.title nt updated d) =
        change-IsAudited field_title current.title nt updated d a (unfold put_field in refl)
          (unfold put_field in (λ i. record (d.updated) { title = sym same i })) in
      ground (arith, audited)

  amend_description-IsAudited :
      (description : Option Text) (d : Draft)
      → IsAudited d
      → KeepsDescription d.updated
      → let d' = amend_description input current description d in
        IsAudited d' × KeepsStatus d'.updated
  unfolding amend_description
  amend_description-IsAudited none d a keep = (a, keep.1)
  amend_description-IsAudited (some description) d a keep =
      let updated : Task = record (d.updated) { description = description } in
      let audited : IsAudited
          (change input current field_description current.description description updated d) =
        change-IsAudited field_description current.description description updated d a
          (unfold put_field in refl)
          (unfold put_field in (λ i. record (d.updated) { description = sym keep.0 i })) in
      ground (arith, audited)

  amend_status-IsAudited :
      (status : Option TaskStatus) (d : Draft)
      → IsAudited d
      → KeepsStatus d.updated
      → OnOk (λ d'. IsAudited d' × KeepsAssignee d'.updated) (amend_status input current status d)
  unfolding amend_status
  amend_status-IsAudited none d a keep = (a, keep.1)
  amend_status-IsAudited (some status) d a keep =
      let updated : Task = record (d.updated) { status = status } in
      let audited : IsAudited (change input current field_status current.status status updated d) =
        change-IsAudited field_status current.status status updated d a (unfold put_field in refl)
          (unfold put_field in (λ i. record (d.updated) { status = sym keep.0 i })) in
      ground (arith, audited)

  assign_to-IsAudited :
      (new : Option ℤ) (d : Draft)
      → IsAudited d
      → KeepsAssignee d.updated
      → IsAssignee current.assignee_id
      → IsAssignee new
      → IsAudited (
          change input current field_assignee
            (print_assignee current.assignee_id)
            (print_assignee new)
            (record (d.updated) { assignee_id = new })
            d)
  assign_to-IsAudited new d a keep old_fits new_fits =
      change-IsAudited field_assignee (print_assignee current.assignee_id) (print_assignee new)
        (record (d.updated) { assignee_id = new }) d a
        (unfold put_field in
          (λ i. record (d.updated) { assignee_id = read_assignee-print_assignee new new_fits i }))
        (unfold put_field in
          (λ i. record (d.updated) {
            assignee_id = (read_assignee-print_assignee current.assignee_id old_fits ∙ sym keep) i;
          }))

  amend_assignee-IsAudited :
      (unset : Bool) (new : Option ℤ) (d : Draft)
      → IsAudited d
      → KeepsAssignee d.updated
      → IsAssignee current.assignee_id
      → IsAssignee new
      → IsAudited (amend_assignee input current unset new d)
  unfolding amend_assignee
  amend_assignee-IsAudited unset new d a keep old_fits new_fits = ground (
    arith,
    assign_to-IsAudited none d a keep old_fits tt,
    assign_to-IsAudited new d a keep old_fits new_fits,
  )

amend-IsAudited :
    (input : UpdateTaskInput) (current : Task)
    → IsAssignee current.assignee_id
    → IsAssignee input.assignee_id
    → OnOk (IsAudited input current) (amend input current)
unfolding amend replay rewind
amend-IsAudited input current old_fits new_fits =
    OnOk-bind (λ d. IsAudited input current d × KeepsDescription input current d.updated)
      (IsAudited input current) (amend_title input current input.title start) _
      (amend_title-IsAudited input current input.title start
        (record { forward = refl; backward = refl }) refl (refl, (refl, refl)))
      (λ d p.
        let described = amend_description-IsAudited input current input.description d p.0 p.1 in
        OnOk-bind (λ d'. IsAudited input current d' × KeepsAssignee input current d'.updated)
          (IsAudited input current) (amend_status input current input.status _) _
          (amend_status-IsAudited input current input.status _ described.0 described.1)
          (λ d' q.
            amend_assignee-IsAudited input current input.unset_assign input.assignee_id d' q.0 q.1
              old_fits new_fits))
  where
    start : Draft
    start = record { updated = current; history = [] }

-- An accepted request comes with a history that leads from the stored task to the amended one when its
-- new values are applied in order, and from the amended task back to the stored one when its old values
-- are put back in reverse order. Both assignees are int64 numbers or absent.
pub amend-replay :
    (input : UpdateTaskInput) (current : Task) {d : Draft}
    → IsAssignee current.assignee_id
    → IsAssignee input.assignee_id
    → amend input current ≡ ok d
    → (replay d.history current ≡ d.updated) × (rewind d.history d.updated ≡ current)
amend-replay input current {d} old_fits new_fits e =
    let audited =
      OnOk-ok (IsAudited input current) (amend input current)
        (amend-IsAudited input current old_fits new_fits) e in
    (audited.forward, audited.backward)
