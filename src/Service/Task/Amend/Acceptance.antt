-- ===== src/Service/Task/Amend/Acceptance.antt =====
-- Which update requests are accepted, and how the others fail.
use secunda_test.Base.{true, false, Option, none, some, [], ◌≡◌, arith, inl, inr}
use secunda_test.Text.{Text, is_empty, trim_space}
use secunda_test.Errors.{validation, is_error, is_error-detailed}
use secunda_test.Errors.Action.{Result, ok, err, Result-cases}
use secunda_test.Domain.{Task, TaskStatus, status_valid}
use secunda_test.Service.Task.Amend.{
  UpdateTaskInput, Draft, amend_title, amend_description, amend_status, amend,
}

-- A title that is given is not blank.
abbrev pub HasTitle : Option Text → Type 0
HasTitle none = Unit
HasTitle (some t) = is_empty (trim_space t) ≡ false

-- A status that is given is one of the three.
abbrev pub HasStatus : Option TaskStatus → Type 0
HasStatus none = Unit
HasStatus (some s) = status_valid s ≡ true

abbrev pub Accepts : Type 0 → Type 0 → Result Draft → Type 0
Accepts P Q (ok d) = P × Q
Accepts P Q (err e) = (is_error e validation ≡ true) × ¬ (P × Q)

module _ (input : UpdateTaskInput) (current : Task) where
  amend_title-Accepts :
      (title : Option Text) (d : Draft)
      → Accepts (HasTitle title) Unit (amend_title input current title d)
  unfolding amend_title
  amend_title-Accepts none d = (tt, tt)
  amend_title-Accepts (some title) d =
      ground (arith, is_error-detailed validation "title cannot be empty" validation)

  amend_status-Accepts :
      (status : Option TaskStatus) (d : Draft)
      → Accepts (HasStatus status) Unit (amend_status input current status d)
  unfolding amend_status
  amend_status-Accepts none d = (tt, tt)
  amend_status-Accepts (some status) d =
      ground (arith, is_error-detailed validation "invalid status" validation)

  -- A request is accepted exactly when a title that it gives is not blank and a status that it gives
  -- is a known one; every other request fails with a validation error.
  pub amend-Accepts : Accepts (HasTitle input.title) (HasStatus input.status) (amend input current)
  unfolding amend
  amend-Accepts =
      let start : Draft = record { updated = current; history = [] } in
      elim (Result-cases (amend_title input current input.title start)) [
        | inr (e, bad) ↦ rw bad (ground (arith, amend_title-Accepts input.title start))
        | inl (d, good) ↦ rw good (
            ground (
              arith,
              amend_title-Accepts input.title start,
              amend_status-Accepts input.status
                  (amend_description input current input.description d),
            ))
      ]
