-- ===== src/Http/Handlers/Statuses.antt =====
-- What a client is answered, handler by handler.
use secunda_test.Base.{◌≡◌, refl, ◌⊎◌, inl, inr, true, Option, none, some, ℤ, arith, ◌∙◌}
use secunda_test.Text.{Text, codes}
use secunda_test.Errors.{GoError, validation, is_error, message}
use secunda_test.Errors.Action.{Result, ok, err}
use secunda_test.Errors.Outcome.{OnErr, OnErr-bind}
use secunda_test.Domain.{TaskFilter}
use secunda_test.Service.Task
use secunda_test.Http.Response.{error_body, tasks_body, Reply, write_json, write_error, answer}
use secunda_test.Http.Response.Table.{write_error-sentinel_status}
use secunda_test.Http.Parsing.{
  ListQuery, path_int, list_filter, positive_or, read_status, read_assignee,
}
use secunda_test.Text.Decimal.{parse_int}
use secunda_test.Cache.Keys.Laws.{IsProper}
use secunda_test.Http.Parsing.Laws.{list_filter-IsProper}
use secunda_test.Http.Parsing.Reading.{IsRead, list_filter-IsRead, list_filter_of_IsRead}
use secunda_test.Http.Requests.{Request}
use secunda_test.Http.Handlers.{
  Handler, user_or_zero, decoded, parsed, register, login, create_team, invite_to_team, create_task,
  list_tasks, update_task,
}

-- The request was refused with 400 before any service was called.
abbrev pub IsRefused : {W : Type 0} → Reply × W → W → Type 0
IsRefused o w = (text : Text) × (o ≡ (write_json 400 (error_body text), w))

abbrev IsValidation : GoError → Type 0
IsValidation e = is_error e validation ≡ true

path_int-OnErr : (key value : Text) → OnErr IsValidation (path_int key value)
unfolding path_int is_error
path_int-OnErr key value = ground arith

positive_or-OnErr :
    (e : GoError) (o : Option ℤ) → IsValidation e → OnErr IsValidation (positive_or e o)
positive_or-OnErr e none h = h
positive_or-OnErr e (some n) h = ground arith

read_status-OnErr : (s : Text) → OnErr IsValidation (read_status s)
unfolding read_status is_error
read_status-OnErr s = ground arith

read_assignee-OnErr : (a : Text) → OnErr IsValidation (read_assignee a)
unfolding read_assignee is_error
read_assignee-OnErr a = ground arith

list_filter-OnErr : (q : ListQuery) → OnErr IsValidation (list_filter q)
unfolding list_filter is_error
list_filter-OnErr q =
    OnErr-bind IsValidation (positive_or _ (parse_int q.team_id)) _
      (positive_or-OnErr _ (parse_int q.team_id) refl)
      (λ team.
        OnErr-bind IsValidation (read_status q.status) _ (read_status-OnErr q.status) (λ status.
          OnErr-bind IsValidation (read_assignee q.assignee_id) _
            (read_assignee-OnErr q.assignee_id) (λ assignee. tt)))

module _ {W : Type 0} (h : Handler W) (r : Request) where
  write_error-IsRefused :
      (e : GoError) (w : W) → IsValidation e → IsRefused (write_error h.log e w) w
  write_error-IsRefused e w invalid =
      (message e, write_error-sentinel_status h.log e validation w invalid (omega arith))

  parsed-cases :
      {A : Type 0} (o : Result A) (k : A → W → Reply × W) (w : W)
      → OnErr IsValidation o
      → (IsRefused (parsed h r o k w) w × ((e : GoError) × (o ≡ err e)))
        ⊎ ((a : A) × (o ≡ ok a) × (parsed h r o k w ≡ k a w))
  parsed-cases (ok a) k w v = inr (a, refl, refl)
  parsed-cases (err e) k w v = inl (write_error-IsRefused e w v, (e, refl))

  -- `ListTasks` hands the service the filter that the query stands for, with a positive team, a known status if
  -- one is given, and numbers of int64, and answers what the service returns; or the query stands for no
  -- filter, and is refused with 400 before anything is read.
  pub list_tasks-IsProper :
      (w : W)
      → (IsRefused (list_tasks h r w) w × ¬ ((f : TaskFilter) × IsRead r.query f))
        ⊎ ((f : TaskFilter) × IsRead r.query f
            × IsProper f
            × (list_tasks h r w
                ≡ answer h.log 200 tasks_body (Task.list h.tasks f (user_or_zero r.user) w)))
  unfolding list_tasks
  list_tasks-IsProper w =
      elim (parsed-cases (list_filter r.query)
        (λ f v. answer h.log 200 tasks_body (Task.list h.tasks f (user_or_zero r.user) v)) w
        (list_filter-OnErr r.query)) [
          | inl (refused, (e, bad)) ↦
              inl (refused, λ (f, read). ground (arith, bad, list_filter_of_IsRead r.query f read))
          | inr (f, read, same) ↦
              inr
                (f, list_filter-IsRead r.query f read, (list_filter-IsProper r.query read).0, same)
        ]

  -- A body that the decoder of none of the requests takes.
  abbrev pub IsUnreadable : Type 0
  IsUnreadable =
      (h.decoders.register r.body ≡ none)
      × (h.decoders.login r.body ≡ none)
      × (h.decoders.create_team r.body ≡ none)
      × (h.decoders.invite r.body ≡ none)
      × (h.decoders.create_task r.body ≡ none)
      × (h.decoders.update_task r.body ≡ none)

  behind_path :
      {A : Type 0} (o : Option A) (k : ℤ → A → W → Reply × W) (w : W)
      → o ≡ none
      → IsRefused (parsed h r (path_int (codes "id") r.id_param) (λ n. decoded o (k n)) w) w
  behind_path o k w missing =
      elim (parsed-cases (path_int (codes "id") r.id_param) (λ n. decoded o (k n)) w
        (path_int-OnErr (codes "id") r.id_param)) [
          | inl (refused, _) ↦ refused
          | inr (n, read, same) ↦ (codes "invalid JSON body", same ∙ rw missing)
        ]

  -- Every handler that takes a body answers 400 to one that it cannot decode, and calls no service.
  pub handlers-refuse :
      (w : W)
      → IsUnreadable
      → IsRefused (register h r w) w
        × IsRefused (login h r w) w
        × IsRefused (create_team h r w) w
        × IsRefused (invite_to_team h r w) w
        × IsRefused (create_task h r w) w
        × IsRefused (update_task h r w) w
  unfolding register login create_team invite_to_team create_task update_task
  handlers-refuse w (no_register, no_login, no_team, no_invite, no_task, no_update) = (
    (codes "invalid JSON body", rw no_register),
    (codes "invalid JSON body", rw no_login),
    (codes "invalid JSON body", rw no_team),
    behind_path (h.decoders.invite r.body) _ w no_invite,
    (codes "invalid JSON body", rw no_task),
    behind_path (h.decoders.update_task r.body) _ w no_update,
  )
