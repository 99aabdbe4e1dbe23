-- ===== src/Http/Parsing.antt =====
-- What internal/transport/http/handlers.go reads from a path and a query.
pub mod Laws
pub mod Reading
use secunda_test.Base.{
  Bool, true, false, Option, none, some, ◌++◌, ℤ, pos, leb_ℤ, if◌then◌else◌, not,
}
use secunda_test.Text.{Text, codes, is_empty}
use secunda_test.Text.Decimal.{parse_int}
use secunda_test.Errors.{GoError, field_error}
use secunda_test.Errors.Action.{Result, ok, err}
use secunda_test.Errors.Outcome.{◌>>=◌}
use secunda_test.Domain.{TaskStatus, TaskFilter, status_valid}

-- `validationErr`
abbrev pub validation_err : Text → GoError
validation_err m = field_error m

-- A number that is parsed and positive, or the error.
abbrev pub positive_or : GoError → Option ℤ → Result ℤ
positive_or e none = err e
positive_or e (some n) = if leb_ℤ n (pos 0) then err e else ok n

-- `pathInt`, on the value of the path's parameter.
unfoldable pub path_int : Text → Text → Result ℤ
path_int key value = positive_or (validation_err (codes "invalid " ++ key)) (parse_int value)

abbrev pub or_default : ℤ → Option ℤ → ℤ
or_default default none = default
or_default default (some n) = n

unfoldable pub atoi_default : Text → ℤ → ℤ
atoi_default s default = if is_empty s then default else or_default default (parse_int s)

-- The values of the query that `ListTasks` reads; a missing one is "".
pub record ListQuery : Type 0 where
  pub team_id : Text
  pub status : Text
  pub assignee_id : Text
  pub limit : Text
  pub offset : Text

unfoldable pub read_status : Text → Result (Option TaskStatus)
read_status s =
    if is_empty s
    then ok none
    else if not (status_valid s)
    then err (validation_err (codes "invalid status"))
    else ok (some s)

abbrev pub given_or : GoError → Option ℤ → Result (Option ℤ)
given_or e none = err e
given_or e (some n) = ok (some n)

unfoldable pub read_assignee : Text → Result (Option ℤ)
read_assignee a =
    if is_empty a
    then ok none
    else given_or (validation_err (codes "invalid assignee_id")) (parse_int a)

-- The filter that `ListTasks` builds.
unfoldable pub list_filter : ListQuery → Result TaskFilter
unfolding read_status read_assignee atoi_default
list_filter q = do
  team_id ← positive_or (validation_err (codes "team_id is required")) (parse_int q.team_id)
  status ← read_status q.status
  assignee_id ← read_assignee q.assignee_id
  ok (record {
    team_id = team_id;
    status = status;
    assignee_id = assignee_id;
    limit = atoi_default q.limit (pos 0);
    offset = atoi_default q.offset (pos 0);
  })
