-- ===== src/Http/Parsing/Laws.antt =====
-- Only numbers of int64 and known statuses come out of a request.
use secunda_test.Base.{Option, none, some, [], ◌∷◌, ◌≡◌, ℤ, pos, ◌≤ℤ◌, IsInt64, arith}
use secunda_test.Text.{Text}
use secunda_test.Text.Decimal.{parse_int}
use secunda_test.Text.Decimal.RoundTrip.{IsParsed, parse_int-IsParsed}
use secunda_test.Errors.{GoError}
use secunda_test.Errors.Action.{ok}
use secunda_test.Errors.Outcome.{OnOk, OnOk-bind, OnOk-ok}
use secunda_test.Domain.{TaskFilter}
use secunda_test.Cache.Keys.Laws.{IsKnown, IsNumber, IsProper}
use secunda_test.Http.Parsing.{
  ListQuery, positive_or, atoi_default, or_default, read_status, read_assignee, given_or,
  list_filter,
}

positive_or-OnOk :
    (e : GoError) (o : Option ℤ)
    → IsParsed o
    → OnOk (λ n. IsInt64 n × (pos 1 ≤ℤ n)) (positive_or e o)
positive_or-OnOk e none h = tt
positive_or-OnOk e (some n) h = ground arith

or_default-IsInt64 :
    (default : ℤ) (o : Option ℤ) → IsInt64 default → IsParsed o → IsInt64 (or_default default o)
or_default-IsInt64 default none d h = d
or_default-IsInt64 default (some n) d h = h

atoi_default-IsInt64 : (s : Text) → IsInt64 (atoi_default s (pos 0))
unfolding atoi_default
atoi_default-IsInt64 s =
    let zero_fits : IsInt64 (pos 0) = omega arith in
    ground (arith, or_default-IsInt64 (pos 0) (parse_int s) zero_fits (parse_int-IsParsed s))

read_status-OnOk : (s : Text) → OnOk IsKnown (read_status s)
unfolding read_status
read_status-OnOk s = ground arith

given_or-OnOk : (e : GoError) (o : Option ℤ) → IsParsed o → OnOk IsNumber (given_or e o)
given_or-OnOk e none h = tt
given_or-OnOk e (some n) h = h

read_assignee-OnOk : (a : Text) → OnOk IsNumber (read_assignee a)
unfolding read_assignee
read_assignee-OnOk [] = tt
read_assignee-OnOk (c ∷ a) = given_or-OnOk _ (parse_int (c ∷ a)) (parse_int-IsParsed (c ∷ a))

list_filter-OnOk : (q : ListQuery) → OnOk (λ f. IsProper f × (pos 1 ≤ℤ f.team_id)) (list_filter q)
unfolding list_filter
list_filter-OnOk q =
    OnOk-bind (λ n. IsInt64 n × (pos 1 ≤ℤ n)) _ (positive_or _ (parse_int q.team_id)) _
      (positive_or-OnOk _ (parse_int q.team_id) (parse_int-IsParsed q.team_id))
      (λ team t.
        OnOk-bind IsKnown _ (read_status q.status) _ (read_status-OnOk q.status) (λ status s.
          OnOk-bind IsNumber _ (read_assignee q.assignee_id) _ (read_assignee-OnOk q.assignee_id)
            (λ assignee a. (
              record {
                team = t.0;
                status = s;
                assignee = a;
                limit = atoi_default-IsInt64 q.limit;
                offset = atoi_default-IsInt64 q.offset;
              },
              t.1,
            ))))

-- Every filter that comes out of a query has a positive team, a known status, and numbers of int64
-- throughout, so that its cache key is exact.
pub list_filter-IsProper :
    (q : ListQuery) {f : TaskFilter} → list_filter q ≡ ok f → IsProper f × (pos 1 ≤ℤ f.team_id)
list_filter-IsProper q e = OnOk-ok _ (list_filter q) (list_filter-OnOk q) e
