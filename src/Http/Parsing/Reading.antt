-- ===== src/Http/Parsing/Reading.antt =====
-- Which filter a query of `ListTasks` stands for, and which queries stand for none.
use secunda_test.Base.{
  true, Option, none, some, [], ◌∷◌, ◌≡◌, refl, sym, ap, ◌∙◌, ℤ, pos, ◌≤ℤ◌, arith, inl, inr, ◌⊎◌,
  subst,
}
use secunda_test.Text.{Text, codes}
use secunda_test.Text.Decimal.{parse_int}
use secunda_test.Errors.{GoError}
use secunda_test.Errors.Action.{ok}
use secunda_test.Errors.Outcome.{bind-ok}
use secunda_test.Domain.{TaskStatus, TaskFilter, status_valid}
use secunda_test.Http.Parsing.{
  ListQuery, validation_err, positive_or, atoi_default, or_default, read_status, read_assignee,
  given_or, list_filter,
}

-- What the texts of a query stand for. A missing status or assignee is no condition; a limit or an offset that
-- is no number is 0.
abbrev StatusRead : Text → Option TaskStatus → Type 0
StatusRead s none = s ≡ []
StatusRead s (some status) = (status ≡ s) × (¬ (s ≡ [])) × (status_valid s ≡ true)

abbrev AssigneeRead : Text → Option ℤ → Type 0
AssigneeRead a none = a ≡ []
AssigneeRead a (some n) = (¬ (a ≡ [])) × (parse_int a ≡ some n)

abbrev NumberRead : Text → ℤ → Type 0
NumberRead s n = (parse_int s ≡ some n) ⊎ ((parse_int s ≡ none) × (n ≡ pos 0))

pub record IsRead (q : ListQuery) (f : TaskFilter) : Type 0 where
  pub team : parse_int q.team_id ≡ some f.team_id
  pub positive : pos 1 ≤ℤ f.team_id
  pub status : StatusRead q.status f.status
  pub assignee : AssigneeRead q.assignee_id f.assignee_id
  pub limit : NumberRead q.limit f.limit
  pub offset : NumberRead q.offset f.offset

positive_or-ok :
    (e : GoError) (o : Option ℤ) (n : ℤ) → positive_or e o ≡ ok n → (o ≡ some n) × (pos 1 ≤ℤ n)
positive_or-ok e none n h = absurd (ground arith)
positive_or-ok e (some k) n h = ground arith

positive_or_of : (e : GoError) (n : ℤ) → pos 1 ≤ℤ n → positive_or e (some n) ≡ ok n
positive_or_of e n h = ground arith

read_status-ok : (s : Text) (o : Option TaskStatus) → read_status s ≡ ok o → StatusRead s o
unfolding read_status
read_status-ok [] none h = refl
read_status-ok [] (some st) h = absurd (ground arith)
read_status-ok (c ∷ s) none h = absurd (ground arith)
read_status-ok (c ∷ s) (some st) h = (ground arith, (λ e. ground arith), ground arith)

read_status_of : (s : Text) (o : Option TaskStatus) → StatusRead s o → read_status s ≡ ok o
unfolding read_status
read_status_of [] none h = refl
read_status_of (c ∷ s) none h = absurd (ground arith)
read_status_of [] (some st) (same, given, known) = absurd (given refl)
read_status_of (c ∷ s) (some st) (same, given, known) = rw known (ap (λ x. ok (some x)) (sym same))

given_or-ok :
    (e : GoError) (p o : Option ℤ) → given_or e p ≡ ok o → (n : ℤ) × (o ≡ some n) × (p ≡ some n)
given_or-ok e none o h = absurd (ground arith)
given_or-ok e (some n) o h = (n, ground arith, refl)

read_assignee-ok : (a : Text) (o : Option ℤ) → read_assignee a ≡ ok o → AssigneeRead a o
unfolding read_assignee
read_assignee-ok [] none h = refl
read_assignee-ok [] (some n) h = absurd (ground arith)
read_assignee-ok (c ∷ a) o h =
    let (n, given, good) = given_or-ok _ (parse_int (c ∷ a)) o h in
    subst (AssigneeRead (c ∷ a)) (sym given) ((λ e. ground arith), good)

read_assignee_of : (a : Text) (o : Option ℤ) → AssigneeRead a o → read_assignee a ≡ ok o
unfolding read_assignee
read_assignee_of [] none h = refl
read_assignee_of (c ∷ a) none h = absurd (ground arith)
read_assignee_of [] (some n) (given, good) = absurd (given refl)
read_assignee_of (c ∷ a) (some n) (given, good) = rw good

or_default-cases :
    (o : Option ℤ)
    → (o ≡ some (or_default (pos 0) o)) ⊎ ((o ≡ none) × (or_default (pos 0) o ≡ pos 0))
or_default-cases none = inr (refl, refl)
or_default-cases (some n) = inl refl

parse_int_of_nothing : parse_int [] ≡ none
unfolding parse_int
parse_int_of_nothing = refl

atoi_default-NumberRead : (s : Text) → NumberRead s (atoi_default s (pos 0))
unfolding atoi_default
atoi_default-NumberRead [] = inr (parse_int_of_nothing, refl)
atoi_default-NumberRead (c ∷ s) = or_default-cases (parse_int (c ∷ s))

-- A text stands for one number.
numbers_agree : (s : Text) (n k : ℤ) → NumberRead s n → NumberRead s k → n ≡ k
numbers_agree s n k (inl h) (inl g) = ground (arith, h, g)
numbers_agree s n k (inl h) (inr g) = absurd (ground (arith, h, g))
numbers_agree s n k (inr h) (inl g) = absurd (ground (arith, h, g))
numbers_agree s n k (inr h) (inr g) = h.1 ∙ sym g.1

-- A filter comes out of a query exactly when the query stands for it.
pub list_filter-IsRead : (q : ListQuery) (f : TaskFilter) → list_filter q ≡ ok f → IsRead q f
unfolding list_filter
list_filter-IsRead q f h =
    let (team, read_team, h1) = bind-ok (positive_or _ (parse_int q.team_id)) _ h in
    let (status, status_ok, h2) = bind-ok (read_status q.status) _ h1 in
    let (assignee, assignee_ok, h3) = bind-ok (read_assignee q.assignee_id) _ h2 in
    let (parsed, positive) = positive_or-ok _ (parse_int q.team_id) team read_team in
    let built : record {
      team_id = team;
      status = status;
      assignee_id = assignee;
      limit = atoi_default q.limit (pos 0);
      offset = atoi_default q.offset (pos 0);
    }
        ≡ f =
      ground (arith, h3) in
    subst (IsRead q) built (record {
      team = parsed;
      positive = positive;
      status = read_status-ok q.status status status_ok;
      assignee = read_assignee-ok q.assignee_id assignee assignee_ok;
      limit = atoi_default-NumberRead q.limit;
      offset = atoi_default-NumberRead q.offset;
    })

pub list_filter_of_IsRead : (q : ListQuery) (f : TaskFilter) → IsRead q f → list_filter q ≡ ok f
unfolding list_filter
list_filter_of_IsRead q f r =
    let limit = numbers_agree q.limit _ _ (atoi_default-NumberRead q.limit) r.limit in
    let offset = numbers_agree q.offset _ _ (atoi_default-NumberRead q.offset) r.offset in
    rw
      (
        r.team,
        positive_or_of (validation_err (codes "team_id is required")) f.team_id r.positive,
        read_status_of q.status f.status r.status,
        read_assignee_of q.assignee_id f.assignee_id r.assignee,
        limit,
        offset,
      )
      refl
