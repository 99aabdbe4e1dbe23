-- ===== src/Cache/Keys/Laws.antt =====
-- The cache keys name their filters: a key tells the team that it belongs to, and two filters with
-- one key are one filter.
use mathlib.Core.List.{append_cancel_left}
use secunda_test.Base.{
  suc, ◌≡◌, ◌≢◌, refl, sym, ap, true, Option, none, some, [], ◌∷◌, ◌++◌, ℤ, pos, negsuc, arith,
  length, take-append_left, All, IsInt64, inl, inr,
}
use secunda_test.Text.{Text, codes, has_prefix, index_byte}
use secunda_test.Text.Decimal.{format_int, format_nat, parse_int}
use secunda_test.Text.Decimal.RoundTrip.{IsDigit, format_nat-All, parse_int-format_int}
use secunda_test.Domain.{TaskFilter, TaskStatus, status_valid, status_valid_iff}
use secunda_test.Cache.Keys.{
  team_set_key, key_prefix, status_part, assignee_part, tasks_key, id_before_colon,
  team_id_from_key,
}

abbrev pub NoColon : Text → Type 0
NoColon = All (λ c. c ≢ b':')

NoColon-of_digits : (s : Text) → All IsDigit s → NoColon s
NoColon-of_digits [] h = tt
NoColon-of_digits (c ∷ s) (d, h) = ((λ e. absurd (omega arith)), NoColon-of_digits s h)

pub format_int-NoColon : (n : ℤ) → NoColon (format_int n)
unfolding format_int
format_int-NoColon (pos n) = NoColon-of_digits (format_nat n) (format_nat-All n)
format_int-NoColon (negsuc n) =
    ((λ e. absurd (omega arith)), NoColon-of_digits (format_nat (suc n)) (format_nat-All (suc n)))

index_byte-append : (p r : Text) → NoColon p → index_byte (p ++ b':' ∷ r) b':' ≡ some (length p)
unfolding index_byte
index_byte-append [] r h = refl
index_byte-append (c ∷ p) r (n, h) = ground (arith, index_byte-append p r h)

-- The first colon splits a text in one way.
colon_split :
    (p q r s : Text) → NoColon p → NoColon q → p ++ b':' ∷ r ≡ q ++ b':' ∷ s → (p ≡ q) × (r ≡ s)
colon_split [] [] r s h k e = (refl, cc)
colon_split [] (d ∷ q) r s h k e = ground arith
colon_split (c ∷ p) [] r s h k e = ground arith
colon_split (c ∷ p) (d ∷ q) r s h k e =
    let (same, rest) = colon_split p q r s h.1 k.1 (cc) in (cc, rest)

id_before_colon-append :
    (team : ℤ) (r : Text) → IsInt64 team → id_before_colon (format_int team ++ b':' ∷ r) ≡ team
unfolding id_before_colon
id_before_colon-append team r fits = rw (
  index_byte-append (format_int team) r (format_int-NoColon team),
  take-append_left (format_int team) (b':' ∷ r),
  parse_int-format_int team fits,
  id_before_colon,
)

-- The team that `SetTasks` reads off a task-list key is the filter's own, so the key is registered in
-- the set that `InvalidateTeam` empties for that team. The team is an int64 number.
pub team_id_from_key-tasks_key :
    (f : TaskFilter) → IsInt64 f.team_id → team_id_from_key (tasks_key f) ≡ f.team_id
unfolding team_id_from_key tasks_key has_prefix
team_id_from_key-tasks_key f fits = id_before_colon-append f.team_id _ fits

pub format_int_inj : (a b : ℤ) → IsInt64 a → IsInt64 b → format_int a ≡ format_int b → a ≡ b
format_int_inj a b p q e =
    ground (arith, parse_int-format_int a p, parse_int-format_int b q, ap parse_int e)

abbrev pub IsKnown : Option TaskStatus → Type 0
IsKnown none = Unit
IsKnown (some s) = status_valid s ≡ true

abbrev pub IsNumber : Option ℤ → Type 0
IsNumber none = Unit
IsNumber (some a) = IsInt64 a

-- A filter as the handlers build it: numbers of int64, and a status that is known.
pub record IsProper (f : TaskFilter) : Type 0 where
  pub team : IsInt64 f.team_id
  pub status : IsKnown f.status
  pub assignee : IsNumber f.assignee_id
  pub limit : IsInt64 f.limit
  pub offset : IsInt64 f.offset

status_valid-NoColon : (s : TaskStatus) → status_valid s ≡ true → NoColon s × (s ≢ codes "all")
status_valid-NoColon s h = elim ((status_valid_iff s).0 h) [
  | inl (inl e) ↦ rw e (omega arith, (ground arith))
  | inl (inr e) ↦ rw e (omega arith, (ground arith))
  | inr e ↦ rw e (omega arith, (ground arith))
]

status_part-NoColon : (o : Option TaskStatus) → IsKnown o → NoColon (status_part o)
status_part-NoColon none h = omega arith
status_part-NoColon (some s) h = (status_valid-NoColon s h).0

status_part_inj :
    (a b : Option TaskStatus) → IsKnown a → IsKnown b → status_part a ≡ status_part b → a ≡ b
status_part_inj none none p q e = refl
status_part_inj none (some s) p q e = absurd ((status_valid-NoColon s q).1 (sym e))
status_part_inj (some s) none p q e = absurd ((status_valid-NoColon s p).1 e)
status_part_inj (some s) (some t) p q e = ap some e

assignee_part-NoColon : (o : Option ℤ) → NoColon (assignee_part o)
assignee_part-NoColon none = omega arith
assignee_part-NoColon (some a) = format_int-NoColon a

format_int-ne-all : (a : ℤ) → IsInt64 a → format_int a ≢ codes "all"
unfolding parse_int
format_int-ne-all a h e = ground (arith, parse_int-format_int a h, ap parse_int e)

assignee_part_inj :
    (a b : Option ℤ) → IsNumber a → IsNumber b → assignee_part a ≡ assignee_part b → a ≡ b
assignee_part_inj none none p q e = refl
assignee_part_inj none (some b) p q e = absurd (format_int-ne-all b q (sym e))
assignee_part_inj (some a) none p q e = absurd (format_int-ne-all a p e)
assignee_part_inj (some a) (some b) p q e = ap some (format_int_inj a b p q e)

-- Two proper filters with the same cache key are the same filter, so a cached list is only ever
-- answered to the query that it was stored for.
pub tasks_key_inj : (f g : TaskFilter) → IsProper f → IsProper g → tasks_key f ≡ tasks_key g → f ≡ g
unfolding tasks_key
tasks_key_inj f g p q e =
    let (team, e1) =
      colon_split (format_int f.team_id) (format_int g.team_id) _ _ (format_int-NoColon _)
        (format_int-NoColon _) (append_cancel_left key_prefix _ _ e) in
    let (status, e2) =
      colon_split (status_part f.status) (status_part g.status) _ _
        (status_part-NoColon f.status p.status) (status_part-NoColon g.status q.status)
        (append_cancel_left (codes "status:") _ _ e1) in
    let (assignee, e3) =
      colon_split (assignee_part f.assignee_id) (assignee_part g.assignee_id) _ _
        (assignee_part-NoColon f.assignee_id) (assignee_part-NoColon g.assignee_id)
        (append_cancel_left (codes "assignee:") _ _ e2) in
    let (limit, e4) =
      colon_split (format_int f.limit) (format_int g.limit) _ _ (format_int-NoColon _)
        (format_int-NoColon _) (append_cancel_left (codes "limit:") _ _ e3) in
    let offset = append_cancel_left (codes "offset:") _ _ e4 in
    ground (
      arith,
      format_int_inj f.team_id g.team_id p.team q.team team,
      status_part_inj f.status g.status p.status q.status status,
      assignee_part_inj f.assignee_id g.assignee_id p.assignee q.assignee assignee,
      format_int_inj f.limit g.limit p.limit q.limit limit,
      format_int_inj f.offset g.offset p.offset q.offset offset,
    )

-- No list is cached under the key of a team's set.
pub tasks_key-team_set_key : (f : TaskFilter) (t : ℤ) → tasks_key f ≢ team_set_key t
unfolding tasks_key team_set_key
tasks_key-team_set_key f t e =
    let (_, rest) =
      colon_split (format_int f.team_id) (format_int t) _ _ (format_int-NoColon f.team_id)
        (format_int-NoColon t) (append_cancel_left key_prefix _ _ e) in
    ground (arith, rest)
