-- ===== src/Service/Task/Listing.antt =====
-- `normalizeFilter`, and what the cache may and may not do to the answers of `TaskService`.
use secunda_test.Base.{Option, none, some, List, ◌≡◌, ◌⊎◌, ap, ◌∙◌, ℤ, pos, ◌≤ℤ◌, arith, inl, inr}
use secunda_test.Errors.{GoError}
use secunda_test.Errors.Action.{Result, ok, err, Outcome-cases, after-eq-ok}
use secunda_test.Domain.{Task, TaskFilter, TeamMember}
use secunda_test.Cache.Keys.{tasks_key}
use secunda_test.Cache.Keys.Laws.{IsProper}
use secunda_test.Service.Task.{
  TaskService, cache_get_failed, normalize_filter, require_member, load, serve, list,
}

-- A page of one to a hundred tasks, from a place that is no negative number.
pub record IsPage (f : TaskFilter) : Type 0 where
  pub at_least : pos 1 ≤ℤ f.limit
  pub at_most : f.limit ≤ℤ pos 100
  pub from : pos 0 ≤ℤ f.offset

-- Whatever limit and offset a request asks for, the normalised filter is a page, for the same team,
-- status and assignee.
pub normalize_filter-IsPage :
    (f : TaskFilter)
    → IsPage (normalize_filter f)
      × ((normalize_filter f).team_id ≡ f.team_id)
      × ((normalize_filter f).status ≡ f.status)
      × ((normalize_filter f).assignee_id ≡ f.assignee_id)
unfolding normalize_filter
normalize_filter-IsPage f = ground arith

-- A filter that is a page already is left as it is.
pub normalize_filter_of_IsPage : (f : TaskFilter) → IsPage f → normalize_filter f ≡ f
unfolding normalize_filter
normalize_filter_of_IsPage f p = ground arith

-- Normalising a proper filter gives a proper filter, for which the cache key is exact.
pub normalize_filter-IsProper : (f : TaskFilter) → IsProper f → IsProper (normalize_filter f)
unfolding normalize_filter
normalize_filter-IsProper f p = record {
  team = p.team;
  status = p.status;
  assignee = p.assignee;
  limit = let fits = p.limit in ground arith;
  offset = let fits = p.offset in ground arith;
}

module _ {W : Type 0} (s : TaskService W) where
  load-inversion :
      (f : TaskFilter) (w : W) {ts : List Task} {w' : W}
      → load s f w ≡ (ok ts, w')
      → (w1 : W) × (s.tasks.list f w ≡ (ok ts, w1))
  unfolding load
  load-inversion f w {ts} h =
      let (found, w1, queried, rest) = after-eq-ok _ (s.tasks.list f w) h in
      elim (Outcome-cases (s.cache.set_tasks (tasks_key f) found w1)) [
        | inl (_, w2, e) ↦ (w1, queried ∙ ap (λ l. (ok l, w1)) (ground (arith, e, rest)))
        | inr (x, w2, e) ↦ (w1, queried ∙ ap (λ l. (ok l, w1)) (ground (arith, e, rest)))
      ]

  -- A failing cache write is logged and does not change what a query answers.
  load-answer : (f : TaskFilter) (w : W) → (load s f w).0 ≡ (s.tasks.list f w).0
  unfolding load
  load-answer f w = elim (Outcome-cases (s.tasks.list f w)) [
    | inr (x, w1, e) ↦ rw e
    | inl (found, w1, e) ↦ elim (Outcome-cases (s.cache.set_tasks (tasks_key f) found w1)) [
      | inl (_, w2, e') ↦ rw (e, e')
      | inr (x, w2, e') ↦ rw (e, e')
    ]
  ]

  serve-inversion :
      (f : TaskFilter) (cached : Result (Option (List Task))) (w : W) {ts : List Task} {w' : W}
      → serve s f cached w ≡ (ok ts, w')
      → (cached ≡ ok (some ts)) ⊎ ((w1 : W) × (w2 : W) × (s.tasks.list f w1 ≡ (ok ts, w2)))
  unfolding serve
  serve-inversion f (ok none) w h = let (w2, e) = load-inversion f w h in inr (w, w2, e)
  serve-inversion f (ok (some cached)) w h = inl (ground arith)
  serve-inversion f (err x) w h = let (w2, e) = load-inversion f _ h in inr (_, w2, e)

  -- Every list that is answered is either what the cache held under the key of the normalised filter,
  -- or what the repository answered to the normalised filter.
  pub list-answer :
      (f : TaskFilter) (actor : ℤ) (w : W) {ts : List Task} {w' : W}
      → list s f actor w ≡ (ok ts, w')
      → ((w1 : W) × (w2 : W) × (s.cache.get_tasks (tasks_key (normalize_filter f)) w1
            ≡ (ok (some ts), w2)))
        ⊎ ((w1 : W) × (w2 : W) × (s.tasks.list (normalize_filter f) w1 ≡ (ok ts, w2)))
  unfolding list
  list-answer f actor w {ts} {w'} h =
      let (_, w1, _, rest) = after-eq-ok _ (require_member s f.team_id actor w) h in
      elim (Outcome-cases (s.cache.get_tasks (tasks_key (normalize_filter f)) w1)) [
        | inr (x, w2, e) ↦
            ground (arith, serve-inversion (normalize_filter f) (err x) w2 (rw e at rest))
        | inl (o, w2, e) ↦ elim (serve-inversion (normalize_filter f) (ok o) w2 (rw e at rest)) [
          | inl same ↦ inl (w1, w2, ground (arith, e, same))
          | inr queried ↦ inr queried
        ]
      ]

  -- A cache that cannot be read costs a member nothing but the speed: `List` answers, success or error,
  -- what the repository answers to the normalised filter, whether or not the list can be cached.
  pub list-cache_failure :
      (f : TaskFilter) (actor : ℤ) (m : TeamMember) (x : GoError) (w w1 w2 : W)
      → s.teams.get_member f.team_id actor w ≡ (ok m, w1)
      → s.cache.get_tasks (tasks_key (normalize_filter f)) w1 ≡ (err x, w2)
      → (list s f actor w).0
        ≡ (s.tasks.list (normalize_filter f) (s.warn (cache_get_failed x) w2)).0
  unfolding list require_member serve
  list-cache_failure f actor m x w w1 w2 member broken =
      rw (member, broken) (load-answer (normalize_filter f) (s.warn (cache_get_failed x) w2))
