-- ===== src/Http/Router/Laws.antt =====
-- What holds of every route.
use secunda_test.Base.{◌≡◌, refl, true, false, some, subst, ℤ, ap, ◌∙◌}
use secunda_test.Text.{Text, codes, text_eq_iff}
use secunda_test.Http.Response.{error_body, Response, respond, panicked, write_json}
use secunda_test.Http.Requests.{Request}
use secunda_test.Http.Middleware.{Buckets, rate_limit, take_event}
use secunda_test.Http.Middleware.Gate.{IsAccepted, auth-refuses, auth-admits}
use secunda_test.Http.Middleware.Limits.{rate_limit-allows}
use secunda_test.Http.Metrics.{Metrics, metered, count, labels_of}
use secunda_test.Http.Router.{
  Endpoint, healthz, metrics_page, register, login, create_team, list_teams, invite_to_team,
  create_task, list_tasks, update_task, task_history, team_stats, top_creators, integrity_issues,
  route_of, is_public, routes, allows, first_route, RouterDeps, Limited, handle, guarded, routed,
  endpoint_of, new_router,
}

of_literal :
    (literal method : Text) (e : Endpoint)
    → allows (some literal) method ≡ true
    → first_route literal (route_of e).1 routes ≡ some e
    → first_route method (route_of e).1 routes ≡ some e
unfolding allows
of_literal literal method e same found =
    subst (λ m. first_route m (route_of e).1 routes ≡ some e) ((text_eq_iff literal method).0 same)
      found

-- No route hides another: a request with a route's pattern and a method that the route takes is handled by
-- that route.
pub first_route-route_of :
    (e : Endpoint) (method : Text)
    → allows (route_of e).0 method ≡ true
    → first_route method (route_of e).1 routes ≡ some e
unfolding first_route route_of
first_route-route_of healthz method h = of_literal (codes "GET") method healthz h refl
first_route-route_of metrics_page method h = refl
first_route-route_of register method h = of_literal (codes "POST") method register h refl
first_route-route_of login method h = of_literal (codes "POST") method login h refl
first_route-route_of create_team method h = of_literal (codes "POST") method create_team h refl
first_route-route_of list_teams method h = of_literal (codes "GET") method list_teams h refl
first_route-route_of invite_to_team method h =
    of_literal (codes "POST") method invite_to_team h refl
first_route-route_of create_task method h = of_literal (codes "POST") method create_task h refl
first_route-route_of list_tasks method h = of_literal (codes "GET") method list_tasks h refl
first_route-route_of update_task method h = of_literal (codes "PUT") method update_task h refl
first_route-route_of task_history method h = of_literal (codes "GET") method task_history h refl
first_route-route_of team_stats method h = of_literal (codes "GET") method team_stats h refl
first_route-route_of top_creators method h = of_literal (codes "GET") method top_creators h refl
first_route-route_of integrity_issues method h =
    of_literal (codes "GET") method integrity_issues h refl

module _ {W : Type 0} (d : RouterDeps W) where
  -- The request names this route.
  abbrev pub Names : Request → Endpoint → Type 0
  Names r e = (r.pattern ≡ some (route_of e).1) × (allows (route_of e).0 r.method ≡ true)

  endpoint_of-some : (r : Request) (e : Endpoint) → Names r e → endpoint_of d r r.pattern ≡ some e
  unfolding endpoint_of
  endpoint_of-some r e (pattern, method) =
      ap (endpoint_of d r) pattern ∙ first_route-route_of e r.method method

  -- Without an accepted token a guarded route gives 401, and neither a handler nor a limiter has been
  -- reached: the world and the limiters are as they were, and the request is counted as 4xx.
  pub new_router-guards :
      (r : Request) (e : Endpoint) (w : W) (bs : Buckets d.limiters) (m : Metrics)
      → Names r e
      → is_public e ≡ false
      → ((user : ℤ) → ¬ (IsAccepted d.jwt d.tokens d.now r w user))
      → (message : Text) × (new_router d r ((w, bs), m)
          ≡ (write_json 401 (error_body message), ((w, bs), count (labels_of r) 401 m)))
  unfolding new_router metered routed guarded
  new_router-guards r e w bs m named kept refused =
      let (message, answer) =
        auth-refuses d.jwt d.tokens (λ (v, _). d.now v)
          (rate_limit d.limiters d.rate_limit_per_min d.now (handle d e)) r (w, bs) refused in
      (message, rw (endpoint_of-some r e named, kept, answer))

  -- A panic behind the routes is answered by `Recoverer`, and none of the three metrics has counted the
  -- request, although its status is then 500.
  pub new_router-panicked :
      (r : Request) (v v1 : Limited d) (m : Metrics)
      → routed d (endpoint_of d r r.pattern) r v ≡ (panicked, v1)
      → new_router d r (v, m) ≡ (respond d.recovered, (v1, m))
  unfolding new_router metered
  new_router-panicked r v v1 m h = rw h

  -- With an accepted token, and an event that the user's limiter allows, a guarded route answers what its
  -- handler answers to the request with that user in it; the limiters have moved by that one event, and
  -- the request is counted under the handler's status.
  pub new_router-admits :
      (r : Request) (e : Endpoint) (user : ℤ) (w w1 : W) (bs bs1 : Buckets d.limiters) (m : Metrics)
      (a : Response)
      → Names r e
      → is_public e ≡ false
      → IsAccepted d.jwt d.tokens d.now r w user
      → take_event d.limiters d.rate_limit_per_min (d.now w) user bs ≡ (true, bs1)
      → handle d e (record r { user = some user }) w ≡ (respond a, w1)
      → new_router d r ((w, bs), m) ≡ (respond a, ((w1, bs1), count (labels_of r) a.status m))
  unfolding new_router metered routed guarded
  new_router-admits r e user w w1 bs bs1 m a named kept accepted allowed handled =
      let admitted =
        auth-admits d.jwt d.tokens (λ (v, _). d.now v)
          (rate_limit d.limiters d.rate_limit_per_min d.now (handle d e)) r (w, bs) user accepted in
      let limited =
        rate_limit-allows d.limiters d.rate_limit_per_min d.now (handle d e)
          (record r { user = some user }) w bs user refl allowed handled in
      rw (endpoint_of-some r e named, kept, admitted, limited)
