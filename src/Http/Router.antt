-- ===== src/Http/Router.antt =====
-- internal/transport/http/router.go: the routes and the middleware around them. chi's matching of a path
-- against the patterns is left out: a request carries the pattern that was matched.
pub mod Laws
use secunda_test.Base.{
  ℕ, Bool, true, false, ◌&&◌, Option, none, some, List, [], ◌∷◌, ℤ, pos, if◌then◌else◌,
}
use secunda_test.Text.{Text, codes, text_eq}
use secunda_test.Service.Tokens.{Jwt, TokenManager}
use secunda_test.Http.Response.{health_body, Response, Reply, respond, panicked, write_json}
use secunda_test.Http.Requests.{Request}
use secunda_test.Http.Handlers.{Handler}
use secunda_test.Http.Handlers
use secunda_test.Http.Middleware.{Serve, Limiters, Buckets, auth, rate_limit}
use secunda_test.Http.Metrics.{Metrics, metered}

-- The routes of `NewRouter`, in its order.
pub data Endpoint : Type 0 where
  healthz : Endpoint
  metrics_page : Endpoint
  register : Endpoint
  login : Endpoint
  create_team : Endpoint
  list_teams : Endpoint
  invite_to_team : Endpoint
  create_task : Endpoint
  list_tasks : Endpoint
  update_task : Endpoint
  task_history : Endpoint
  team_stats : Endpoint
  top_creators : Endpoint
  integrity_issues : Endpoint

-- The method and the whole pattern of a route; `none` is every method.
unfoldable pub route_of : Endpoint → Option Text × Text
route_of healthz = (some (codes "GET"), codes "/healthz")
route_of metrics_page = (none, codes "/metrics")
route_of register = (some (codes "POST"), codes "/api/v1/register")
route_of login = (some (codes "POST"), codes "/api/v1/login")
route_of create_team = (some (codes "POST"), codes "/api/v1/teams")
route_of list_teams = (some (codes "GET"), codes "/api/v1/teams")
route_of invite_to_team = (some (codes "POST"), codes "/api/v1/teams/{id}/invite")
route_of create_task = (some (codes "POST"), codes "/api/v1/tasks")
route_of list_tasks = (some (codes "GET"), codes "/api/v1/tasks")
route_of update_task = (some (codes "PUT"), codes "/api/v1/tasks/{id}")
route_of task_history = (some (codes "GET"), codes "/api/v1/tasks/{id}/history")
route_of team_stats = (some (codes "GET"), codes "/api/v1/analytics/team-stats")
route_of top_creators = (some (codes "GET"), codes "/api/v1/analytics/top-creators")
route_of integrity_issues = (some (codes "GET"), codes "/api/v1/analytics/integrity-issues")

-- The routes outside the group that `Auth` and `RateLimit` guard.
unfoldable pub is_public : Endpoint → Bool
is_public healthz = true
is_public metrics_page = true
is_public register = true
is_public login = true
is_public _ = false

abbrev pub routes : List Endpoint
routes =
    healthz ∷ metrics_page ∷ register ∷ login ∷ create_team ∷ list_teams ∷ invite_to_team
    ∷ create_task ∷ list_tasks ∷ update_task ∷ task_history ∷ team_stats ∷ top_creators
    ∷ integrity_issues ∷ []

unfoldable pub allows : Option Text → Text → Bool
unfolding text_eq
allows none method = true
allows (some m) method = text_eq m method

unfoldable pub answers : Text → Text → Option Text × Text → Bool
unfolding text_eq allows
answers method pattern (m, p) = text_eq p pattern && allows m method

-- The first route with this method and pattern.
unfoldable pub first_route : Text → Text → List Endpoint → Option Endpoint
unfolding route_of answers
first_route method pattern [] = none
first_route method pattern (e ∷ es) =
    let rest = first_route method pattern es in
    if answers method pattern (route_of e) then some e else rest

-- `RouterDeps`, with the clock, the handler of `promhttp`, chi's answer where no route fits, and the answer
-- of chi's `Recoverer` to a panic.
pub record RouterDeps (W : Type 0) : Type 1 where
  pub handler : Handler W
  pub jwt : Jwt
  pub tokens : TokenManager
  pub limiters : Limiters
  pub rate_limit_per_min : ℤ
  pub now : W → ℕ
  pub metrics_handler : Serve W
  pub unrouted : Serve W
  pub recovered : Response

-- `middleware.Recoverer`
abbrev pub recover : Response → Reply → Reply
recover a (respond b) = respond b
recover a panicked = respond a

module _ {W : Type 0} (d : RouterDeps W) where
  abbrev pub Limited : Type 0
  Limited = W × Buckets d.limiters

  -- The handler of a route behind its guards.
  unfoldable pub handle : Endpoint → Serve W
  handle healthz r = λ w. (write_json 200 health_body, w)
  handle metrics_page r = d.metrics_handler r
  handle register r = Handlers.register d.handler r
  handle login r = Handlers.login d.handler r
  handle create_team r = Handlers.create_team d.handler r
  handle list_teams r = Handlers.list_teams d.handler r
  handle invite_to_team r = Handlers.invite_to_team d.handler r
  handle create_task r = Handlers.create_task d.handler r
  handle list_tasks r = Handlers.list_tasks d.handler r
  handle update_task r = Handlers.update_task d.handler r
  handle task_history r = Handlers.task_history d.handler r
  handle team_stats r = Handlers.team_stats d.handler r
  handle top_creators r = Handlers.top_creators d.handler r
  handle integrity_issues r = Handlers.integrity_issues d.handler r

  abbrev pub unlimited : Serve W → Serve Limited
  unlimited next r (w, bs) = let (reply, w1) = next r w in (reply, (w1, bs))

  -- The group of the guarded routes.
  unfoldable pub guarded : Serve W → Serve Limited
  unfolding auth rate_limit
  guarded next =
      auth d.jwt d.tokens (λ (w, bs). d.now w)
        (rate_limit d.limiters d.rate_limit_per_min d.now next)

  unfoldable pub routed : Option Endpoint → Serve Limited
  unfolding guarded handle is_public
  routed none = unlimited d.unrouted
  routed (some e) = if is_public e then unlimited (handle e) else guarded (handle e)

  abbrev pub recovering : {V : Type 0} → Serve V → Serve V
  recovering next r v = let (reply, v1) = next r v in (recover d.recovered reply, v1)

  unfoldable pub endpoint_of : Request → Option Text → Option Endpoint
  unfolding first_route
  endpoint_of r none = none
  endpoint_of r (some pattern) = first_route r.method pattern routes

  -- `NewRouter`: `Recoverer` around `Metrics` around the routes.
  unfoldable pub new_router : Serve (Limited × Metrics)
  unfolding metered routed endpoint_of
  new_router = recovering (metered (λ r v. routed (endpoint_of r r.pattern) r v))
