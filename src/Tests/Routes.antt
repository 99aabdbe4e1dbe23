-- ===== src/Tests/Routes.antt =====
-- The middleware and the router over the handlers.
use secunda_test.Base.{
  ltb_ℤ, ℕ, ◌+◌, ◌≡◌, ◌↔◌, refl, none, some, List, [], ◌∷◌, ◌++◌, ℤ, pos, arith, if◌then◌else◌,
}
use secunda_test.Text.{Text, codes}
use secunda_test.Errors.{detailed, message}
use secunda_test.Service.Task.{not_a_member}
use secunda_test.Service.Task
use secunda_test.Database.{Db}
use secunda_test.Service.Tokens.{parse}
use secunda_test.Http.Response.{write_error, error_body, no_payload, Response, panicked, write_json}
use secunda_test.Http.Requests.{Request}
use secunda_test.Http.Middleware.{
  split_header, token_of, Limiters, Buckets, take_event, rate_limit, beside, too_many,
}
use secunda_test.Http.Middleware.Gate.{IsAccepted, IsBearer, token_of_iff}
use secunda_test.Http.Middleware.Limits.{
  limiter_of, take_events, asked, take_events-asked, rate_limit-take_event,
}
use secunda_test.Http.Metrics.{Metrics, count, labels_of}
use secunda_test.Http.Metrics.Laws.{IsConsistent}
use secunda_test.Http.Router.{
  handle, allows, list_tasks, route_of, is_public, RouterDeps, new_router,
}
use secunda_test.Http.Router.Laws.{new_router-guards, new_router-admits}
use secunda_test.Http.Handlers
use secunda_test.Http.Parsing.{list_filter}
use secunda_test.Repository.Teams
use secunda_test.Tests.Fixtures.{db, running}
use secunda_test.Tests.ToyJwt.{toy_jwt}
use secunda_test.Tests.Accounts.{manager, zoes_token}
use secunda_test.Tests.Requests.{handler, empty_request}

-- A limiter that counts its events and allows as many as the burst, at any time.
abbrev toy_limiters : Limiters
toy_limiters = record {
  Limiter = ℕ × ℤ;
  new_limiter = λ burst. (0, burst);
  allow = λ instant (n, burst). (ltb_ℤ (pos n) burst, (n + 1, burst));
}

abbrev no_metrics : Metrics
no_metrics = record { requests_total = λ k class. 0; errors_total = λ k. 0; duration = λ k. 0 }

abbrev recovered : Response
recovered = record { status = 500; payload = no_payload; retry_after = none }

abbrev router : RouterDeps Db
router = record {
  handler = handler;
  jwt = toy_jwt;
  tokens = manager;
  limiters = toy_limiters;
  rate_limit_per_min = pos 1;
  now = λ w. 3000000000;
  metrics_handler = λ r w. (panicked, w);
  unrouted = λ r w. (write_json 404 no_payload, w);
  recovered = recovered;
}

-- A request for a guarded route without a header, one for the metrics, and one with a token.
abbrev anonymous : Request
anonymous = record empty_request { pattern = some (codes "/api/v1/tasks") }

abbrev scrape : Request
scrape = record empty_request { pattern = some (codes "/metrics") }

abbrev signed : Request
signed = record anonymous { authorization = codes "bearer " ++ zoes_token }

nobody : (user : ℤ) → ¬ (IsAccepted toy_jwt manager (λ w. 3000000000) anonymous db user)
unfolding token_of split_header
nobody user (token, given, accepted) = ground arith

new_router-guards_example :
    (message : Text) × (new_router router anonymous ((db, []), no_metrics) ≡ (
      write_json 401 (error_body message),
      ((db, []), count (labels_of anonymous) 401 no_metrics),
    ))
unfolding route_of allows running is_public
new_router-guards_example =
    new_router-guards router anonymous list_tasks db [] no_metrics (refl, refl) refl nobody

signed_in : IsAccepted toy_jwt manager (λ w. 3000000000) signed db (pos 4)
unfolding token_of split_header parse running
signed_in = (zoes_token, refl, refl)

-- The first list is given out, and a second one within the minute is not.
abbrev once : Buckets toy_limiters
once = (pos 4, (1, pos 1)) ∷ []

new_router-admits_example : new_router router signed ((db, []), no_metrics) ≡ (
  write_json 403 (error_body (codes "operation not permitted: not a member of the team")),
  ((db, once), count (labels_of signed) 403 no_metrics),
)
unfolding route_of allows running is_public take_event handle Handlers.list_tasks list_filter
    Teams.get_member write_error Task.list not_a_member detailed message
new_router-admits_example =
    new_router-admits router signed list_tasks (pos 4) db db [] once no_metrics
      (record {
        status = 403;
        payload = error_body (codes "operation not permitted: not a member of the team");
        retry_after = none;
      })
      (refl, refl) refl signed_in refl refl

rate_limit-take_event_example :
    rate_limit toy_limiters (pos 1) (λ w. 3000000000) (λ r w. (panicked, w)) empty_request (db, [])
    ≡ (let (allowed, bs1) = take_event toy_limiters (pos 1) 3000000000 (pos 1) [] in
        if allowed
        then beside toy_limiters
            (pos 1)
            (λ w. 3000000000)
            (λ r w. (panicked, w))
            empty_request
            (db, bs1)
        else (too_many toy_limiters {W = Db} (pos 1) (λ w. 3000000000), (db, bs1)))
rate_limit-take_event_example =
    rate_limit-take_event toy_limiters (pos 1) (λ w. 3000000000) (λ r w. (panicked, w))
      empty_request db [] (pos 1) refl

-- User 7 asks between two requests of user 4.
abbrev events : List (ℕ × ℤ)
events = (10, pos 4) ∷ (20, pos 7) ∷ (30, pos 4) ∷ []

take_events-asked_example :
    limiter_of toy_limiters (pos 1) (pos 4) (take_events toy_limiters (pos 1) events [])
    ≡ asked toy_limiters (pos 1) (pos 4) events (limiter_of toy_limiters (pos 1) (pos 4) [])
take_events-asked_example = take_events-asked toy_limiters (pos 1) (pos 4) events []

token_of_iff_example :
    (token_of (codes "bearer " ++ zoes_token) ≡ some zoes_token)
    ↔ IsBearer (codes "bearer " ++ zoes_token) zoes_token
token_of_iff_example = token_of_iff (codes "bearer " ++ zoes_token) zoes_token

nothing_counted : IsConsistent no_metrics
nothing_counted = record { timed = λ k. refl; failed = λ k. refl }
