-- ===== src/Http/Metrics.antt =====
-- The middleware `Metrics` of internal/transport/http/middleware.go, over what the three metrics of
-- internal/metrics/metrics.go count for each method and route.
pub mod Laws
use secunda_test.Base.{
  [], ◌∷◌, List, ℕ, Bool, ◌&&◌, Option, none, some, suc, leb, if◌then◌else◌, not,
}
use secunda_test.Text.{Text, codes, text_eq, is_empty}
use secunda_test.Http.Response.{Reply, respond, panicked, Response}
use secunda_test.Http.Requests.{Request}
use secunda_test.Http.Middleware.{Serve}

-- The values of the labels method and path.
abbrev pub Labels : Type 0
Labels = Text × Text

-- The requests by the class of their status, the errors, and the number of observed durations.
pub record Metrics : Type 0 where
  pub requests_total : Labels → Text → ℕ
  pub errors_total : Labels → ℕ
  pub duration : Labels → ℕ

-- How `New` registers a metric: its name, its help and its labels.
pub record Descriptor : Type 0 where
  pub name : Text
  pub help : Text
  pub label_names : List Text

-- `New`: the counters RequestsTotal and ErrorsTotal, and the histogram Duration over the default buckets.
abbrev pub descriptors : List Descriptor
descriptors =
    record {
      name = codes "http_requests_total";
      help = codes "Total number of HTTP requests.";
      label_names = codes "method" ∷ codes "path" ∷ codes "status" ∷ [];
    }
    ∷ record {
      name = codes "http_errors_total";
      help = codes "Total number of HTTP responses with status >= 500.";
      label_names = codes "method" ∷ codes "path" ∷ [];
    }
    ∷ record {
      name = codes "http_request_duration_seconds";
      help = codes "HTTP request latency in seconds.";
      label_names = codes "method" ∷ codes "path" ∷ [];
    }
    ∷ []

-- `statusClass`
unfoldable pub status_class : ℕ → Text
status_class code =
    if leb 500 code
    then codes "5xx"
    else if leb 400 code
    then codes "4xx"
    else if leb 300 code
    then codes "3xx"
    else codes "2xx"

abbrev pub pattern_or : Text → Option Text → Text
pattern_or path none = path
pattern_or path (some p) = if not (is_empty p) then p else path

-- `routePattern`
unfoldable pub route_pattern : Request → Text
route_pattern r = pattern_or r.url_path r.pattern

abbrev pub labels_of : Request → Labels
unfolding route_pattern
labels_of r = (r.method, route_pattern r)

abbrev pub same_labels : Labels → Labels → Bool
unfolding text_eq
same_labels (m, p) (n, q) = text_eq m n && text_eq p q

-- What `Metrics` does behind `next.ServeHTTP` for a recorded status.
unfoldable pub count : Labels → ℕ → Metrics → Metrics
unfolding status_class text_eq
count l status m = record {
  requests_total = λ k class.
      if same_labels l k && text_eq (status_class status) class
      then suc (m.requests_total k class)
      else m.requests_total k class;
  errors_total =
      λ k. if same_labels l k && leb 500 status then suc (m.errors_total k) else m.errors_total k;
  duration = λ k. if same_labels l k then suc (m.duration k) else m.duration k;
}

-- A panic leaves the middleware before anything is counted.
abbrev pub counted : {W : Type 0} → Request → Reply × W → Metrics → Reply × (W × Metrics)
unfolding count
counted r (respond a, w) m = (respond a, (w, count (labels_of r) a.status m))
counted r (panicked, w) m = (panicked, (w, m))

-- `Metrics`
unfoldable pub metered : {W : Type 0} → Serve W → Serve (W × Metrics)
unfolding count
metered next r (w, m) = counted r (next r w) m
