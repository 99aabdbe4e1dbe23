-- ===== src/Http/Metrics/Laws.antt =====
-- What is counted of a request.
use secunda_test.Base.{ℕ, suc, ◌+◌, ◌≡◌, refl, arith, if◌then◌else◌}
use secunda_test.Text.{codes, text_eq}
use secunda_test.Http.Response.{Reply, respond, panicked}
use secunda_test.Http.Requests.{Request}
use secunda_test.Http.Middleware.{Serve}
use secunda_test.Http.Metrics.{
  Metrics, Labels, status_class, same_labels, labels_of, count, counted, metered,
}

-- The requests of the four classes together.
abbrev pub all_requests : Metrics → Labels → ℕ
all_requests m k =
    m.requests_total k (codes "2xx")
    + m.requests_total k (codes "3xx")
    + m.requests_total k (codes "4xx")
    + m.requests_total k (codes "5xx")

-- The three metrics agree: every request that is counted has one duration, and the errors are the requests
-- of the class 5xx.
pub record IsConsistent (m : Metrics) : Type 0 where
  pub timed : (k : Labels) → m.duration k ≡ all_requests m k
  pub failed : (k : Labels) → m.errors_total k ≡ m.requests_total k (codes "5xx")

count-all_requests :
    (l k : Labels) (status : ℕ) (m : Metrics)
    → all_requests (count l status m) k
      ≡ (if same_labels l k then suc (all_requests m k) else all_requests m k)
unfolding count status_class text_eq
count-all_requests l k status m = ground arith

count-IsConsistent :
    (l : Labels) (status : ℕ) (m : Metrics) → IsConsistent m → IsConsistent (count l status m)
unfolding count status_class text_eq
count-IsConsistent l status m c = record {
  timed = λ k. ground (arith, c.timed k, count-all_requests l k status m);
  failed = λ k. ground (arith, c.failed k);
}

-- Whatever a handler does, the metrics stay consistent, and the handler's answer and world come through
-- unchanged.
pub metered-IsConsistent :
    {W : Type 0} (next : Serve W) (r : Request) (w : W) (m : Metrics)
    → IsConsistent m
    → let (reply, (w1, m1)) = metered next r (w, m) in (IsConsistent m1 × ((reply, w1) ≡ next r w))
unfolding metered
metered-IsConsistent {W} next r w m c = kept (next r w)
  where
    kept :
        (o : Reply × W)
        → let (reply, (w1, m1)) = counted {W = W} r o m in (IsConsistent m1 × ((reply, w1) ≡ o))
    kept (respond a, w1) = (count-IsConsistent (labels_of r) a.status m c, refl)
    kept (panicked, w1) = (c, refl)
