-- ===== src/Http.antt =====
-- internal/transport/http: the handlers, the middleware and the routes.
pub mod Response
pub mod Parsing
pub mod Requests
pub mod Handlers
pub mod Middleware
pub mod Metrics
pub mod Router
