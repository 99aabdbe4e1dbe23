-- ===== src/Lib.antt =====
-- The task service: users, teams with roles, tasks with an audit history, an HTTP API in front of MySQL and
-- Redis. This library models its Go code and proves what the code promises.
--
-- How the parts work together. A request reaches internal/transport/http/router.go: `Recoverer` around
-- `Metrics` around the routes, and for the guarded routes `Auth` and `RateLimit` before the handler. A handler
-- decodes the request, calls one service of internal/service and writes a response. A service checks the
-- membership through the repositories of internal/repository, changes the tables in one transaction, and
-- drops the team's lists from the cache.
--
-- Every Go call that may fail and change something is an `Action W A`: a function from the world `W` to a
-- result or an error and the world that is left, which comes back after an error as well. The services are
-- written over any `W` and any repositories, cache and sender (Service/Interfaces.antt), so their theorems
-- hold over any implementation of these. The repositories are written over `Db`: the rows, the
-- auto-increment counters, the clock and a list of faults, one for each statement to come, so that every
-- statement may fail, and a commit may fail with or without having taken effect.
--
-- Which file models what:
--   Base, Base/*                shared names, Boolean tests, lists and signed integers over the native numbers
--   Text, Text/*                Go strings as code points; strings.TrimSpace, ToLower, EqualFold, IndexByte,
--                               and strconv for base 10
--   Errors, Errors/*            internal/domain/errors.go, wrapping by %w, errors.Is; actions and results
--   Domain                      internal/domain/models.go
--   Config, Config/*            internal/config/config.go: a struct with its yaml tags is a `Layout`, and the walk by
--                               reflection a recursion over it; Settings has the structs and `Load`
--   Cache/Keys, Cache/Redis     internal/cache/cache.go: the keys, and RedisCache; Cache/Redis/Contract is what Redis
--                               and its client document of the commands used, with the expiration 0 that sets no
--                               deadline
--   Service/Task, Task/Amend    internal/service/task.go: TaskService; Amend is what `Update`
--                               does to the task before it is stored
--   Service/Team                internal/service/team.go: TeamService
--   Service/Auth                internal/service/auth.go: AuthService
--   Service/Tokens              internal/service/jwt.go: TokenManager
--   Database, Database/*        the tables of migrations/000001_init.up.sql, `IsDuplicate`, and how a statement
--                               and a transaction run
--   Repository/Users, Teams, Tasks, Transaction
--                               internal/repository/user_repo.go, team_repo.go, task_repo.go
--   Repository/Analytics        internal/repository/analytics_repo.go: `IntegrityIssues`; Stats is `TeamStats` and Creators
--                               `TopCreators`, clause by clause, over the joins of Base/Joins
--   Repository/Changes, Soundness, Reachable
--                               what a statement may do to the tables, what the keys and foreign keys promise,
--                               and the databases that calls of the repositories reach
--   Repository/Wired            the repositories as the services take them, as in cmd/api/main.go
--   Email                       internal/email/email.go
--   Http/Response, Parsing, Requests, Handlers
--                               internal/transport/http/response.go and handlers.go
--   Http/Middleware, Metrics    internal/transport/http/middleware.go, over internal/metrics/metrics.go
--   Http/Router                 internal/transport/http/router.go
--   Api, Api/*                  cmd/api/main.go and `New` and `Migrate` of internal/database/mysql.go: the calls of
--                               libraries are recorded in a trace, and what they answer is a parameter;
--                               Api/Services is the services over the database and the rest of the world
--   Tests/*                     runs on a small database, and the theorems at concrete inputs
-- A module below another one holds what is proved of it.
--
-- What is a parameter: bcrypt, net/mail, golang-jwt, the Unicode case tables, MySQL's collation and its order
-- of rows that ORDER BY leaves equal (`TeamOrder`), encoding/json, gopkg.in/yaml.v3, time.ParseDuration, the INTERVAL
-- of MySQL, the Redis client, the circuit breaker, the random draws and the log of the mail client, the
-- limiter of golang.org/x/time/rate, the handler of promhttp, chi's matching of paths and its answers.
-- Where a theorem relies on one of these, it takes the documented law as a hypothesis (`JwtLaws`,
-- `RedisLaws`, `DeliveryLaws`, `HashMatches`, the fields of `Unicode`, `Collation` and `TeamOrder`),
-- and Tests has an instance.
--
-- A cached list's time to live is a number of whole seconds, not negative, and may be 0.
--
-- Bounds and fuel: an `int64` is a signed integer with its range as a hypothesis or a conclusion (`IsInt64`)
-- where it matters; `parse_int` refuses what is out of range as strconv does. `format_nat` recurses on fuel n for
-- the number n, which is enough since n / 10 < n. A request that is served touches its user's limiter in one
-- step, as the mutex has it.
--
-- Not modelled: flags, the format of the log, the SQL of the migrations but for the tables it makes, and how
-- Prometheus keeps the metrics; contexts and deadlines, which can only make a call
-- fail earlier; a process that runs on because neither its server fails nor a signal comes.
pub mod Base
pub mod Text
pub mod Errors
pub mod Domain
pub mod Config
pub mod Database
pub mod Repository
pub mod Cache
pub mod Service
pub mod Email
pub mod Http
pub mod Api
pub mod Tests
