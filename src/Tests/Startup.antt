-- ===== src/Tests/Startup.antt =====
-- Runs of the program: all goes well, and MySQL does not answer.
use secunda_test.Base.{false, true, ◌≡◌, refl, [], ◌∷◌, none, some, Option}
use secunda_test.Text.{codes}
use secunda_test.Errors.{GoError, other}
use secunda_test.Errors.Action.{ok}
use secunda_test.Config.Settings.{load}
use secunda_test.Api.{Machine, Call, sql_ping, migrate_up}
use secunda_test.Api.Held.{held, pool}
use secunda_test.Api.Start.{run, main}
use secunda_test.Api.Release.{IsReleased, run-IsReleased}
use secunda_test.Api.Success.{is_stopped, main-stopped}
use secunda_test.Tests.Overrides.{files, parsers, unset, yaml}
use secunda_test.Tests.Fixtures.{running}

abbrev at_ping : Call → Option GoError
at_ping sql_ping = some (other (codes "connection refused"))
at_ping _ = none

abbrev at_migration : Call → Option GoError
at_migration migrate_up = some (other (codes "no change"))
at_migration _ = none

abbrev without_mysql : Machine
without_mysql = record { answer = λ c w. at_ping c; is_no_change = λ e. false }

-- The tables are up to date.
abbrev migrated : Machine
migrated = record { answer = λ c w. at_migration c; is_no_change = λ e. true }

loaded : load files parsers unset (codes "config.yaml") ≡ ok yaml
unfolding load running
loaded = refl

without_mysql-held :
    held (run without_mysql files parsers unset (codes "config.yaml") []).1 ≡ some (pool ∷ [])
unfolding run load held running
without_mysql-held = refl

migrated-main : (main migrated files parsers unset (codes "config.yaml")).0 ≡ 0
unfolding main load running
migrated-main = refl

run-IsReleased_example :
    IsReleased without_mysql (run without_mysql files parsers unset (codes "config.yaml") [])
run-IsReleased_example = run-IsReleased without_mysql files parsers unset (codes "config.yaml")

main-stopped_example : is_stopped (main migrated files parsers unset (codes "config.yaml")).1 ≡ true
main-stopped_example = main-stopped migrated files parsers unset (codes "config.yaml") migrated-main
