-- ===== src/Repository/Transaction.antt =====
-- `TeamRepo.withTx` (internal/repository/team_repo.go), which `TaskRepo.UpdateWithHistory` writes out once
-- more with a deferred rollback.
pub mod Laws
use secunda_test.Base.{◌≡◌}
use secunda_test.Errors.{GoError, within}
use secunda_test.Errors.Action.{Action, Result, ok, err, pure, on_error, ◌>>=◌}
use secunda_test.Database.{Rows, Db}
use secunda_test.Database.Statement.{begin_tx, commit, rolled_back}

-- Commit behind a success, rollback behind an error.
abbrev pub finish : {A : Type 0} → Rows → Result A × Db → Result A × Db
finish before (ok a, db) = (commit before >>= λ _. pure a) db
finish before (err e, db) = (err e, rolled_back before db)

-- The body's value is what the source's closure leaves in a captured variable.
unfoldable pub with_tx : {A : Type 0} → Action Db A → Action Db A
unfolding begin_tx commit
with_tx body = on_error (within "begin tx") begin_tx >>= λ before db. finish before (body db)
