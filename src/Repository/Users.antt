-- ===== src/Repository/Users.antt =====
-- internal/repository/user_repo.go.
use secunda_test.Base.{
  ℕ, suc, Bool, ◌||◌, ◌∷◌, ℤ, pos, ltb, if◌then◌else◌, length, any, keep, ◌==ℤ◌,
}
use secunda_test.Text.{Text}
use secunda_test.Errors.{GoError, sentinel, not_found, conflict, no_rows, is_error, within}
use secunda_test.Errors.Action.{Action, ok, err, on_error}
use secunda_test.Domain.{User}
use secunda_test.Database.{Collation, Db, duplicate, too_long, is_duplicate}
use secunda_test.Database.Statement.{Statement, run, query, one_row}

-- VARCHAR(255) counts characters.
abbrev pub over_255 : Text → Bool
over_255 s = ltb 255 (length s)

-- `sql.ErrNoRows` becomes `ErrNotFound`, any other error is wrapped.
unfoldable pub found_or : GoError → GoError → GoError
found_or wrapped_error e = if is_error e no_rows then sentinel not_found else wrapped_error

unfoldable pub insert_error : GoError → GoError
insert_error e = if is_duplicate e then sentinel conflict else within "insert user" e

module _ (c : Collation) where
  abbrev pub user_row : User → ℤ → ℕ → User
  user_row u now id = record u { id = pos id; created_at = now }

  -- INSERT INTO users (email, name, password_hash), with UNIQUE KEY uq_users_email (email).
  unfoldable pub insert_user : User → Statement ℤ
  insert_user u now rows counters =
      let id = suc counters.users in
      let counted = record counters { users = id } in
      if over_255 u.email || over_255 u.name || over_255 u.password_hash
      then (err too_long, rows, counted)
      else if any (λ (v : User). c.same v.email u.email) rows.users
      then (err duplicate, rows, counted)
      else (ok (pos id), record rows { users = user_row u now id ∷ rows.users }, counted)

  unfoldable pub create : User → Action Db ℤ
  unfolding insert_user run insert_error is_duplicate
  create u = on_error insert_error (run (insert_user u))

  unfoldable pub get_by_email : Text → Action Db User
  unfolding run found_or
  get_by_email email =
      on_error (λ e. found_or (within "get user by email" e) e)
        (run (query (λ rows. one_row (keep (λ (v : User). c.same v.email email) rows.users))))

unfoldable pub get_by_id : ℤ → Action Db User
unfolding run found_or
get_by_id id =
    on_error (λ e. found_or (within "get user by id" e) e)
      (run (query (λ rows. one_row (keep (λ (v : User). v.id ==ℤ id) rows.users))))
