-- ===== src/Tests/Fixtures.antt =====
-- A small database, the services over it, and stand-ins for the libraries.
use secunda_test.Tests.Orders.{newest}
use secunda_test.Base.{ℕ, ◌≡◌, refl, true, some, [], ◌∷◌, pos, arith, sort_by, ◌∙◌, sym}
use secunda_test.Text.{Text, codes, text_eq, text_eq_iff, is_space, trim_space, byte_length}
use secunda_test.Text.Case.{Unicode, ascii_lower, to_lower}
use secunda_test.Errors.{other, is_error}
use secunda_test.Errors.Action.{pure, fail}
use secunda_test.Text.Decimal.{format_int, parse_int}
use secunda_test.Database.{is_duplicate}
use secunda_test.Database.Statement.{run, commit, begin_tx}
use secunda_test.Repository.Transaction.{with_tx}
use secunda_test.Domain.{
  status_valid, role_valid, can_manage_members, User, TeamMember, Task, role_owner, role_member,
  status_todo,
}
use secunda_test.Database.{Collation, Rows, Db}
use secunda_test.Service.Interfaces.{Cache, Sender}
use secunda_test.Service.Task.{TaskService}
use secunda_test.Service.Team.{TeamService}
use secunda_test.Repository.Wired.{user_repository, team_repository, task_repository}

pub text_eq_refl : (a : Text) → text_eq a a ≡ true
text_eq_refl a = (text_eq_iff a a).1 refl

pub text_eq_sym : (a b : Text) → text_eq a b ≡ true → text_eq b a ≡ true
text_eq_sym a b h = (text_eq_iff b a).1 (sym ((text_eq_iff a b).0 h))

pub text_eq_trans : (a b c : Text) → text_eq a b ≡ true → text_eq b c ≡ true → text_eq a c ≡ true
text_eq_trans a b c h k = (text_eq_iff a c).1 ((text_eq_iff a b).0 h ∙ (text_eq_iff b c).0 k)

abbrev pub binary : Collation
binary = record {
  same = text_eq;
  same_refl = text_eq_refl;
  same_sym = text_eq_sym;
  same_trans = text_eq_trans;
}

pub ascii_lower_idem : (c : ℕ) → ascii_lower (ascii_lower c) ≡ ascii_lower c
ascii_lower_idem c = ground arith

pub ascii_lower_space : (c : ℕ) → is_space (ascii_lower c) ≡ is_space c
unfolding is_space
ascii_lower_space c = ground arith

abbrev pub ascii : Unicode
ascii = record {
  lower = ascii_lower;
  lower_ascii = λ c h. refl;
  lower_idem = ascii_lower_idem;
  lower_space = ascii_lower_space;
}

-- Ann owns team 1, Bob is a member of it, Eve of none.
abbrev pub ann : User
ann = record {
  id = pos 1;
  email = codes "ann@x.org";
  name = codes "Ann";
  password_hash = codes "hash";
  created_at = pos 5;
}

abbrev pub bob : User
bob = record {
  id = pos 2;
  email = codes "bob@x.org";
  name = codes "Bob";
  password_hash = codes "hash2";
  created_at = pos 6;
}

abbrev pub eve : User
eve = record {
  id = pos 3;
  email = codes "eve@x.org";
  name = codes "Eve";
  password_hash = codes "hash3";
  created_at = pos 7;
}

abbrev pub owner_ann : TeamMember
owner_ann = record { team_id = pos 1; user_id = pos 1; role = role_owner; joined_at = pos 8 }

abbrev pub member_bob : TeamMember
member_bob = record { team_id = pos 1; user_id = pos 2; role = role_member; joined_at = pos 9 }

abbrev pub chore : Task
chore = record {
  id = pos 1;
  team_id = pos 1;
  title = codes "sweep";
  description = codes "";
  status = status_todo;
  assignee_id = some (pos 2);
  created_by = pos 1;
  created_at = pos 9;
  updated_at = pos 9;
}

abbrev pub rows : Rows
rows = record {
  users = eve ∷ bob ∷ ann ∷ [];
  teams = record { id = pos 1; name = codes "home"; created_by = pos 1; created_at = pos 8 } ∷ [];
  members = member_bob ∷ owner_ann ∷ [];
  tasks = chore ∷ [];
  history = [];
}

abbrev pub db : Db
db = record {
  rows = rows;
  counters = record { users = 3; teams = 1; tasks = 1; history = 0 };
  now = pos 100;
  faults = [];
}

-- A cache that holds nothing and is never reached.
abbrev pub no_cache : Cache Db
no_cache = record {
  get_tasks = λ key. fail (other (codes "redis is down"));
  set_tasks = λ key tasks. fail (other (codes "redis is down"));
  invalidate_team = λ team. fail (other (codes "redis is down"));
}

abbrev pub task_service : TaskService Db
task_service = record {
  tasks = task_repository;
  teams = team_repository newest;
  cache = no_cache;
  warn = λ warning w. w;
}

abbrev pub mailer : Sender Db
mailer = record { send_invite = λ to team. pure tt }

abbrev pub broken_mailer : Sender Db
broken_mailer = record { send_invite = λ to team. fail (other (codes "timeout")) }

abbrev pub team_service_with : Sender Db → TeamService Db
team_service_with sender = record {
  teams = team_repository newest;
  users = user_repository binary;
  mailer = sender;
  unicode = ascii;
}

-- For the runs: what a call of a service computes with.
unfoldable pub running : Unit {0}
unfolding text_eq trim_space byte_length to_lower is_error is_duplicate status_valid role_valid
    can_manage_members format_int parse_int run commit begin_tx with_tx sort_by
running = tt
