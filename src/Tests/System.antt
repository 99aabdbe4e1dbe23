-- ===== src/Tests/System.antt =====
-- Two people, a team and a task, asked for at the services.
use secunda_test.Tests.Orders.{newest}
use secunda_test.Base.{◌≡◌, refl, [], ◌∷◌, ◌++◌, List, pos, some, none, if◌then◌else◌}
use secunda_test.Text.{Text, codes, text_eq}
use secunda_test.Errors.{other}
use secunda_test.Errors.Action.{ok, pure, fail}
use secunda_test.Domain.{status_todo}
use secunda_test.Database.{refused}
use secunda_test.Repository.Soundness.{IsSound}
use secunda_test.Repository.Reachable.{no_rows, no_counters}
use secunda_test.Repository.Reachable.Growth.{IsGrown}
use secunda_test.Service.Auth
use secunda_test.Service.Team
use secunda_test.Service.Task
use secunda_test.Repository.Users
use secunda_test.Repository.Teams
use secunda_test.Repository.Tasks
use secunda_test.Api.Services.{
  beside, Surroundings, World, Request, register, create_team, invite, create_task, behind, Served,
  begun, answered, elapsed,
}
use secunda_test.Api.Services.Invariant.{served-IsSound}
use secunda_test.Tests.Accounts.{manager}
use secunda_test.Tests.Standings.{calendar}
use secunda_test.Tests.Fixtures.{binary, ascii, running}
use secunda_test.Tests.ToyJwt.{toy_jwt}

-- The rest of the world is the letters that were sent.
abbrev surroundings : Surroundings (List Text)
surroundings = record {
  collation = binary;
  team_order = newest;
  calendar = calendar;
  unicode = ascii;
  parse_address = λ address. none;
  tokens = manager;
  jwt = toy_jwt;
  bcrypt = record {
    generate = λ password. pure (codes "#" ++ password);
    compare = λ hash password.
        if text_eq hash (codes "#" ++ password) then none else some (other (codes "mismatch"));
  };
  cache = record {
    get_tasks = λ key. fail (other (codes "redis is down"));
    set_tasks = λ key tasks. fail (other (codes "redis is down"));
    invalidate_team = λ team. fail (other (codes "redis is down"));
  };
  mailer = record { send_invite = λ to label letters. (ok tt, to ∷ letters) };
  warn = λ warning letters. letters;
  clock = λ letters. 1000;
}

abbrev fresh : World (List Text)
fresh = (record { rows = no_rows; counters = no_counters; now = pos 50; faults = [] }, [])

abbrev ann_registers : Request
ann_registers =
    register (record { email = codes "ann@x.org"; name = codes "Ann"; password = codes "password" })

abbrev bob_registers : Request
bob_registers =
    register (record { email = codes "bob@x.org"; name = codes "Bob"; password = codes "password" })

abbrev bob_is_invited : Request
bob_is_invited =
    invite
      (record { team_id = pos 1; inviter_id = pos 1; email = codes "bob@x.org"; role = codes "" })

abbrev sweeping : Request
sweeping = create_task (record {
  team_id = pos 1;
  title = codes "sweep";
  description = codes "";
  status = status_todo;
  assignee_id = some (pos 2);
  actor_id = pos 1;
})

abbrev with_two : World (List Text)
with_two = behind surroundings bob_registers (behind surroundings ann_registers fresh)

-- The first statement to come fails.
abbrev troubled : World (List Text)
troubled = (
  record (with_two.0) { now = pos 60; faults = some (refused (codes "deadlock")) ∷ [] },
  with_two.1,
)

abbrev with_task : World (List Text)
with_task = behind surroundings sweeping (
    behind surroundings bob_is_invited (
      behind surroundings (create_team (codes "home") (pos 1))
        (behind surroundings (create_team (codes "home") (pos 1)) troubled)))

with_task-letters :
    (with_task.1 ≡ codes "bob@x.org" ∷ [])
    × (with_task.0.counters ≡ record { users = 2; teams = 1; tasks = 1; history = 0 })
unfolding behind running Task.create Team.invite Team.create Team.refused_role Team.invite_email
    Auth.register Auth.login_email Users.create Users.get_by_email Teams.get_member
    Teams.create_with_owner Teams.add_member Tasks.create beside
with_task-letters = (refl, refl)

abbrev two_served : Served surroundings fresh with_two
two_served = answered bob_registers (answered ann_registers begun)

served-IsSound_example :
    IsSound binary with_task.0.rows with_task.0.counters × IsGrown with_two.0.rows with_task.0.rows
served-IsSound_example = served-IsSound surroundings fresh with_two with_task refl refl two_served (
    answered sweeping (
      answered bob_is_invited (
        answered (create_team (codes "home") (pos 1)) (
          answered (create_team (codes "home") (pos 1))
            (elapsed (pos 60) (some (refused (codes "deadlock")) ∷ []) with_two.1 begun)))))
