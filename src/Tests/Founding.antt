-- ===== src/Tests/Founding.antt =====
-- A team that its owner looks for.
use secunda_test.Base.{◌≡◌, refl, List, [], ◌∷◌, pos}
use secunda_test.Text.{codes}
use secunda_test.Errors.Action.{ok}
use secunda_test.Domain.{Team}
use secunda_test.Database.{Db}
use secunda_test.Repository.Teams.{
  create_with_owner, list_by_user, get_member, IsNewestFirst, HasSameRows,
}
use secunda_test.Repository.Teams.Creation.{create_with_owner-found, team_row, owner_row}
use secunda_test.Repository.Teams.Lists.{joined}
use secunda_test.Tests.Fixtures.{binary, running}
use secunda_test.Tests.Orders.{newest}
use secunda_test.Tests.Standings.{busy, counters, busy-IsSound}

abbrev before : Db
before = record { rows = busy; counters = counters; now = pos 100; faults = [] }

abbrev behind : Db
behind = (create_with_owner (codes "garden") (pos 1) before).1

create_with_owner-found_example :
    (get_member (pos 2) (pos 1) behind ≡ (ok (owner_row (pos 2) (pos 1) (pos 100)), behind))
    × ((ts : List Team) × (list_by_user newest (pos 1) behind ≡ (ok ts, behind))
        × IsNewestFirst ts
        × HasSameRows ts
            (team_row (pos 2) (codes "garden") (pos 1) (pos 100) ∷ joined (pos 1) busy))
unfolding create_with_owner running
create_with_owner-found_example =
    create_with_owner-found binary newest (codes "garden") (pos 1) (pos 2) before behind
      busy-IsSound refl refl

-- The newer team comes first.
list_by_user-behind :
    list_by_user newest (pos 1) behind
    ≡ (ok (team_row (pos 2) (codes "garden") (pos 1) (pos 100) ∷ busy.teams), behind)
unfolding create_with_owner list_by_user running
list_by_user-behind = refl
