-- ===== src/Tests/Keys.antt =====
-- Cache keys and filters.
use secunda_test.Base.{none, some, ◌≡◌, refl, pos, negsuc, arith}
use secunda_test.Domain.{TaskFilter, status_done}
use secunda_test.Cache.Keys.Laws.{IsProper, tasks_key_inj}
use secunda_test.Service.Task.{normalize_filter}
use secunda_test.Tests.Fixtures.{running}
use secunda_test.Service.Task.Listing.{IsPage, normalize_filter-IsPage}

abbrev pub done_page : TaskFilter
done_page = record {
  team_id = pos 1;
  status = some status_done;
  assignee_id = none;
  limit = pos 20;
  offset = pos 0;
}

done_page-IsProper : IsProper done_page
unfolding running
done_page-IsProper = record {
  team = omega arith;
  status = refl;
  assignee = tt;
  limit = omega arith;
  offset = omega arith;
}

tasks_key_inj_example : done_page ≡ done_page
tasks_key_inj_example = tasks_key_inj done_page done_page done_page-IsProper done_page-IsProper refl

abbrev greedy : TaskFilter
greedy = record done_page { limit = pos 5000; offset = negsuc 3 }

normalize_filter-IsPage_example :
    IsPage (normalize_filter greedy)
    × ((normalize_filter greedy).team_id ≡ pos 1)
    × ((normalize_filter greedy).status ≡ some status_done)
    × ((normalize_filter greedy).assignee_id ≡ none)
normalize_filter-IsPage_example = normalize_filter-IsPage greedy
