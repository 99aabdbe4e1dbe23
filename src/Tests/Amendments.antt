-- ===== src/Tests/Amendments.antt =====
-- `TaskService.Update` without its calls: a request that changes three fields of a task.
use secunda_test.Base.{true, none, some, [], ◌∷◌, ◌≡◌, ◌↔◌, refl, pos, arith, All}
use secunda_test.Text.{codes}
use secunda_test.Errors.Action.{ok}
use secunda_test.Domain.{status_done}
use secunda_test.Service.Task.Amend.{UpdateTaskInput, Draft, entry, amend}
use secunda_test.Service.Task.Amend.Replay.{replay, rewind}
use secunda_test.Service.Task.Amend.Audit.{amend-replay}
use secunda_test.Service.Task.Amend.Entries.{
  IsAttributed, IsSameTask, amend-IsAttributed, amend_quiet,
}
use secunda_test.Tests.Fixtures.{chore, running}

abbrev pub finish_chore : UpdateTaskInput
finish_chore = record {
  task_id = pos 1;
  title = some (codes " sweep ");
  description = some (codes "all of it");
  status = some status_done;
  assignee_id = none;
  unset_assign = true;
  actor_id = pos 2;
}

abbrev pub finished : Draft
finished = record {
  updated = record chore {
    description = codes "all of it";
    status = status_done;
    assignee_id = none;
  };
  history =
      entry finish_chore chore (codes "description") (codes "") (codes "all of it")
      ∷ entry finish_chore chore (codes "status") (codes "todo") (codes "done")
      ∷ entry finish_chore chore (codes "assignee_id") (codes "2") (codes "")
      ∷ [];
}

amend-finish_chore : amend finish_chore chore ≡ ok finished
unfolding amend running
amend-finish_chore = refl

amend-replay_example :
    (replay finished.history chore ≡ finished.updated)
    × (rewind finished.history finished.updated ≡ chore)
amend-replay_example = amend-replay finish_chore chore (omega arith) tt amend-finish_chore

amend_quiet_example : (finished.history ≡ []) ↔ (finished.updated ≡ chore)
amend_quiet_example = amend_quiet finish_chore chore (omega arith) tt amend-finish_chore

amend-IsAttributed_example :
    All (IsAttributed finish_chore chore) finished.history
    × IsSameTask finish_chore chore finished.updated
amend-IsAttributed_example =
    amend-IsAttributed finish_chore chore (omega arith) tt amend-finish_chore
