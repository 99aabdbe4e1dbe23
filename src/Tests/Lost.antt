-- ===== src/Tests/Lost.antt =====
-- Two members change one task at the same time.
use secunda_test.Base.{◌≡◌, ◌≢◌, refl, [], ◌∷◌, none, some, pos, true, false, All, any, arith}
use secunda_test.Text.{codes}
use secunda_test.Errors.Action.{ok}
use secunda_test.Domain.{Task, status_done}
use secunda_test.Database.{Db}
use secunda_test.Repository.Tasks.{update_with_history}
use secunda_test.Service.Task.Amend.{UpdateTaskInput, Draft, field_title, entry, amend}
use secunda_test.Service.Task.Races.{is_retitled, update_with_history-amend_lost}
use secunda_test.Tests.Fixtures.{chore, db, running}

-- Ann gives the task another title, Bob says that it is done.
abbrev by_ann : UpdateTaskInput
by_ann = record {
  task_id = pos 1;
  title = some (codes "mop");
  description = none;
  status = none;
  assignee_id = none;
  unset_assign = false;
  actor_id = pos 1;
}

abbrev by_bob : UpdateTaskInput
by_bob = record by_ann { title = none; status = some status_done; actor_id = pos 2 }

abbrev draft_ann : Draft
draft_ann = record {
  updated = record chore { title = codes "mop" };
  history = entry by_ann chore field_title (codes "sweep") (codes "mop") ∷ [];
}

abbrev draft_bob : Draft
draft_bob = record {
  updated = record chore { status = status_done };
  history = entry by_bob chore (codes "status") (codes "todo") status_done ∷ [];
}

abbrev behind_ann : Db
behind_ann = (update_with_history draft_ann.updated draft_ann.history db).1

abbrev behind_bob : Db
behind_bob = (update_with_history draft_bob.updated draft_bob.history behind_ann).1

amend_ann : amend by_ann chore ≡ ok draft_ann
unfolding amend running
amend_ann = refl

amend_bob : amend by_bob chore ≡ ok draft_bob
unfolding amend running
amend_bob = refl

mop_is_new : codes "mop" ≢ codes "sweep"
mop_is_new h = ground (arith, h)

ann_stored : update_with_history draft_ann.updated draft_ann.history db ≡ (ok tt, behind_ann)
unfolding update_with_history entry running
ann_stored = refl

bob_stored :
    update_with_history draft_bob.updated draft_bob.history behind_ann ≡ (ok tt, behind_bob)
unfolding update_with_history entry running
bob_stored = refl

update_with_history-amend_lost_example :
    All (λ (x : Task). x.id ≡ chore.id → x.title ≡ codes "sweep") behind_bob.rows.tasks
    × (any (is_retitled chore.id (codes "mop")) behind_bob.rows.history ≡ true)
update_with_history-amend_lost_example =
    update_with_history-amend_lost chore by_ann by_bob draft_ann draft_bob db behind_ann behind_ann
      behind_bob amend_ann mop_is_new amend_bob refl ann_stored refl bob_stored
