-- ===== src/Service/Task/Amend/Replay.antt =====
-- The audit trail against an independent reading of it: an entry names a field and its values
-- before and after, and can be applied to a task forwards and backwards.
use secunda_test.Base.{Option, none, some, List, [], ◌∷◌, ◌++◌, ◌≡◌, refl, ℤ, if◌then◌else◌}
use secunda_test.Text.{Text, text_eq}
use secunda_test.Text.Decimal.{parse_int}
use secunda_test.Domain.{Task, TaskHistory}
use secunda_test.Service.Task.Amend.{field_title, field_description, field_status, field_assignee}

-- The value in a column that an entry may leave NULL.
abbrev pub value_or_empty : Option Text → Text
value_or_empty none = []
value_or_empty (some s) = s

abbrev pub read_assignee : Text → Option ℤ
read_assignee [] = none
read_assignee (c ∷ s) = parse_int (c ∷ s)

-- The task with one field given by its name and printed value; other names mean nothing.
unfoldable pub put_field : Text → Text → Task → Task
unfolding text_eq
put_field field value t =
    if text_eq field field_title
    then record t { title = value }
    else if text_eq field field_description
    then record t { description = value }
    else if text_eq field field_status
    then record t { status = value }
    else if text_eq field field_assignee
    then record t { assignee_id = read_assignee value }
    else t

-- The entries applied in order, oldest first.
unfoldable pub replay : List TaskHistory → Task → Task
replay [] t = t
replay (h ∷ hs) t = replay hs (put_field h.field (value_or_empty h.new_value) t)

-- The entries taken back, newest first.
unfoldable pub rewind : List TaskHistory → Task → Task
rewind [] t = t
rewind (h ∷ hs) t = put_field h.field (value_or_empty h.old_value) (rewind hs t)

pub replay-append :
    (hs : List TaskHistory) (h : TaskHistory) (t : Task)
    → replay (hs ++ h ∷ []) t ≡ put_field h.field (value_or_empty h.new_value) (replay hs t)
unfolding replay
replay-append [] h t = refl
replay-append (g ∷ hs) h t = replay-append hs h _

pub rewind-append :
    (hs : List TaskHistory) (h : TaskHistory) (t : Task)
    → rewind (hs ++ h ∷ []) t ≡ rewind hs (put_field h.field (value_or_empty h.old_value) t)
unfolding rewind
rewind-append [] h t = refl
rewind-append (g ∷ hs) h t = rw (rewind-append hs h t)
