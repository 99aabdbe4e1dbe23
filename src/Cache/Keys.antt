-- ===== src/Cache/Keys.antt =====
-- The keys of internal/cache/cache.go: `TasksKey`, `teamSetKey` and `teamIDFromKey`.
pub mod Laws
use secunda_test.Base.{
  ◌≡◌, refl, Option, none, some, ◌++◌, ℤ, pos, length, take, drop, if◌then◌else◌, negsuc,
}
use secunda_test.Text.{Text, codes, has_prefix, index_byte}
use secunda_test.Text.Decimal.{format_int, parse_int}
use secunda_test.Domain.{TaskFilter, status_done}

abbrev pub key_prefix : Text
key_prefix = codes "tasks:team:"

-- `"all"` for no filter.
abbrev pub status_part : Option Text → Text
status_part none = codes "all"
status_part (some s) = s

abbrev pub assignee_part : Option ℤ → Text
assignee_part none = codes "all"
assignee_part (some a) = format_int a

unfoldable pub tasks_key : TaskFilter → Text
tasks_key f =
    key_prefix
    ++ (format_int f.team_id
        ++ (codes ":status:"
            ++ (status_part f.status
                ++ (codes ":assignee:"
                    ++ (assignee_part f.assignee_id
                        ++ (codes ":limit:"
                            ++ (format_int f.limit
                                ++ (codes ":offset:" ++ format_int f.offset))))))))

unfoldable pub team_set_key : ℤ → Text
team_set_key team_id = key_prefix ++ (format_int team_id ++ codes ":keys")

abbrev pub or_zero : Option ℤ → ℤ
or_zero none = pos 0
or_zero (some n) = n

-- The digits up to the first colon, once the prefix is off.
unfoldable pub id_before_colon : Text → ℤ
id_before_colon rest = elim (index_byte rest b':') [
  | none ↦ pos 0
  | some end ↦ or_zero (parse_int (take end rest))
]

unfoldable pub team_id_from_key : Text → ℤ
unfolding id_before_colon
team_id_from_key key =
    if has_prefix key key_prefix then id_before_colon (drop (length key_prefix) key) else pos 0

tasks_key_runs :
    tasks_key (record {
      team_id = pos 7;
      status = some status_done;
      assignee_id = none;
      limit = pos 20;
      offset = pos 0;
    })
    ≡ codes "tasks:team:7:status:done:assignee:all:limit:20:offset:0"
unfolding tasks_key format_int
tasks_key_runs = refl

team_id_from_key_runs :
    (team_id_from_key (codes "tasks:team:-3:x") ≡ negsuc 2)
    × (team_id_from_key (codes "tasks:team:3") ≡ pos 0)
    × (team_id_from_key (codes "task:3:") ≡ pos 0)
unfolding team_id_from_key has_prefix index_byte parse_int
team_id_from_key_runs = (refl, refl, refl)
