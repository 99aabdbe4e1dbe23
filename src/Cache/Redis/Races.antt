-- ===== src/Cache/Redis/Races.antt =====
-- `SetTasks` of one request between the two round trips of `InvalidateTeam` of another.
use secunda_test.Base.{
  ℕ, ◌≡◌, refl, ◌∙◌, true, false, none, some, List, [], ◌∷◌, ℤ, pos, ltb_ℤ, Bool-cases, inl, inr,
}
use secunda_test.Text.{Text, text_eq, text_eq_iff}
use secunda_test.Cache.Keys.{team_set_key}
use secunda_test.Cache.Redis.{set, sadd, expire, register_commands, drop_commands}
use secunda_test.Cache.Redis.Contract.{Store, contains, effect, effects, holds_string, deadline}

text_eq_same : (t : Text) → text_eq t t ≡ true
text_eq_same t = (text_eq_iff t t).1 refl

-- What the commands do to a string.
set-string :
    (now ttl : ℕ) (key raw : Text) (s : Store)
    → (effect now (set key raw ttl) s).strings key ≡ some (raw, deadline now ttl)
unfolding effect
set-string now ttl key raw s = rw (text_eq_same key) refl

sadd-string :
    (now : ℕ) (k m x : Text) (s : Store) → (effect now (sadd k m) s).strings x ≡ s.strings x
unfolding effect
sadd-string now k m x s = elim (Bool-cases (holds_string now (s.strings k))) [
  | inl taken ↦ rw taken refl
  | inr free ↦ rw free refl
]

expire-string :
    (now ttl : ℕ) (k x : Text) (s : Store)
    → text_eq k x ≡ false
    → (effect now (expire k ttl) s).strings x ≡ s.strings x
unfolding effect
expire-string now ttl k x s apart = rw apart refl

module _ (team_id : ℤ) (key raw : Text) (positive : ltb_ℤ (pos 0) team_id ≡ true)
    (apart : text_eq (team_set_key team_id) key ≡ false) where
  -- The list is stored under its key.
  registered :
      (now ttl : ℕ) (s : Store)
      → (effects now (register_commands ttl key raw team_id) s).strings key
        ≡ some (raw, deadline now ttl)
  unfolding effects
  registered now ttl s =
      let team = team_set_key team_id in
      let stored = effect now (set key raw ttl) s in
      rw positive (
        expire-string now ttl team key (effect now (sadd team key) stored) apart
        ∙ sadd-string now team key key stored
        ∙ set-string now ttl key raw s)

  -- Behind the commands of an invalidation that does not know the key.
  dropped :
      (now : ℕ) (keys : List Text) (s : Store)
      → contains keys key ≡ false
      → ((effects now (drop_commands (team_set_key team_id) keys) s).strings key ≡ s.strings key)
        × ((effects now (drop_commands (team_set_key team_id) keys) s).sets (team_set_key team_id)
            ≡ none)
  unfolding effects contains
  dropped now [] s unknown = (rw apart refl, rw (text_eq_same (team_set_key team_id)) refl)
  dropped now (k ∷ ks) s unknown =
      (rw (apart, unknown) refl, rw (text_eq_same (team_set_key team_id)) refl)

  -- An invalidation reads the members of the team's set; another request stores a list under a key that is not
  -- among them; then the invalidation drops what it has read, and the set. Whatever the store was, the new
  -- list is still there until its time to live is over, for ever if that is 0, and the team's set is gone, so
  -- that no invalidation finds the list.
  pub effects-register_commands_lost :
      (before behind ttl : ℕ) (keys : List Text) (s : Store)
      → contains keys key ≡ false
      → ((effects behind
              (drop_commands (team_set_key team_id) keys)
              (effects before (register_commands ttl key raw team_id) s)).strings
            key
          ≡ some (raw, deadline before ttl))
        × ((effects behind
                (drop_commands (team_set_key team_id) keys)
                (effects before (register_commands ttl key raw team_id) s)).sets
              (team_set_key team_id)
            ≡ none)
  effects-register_commands_lost before behind ttl keys s unknown =
      let (kept, gone) =
        dropped behind keys (effects before (register_commands ttl key raw team_id) s) unknown in
      (kept ∙ registered before ttl s, gone)
