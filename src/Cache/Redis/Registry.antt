-- ===== src/Cache/Redis/Registry.antt =====
-- The registry of cached lists: every list that is alive is in its team's set, and the set lives as long.
use secunda_test.Base.{
  subst, ℕ, ◌+◌, ◌≤◌, ◌≡◌, refl, true, false, Option, none, some, List, [], ◌∷◌, ℤ, pos, ltb_ℤ,
  arith, Bool-cases, inl, inr, ◌∙◌, ap,
}
use secunda_test.Text.{Text, text_eq, text_eq_iff}
use secunda_test.Cache.Keys.{team_set_key, team_id_from_key}
use secunda_test.Cache.Redis.{drop_commands}
use secunda_test.Cache.Redis.Contract.{Store, contains, live, effects}

abbrev pub IsSetKey : Text → Type 0
IsSetKey x = (t : ℤ) × (x ≡ team_set_key t)

abbrev pub team_of : Text → ℤ
team_of key = team_id_from_key key

-- The set of the key's team has the key, and lives until `d` at least.
abbrev pub IsRegistered : Store → Text → ℕ → Type 0
IsRegistered s k d =
    (ms : List Text) × (e : ℕ) × (s.sets (team_set_key (team_id_from_key k)) ≡ some (ms, some e))
    × (contains ms k ≡ true)
    × (d ≤ e)

pub record IsTracked (ttl now : ℕ) (s : Store) : Type 0 where
  pub registered :
      (k v : Text) (o : Option ℕ)
      → s.strings k ≡ some (v, o)
      → live now o ≡ true
      → ltb_ℤ (pos 0) (team_id_from_key k) ≡ true
      → (d : ℕ) × (o ≡ some d) × IsRegistered s k d × (d ≤ now + ttl)
  pub keys_apart : (k v : Text) (d : Option ℕ) → s.strings k ≡ some (v, d) → ¬ (IsSetKey k)
  pub members_apart :
      (x : Text) (ms : List Text) (d : Option ℕ) (m : Text)
      → s.sets x ≡ some (ms, d)
      → contains ms m ≡ true
      → ¬ (IsSetKey m)

-- What is alive later is alive before.
pub live_before :
    (now later : ℕ) (o : Option ℕ) → now ≤ later → live later o ≡ true → live now o ≡ true
live_before now later none h alive = refl
live_before now later (some d) h alive = ground arith

pub IsTracked-later :
    (ttl : ℕ) {now later : ℕ} {s : Store}
    → IsTracked ttl now s
    → now ≤ later
    → IsTracked ttl later s
IsTracked-later ttl {now = now} {later = later} t h = record {
  registered = λ k v d found alive positive.
      let (e, same, r, near) =
        t.registered k v d found (live_before now later d h alive) positive in
      (e, same, r, omega arith);
  keys_apart = t.keys_apart;
  members_apart = t.members_apart;
}

module _ (now : ℕ) (set_key : Text) (ks : List Text) (s : Store) where
  abbrev pub dropped : Store
  dropped = effects now (drop_commands set_key ks) s

  pub dropped-strings :
      (x : Text) {p : Text × Option ℕ}
      → (effects now (drop_commands set_key ks) s).strings x ≡ some p
      → (s.strings x ≡ some p) × (contains ks x ≡ false) × (text_eq set_key x ≡ false)
  unfolding effects contains
  dropped-strings x h = elim ks [ [] ↦ ground arith | k ∷ rest ↦ ground arith ]

  pub dropped-sets :
      (x : Text) {p : List Text × Option ℕ}
      → (effects now (drop_commands set_key ks) s).sets x ≡ some p
      → s.sets x ≡ some p
  unfolding effects contains
  dropped-sets x h = elim ks [ [] ↦ ground arith | k ∷ rest ↦ ground arith ]

  pub kept-sets :
      (x : Text)
      → contains ks x ≡ false
      → text_eq set_key x ≡ false
      → (effects now (drop_commands set_key ks) s).sets x ≡ s.sets x
  unfolding effects contains
  kept-sets x absent other = elim ks [ [] ↦ ground arith | k ∷ rest ↦ ground arith ]

-- An answer to `SMembers`: all live members at the instant, and nothing that is no member.
pub record Lists (s : Store) (set_key : Text) (instant : ℕ) (ks : List Text) : Type 0 where
  pub complete :
      (ms : List Text) (d : Option ℕ) (m : Text)
      → s.sets set_key ≡ some (ms, d)
      → live instant d ≡ true
      → contains ms m ≡ true
      → contains ks m ≡ true
  pub sound :
      (m : Text)
      → contains ks m ≡ true
      → (ms : List Text) × (d : Option ℕ) × (s.sets set_key ≡ some (ms, d)) × (contains ms m ≡ true)

module _ (ttl now instant later : ℕ) (s : Store) (team : ℤ) (ks : List Text)
    (tracked : IsTracked ttl now s) (asked : instant ≤ later) (passed : now ≤ later)
    (lists : Lists s (team_set_key team) instant ks) where
  -- What is alive after the deletion was not in the set.
  pub dropped-none :
      (k v : Text) (d : Option ℕ)
      → (effects later (drop_commands (team_set_key team) ks) s).strings k ≡ some (v, d)
      → live later d ≡ true
      → ltb_ℤ (pos 0) (team_id_from_key k) ≡ true
      → text_eq (team_set_key team) (team_set_key (team_id_from_key k)) ≡ false
  dropped-none k v d found alive positive =
      elim (Bool-cases (text_eq (team_set_key team) (team_set_key (team_id_from_key k)))) [
        | inr differ ↦ differ
        | inl same ↦
            let (before, absent, _) = dropped-strings later (team_set_key team) ks s k found in
            let (end, same_end, (ms, e, in_set, member, longer), _) =
              tracked.registered k v d before (live_before now later d passed alive) positive in
            let early : live later (some end) ≡ true =
              subst (λ o. live later o ≡ true) same_end alive in
            let own : s.sets (team_set_key team) ≡ some (ms, some e) =
              ap s.sets ((text_eq_iff _ _).0 same) ∙ in_set in
            let listed = lists.complete ms (some e) k own (ground arith) member in
            absurd (ground arith)
      ]

  not_listed : (t : ℤ) → contains ks (team_set_key t) ≡ false
  not_listed t = elim (Bool-cases (contains ks (team_set_key t))) [
    | inr absent ↦ absent
    | inl listed ↦
        let (ms, d, in_set, member) = lists.sound (team_set_key t) listed in
        absurd
          (tracked.members_apart (team_set_key team) ms d (team_set_key t) in_set member (t, refl))
  ]

  pub dropped-IsTracked :
      IsTracked ttl later (effects later (drop_commands (team_set_key team) ks) s)
  dropped-IsTracked = record {
    registered = λ k v d found alive positive.
        let (before, _, _) = dropped-strings later (team_set_key team) ks s k found in
        let (end, same_end, (ms, e, in_set, member, longer), near) =
          tracked.registered k v d before (live_before now later d passed alive) positive in
        let survives =
          kept-sets later (team_set_key team) ks s (team_set_key (team_id_from_key k))
            (not_listed (team_id_from_key k)) (dropped-none k v d found alive positive) in
        (end, same_end, (ms, e, survives ∙ in_set, member, longer), omega arith);
    keys_apart = λ k v d found.
        tracked.keys_apart k v d (dropped-strings later (team_set_key team) ks s k found).0;
    members_apart = λ x ms d m in_set.
        tracked.members_apart x ms d m (dropped-sets later (team_set_key team) ks s x in_set);
  }
