-- ===== src/Cache/Redis/Registering.antt =====
-- `SetTasks` keeps the registry.
use secunda_test.Base.{
  ℕ, zero, suc, Option, subst, ◌+◌, ◌≤◌, ◌<◌, ◌≡◌, refl, true, false, none, some, [], ◌∷◌, ℤ, pos,
  ltb_ℤ, arith, Bool-cases, inl, inr, Option-cases, sym, ◌∙◌, ap,
}
use secunda_test.Text.{Text, text_eq, text_eq_iff}
use secunda_test.Cache.Keys.{team_set_key, team_id_from_key}
use secunda_test.Cache.Redis.{set, register_commands}
use secunda_test.Cache.Redis.Contract.{Store, contains, effects, live, deadline}
use secunda_test.Cache.Redis.Registry.{IsSetKey, IsRegistered, IsTracked, live_before}
use secunda_test.Cache.Redis.Stored.{
  tracked_commands, stored-strings, stored-other, stored-set, grown, stored-members, text_neq,
}

-- The registry behind the commands for the key of a list, whatever the list is written as.
module _ (t before now : ℕ) (key raw : Text) (s : Store) (apart : ¬ (IsSetKey key))
    (tracked : IsTracked (suc t) before s) (passed : before ≤ now) where
  apart_of : (t : ℤ) → text_eq key (team_set_key t) ≡ false
  apart_of t = text_neq key (team_set_key t) (λ same. apart (t, same))

  no_string : (t : ℤ) → s.strings (team_set_key t) ≡ none
  no_string t = elim (Option-cases (s.strings (team_set_key t))) [
    | inl missing ↦ missing
    | inr ((v, d), held) ↦ absurd (tracked.keys_apart (team_set_key t) v d held (t, refl))
  ]

  module _ (own : Text) (is_own : own ≡ team_set_key (team_id_from_key key)) where
    clear : s.strings own ≡ none
    clear = ap s.strings is_own ∙ no_string (team_id_from_key key)

    differs : text_eq key own ≡ false
    differs = ap (text_eq key) is_own ∙ apart_of (team_id_from_key key)

    effects-IsRegistered :
        (k v : Text) (o : Option ℕ)
        → (effects now (tracked_commands (suc t) key raw own) s).strings k ≡ some (v, o)
        → live now o ≡ true
        → ltb_ℤ (pos 0) (team_id_from_key k) ≡ true
        → (d : ℕ) × (o ≡ some d)
          × IsRegistered (effects now (tracked_commands (suc t) key raw own) s) k d
          × (d ≤ now + suc t)
    effects-IsRegistered k v o found alive positive =
        let (ms, (grows, has_key, keeps)) = grown t now key raw own s differs clear (s.sets own) in
        let behind = stored-set t now key raw own s differs clear ∙ grows in
        let sets = (effects now (tracked_commands (suc t) key raw own) s).sets in
        elim (stored-strings t now key raw own s differs clear k v o found) [
          | inl (same, at_once) ↦ (
            now + suc t,
            at_once,
            (
              ms,
              now + suc t,
              ap (λ x. sets (team_set_key (team_id_from_key x))) same
                  ∙ ap sets (sym is_own)
                  ∙ behind,
              ap (contains ms) same ∙ has_key,
              omega arith,
            ),
            omega arith,
          )
          | inr held ↦
              let (d, ends, (ms0, e, in_set, member, longer), near) =
                tracked.registered k v o held (live_before before now o passed alive) positive in
              let early : live now (some d) ≡ true = subst (λ x. live now x ≡ true) ends alive in
              elim (Bool-cases (text_eq own (team_set_key (team_id_from_key k)))) [
                | inl same ↦
                    let shared = (text_eq_iff own (team_set_key (team_id_from_key k))).0 same in
                    (
                      d,
                      ends,
                      (
                        ms,
                        now + suc t,
                        ap sets (sym shared) ∙ behind,
                        keeps ms0 e k (ap s.sets shared ∙ in_set) (ground arith) member,
                        omega arith,
                      ),
                      omega arith,
                    )
                | inr other ↦
                    let untouched =
                      stored-other t now key raw own s differs clear
                        (team_set_key (team_id_from_key k)) (apart_of (team_id_from_key k)) other in
                    (d, ends, (ms0, e, untouched ∙ in_set, member, longer), omega arith)
              ]
        ]

    pub effects-IsTracked :
        IsTracked (suc t) now (effects now (tracked_commands (suc t) key raw own) s)
    effects-IsTracked = record {
      registered = effects-IsRegistered;
      keys_apart = λ k v d found.
          elim (stored-strings t now key raw own s differs clear k v d found) [
            | inl (same, _) ↦ λ (t, is_set). apart (t, sym same ∙ is_set)
            | inr held ↦ tracked.keys_apart k v d held
          ];
      members_apart = λ x ms d m in_set member.
          elim (stored-members t now key raw own s differs clear x ms d m in_set member) [
            | inl same ↦ λ (t, is_set). apart (t, sym same ∙ is_set)
            | inr (ms0, d0, held, old) ↦ tracked.members_apart x ms0 d0 m held old
          ];
    }

  -- A key of no team is stored without a set.
  lone-IsTracked :
      ltb_ℤ (pos 0) (team_id_from_key key) ≡ false
      → IsTracked (suc t) now (effects now (set key raw (suc t) ∷ []) s)
  unfolding effects
  lone-IsTracked no_team = record {
    registered = λ k v d found alive positive. elim (Bool-cases (text_eq key k)) [
      | inl same ↦ absurd (
          ground (arith, ap (λ x. ltb_ℤ (pos 0) (team_id_from_key x)) ((text_eq_iff key k).0 same)))
      | inr other ↦
          let held : s.strings k ≡ some (v, d) = ground (arith, found) in
          let (end, ends, (ms0, e, in_set, member, longer), near) =
            tracked.registered k v d held (live_before before now d passed alive) positive in
          let apart_k = apart_of (team_id_from_key k) in
          (end, ends, (ms0, e, ground (arith, in_set, apart_k), member, longer), omega arith)
    ];
    keys_apart = λ k v d found. elim (Bool-cases (text_eq key k)) [
      | inl same ↦ λ (t, is_set). apart (t, (text_eq_iff key k).0 same ∙ is_set)
      | inr other ↦ tracked.keys_apart k v d (ground (arith, found))
    ];
    members_apart =
        λ x ms d m in_set member. tracked.members_apart x ms d m (ground (arith, in_set)) member;
  }

  registering :
      IsTracked
        (suc t)
        now
        (effects now (register_commands (suc t) key raw (team_id_from_key key)) s)
  registering = elim (Bool-cases (ltb_ℤ (pos 0) (team_id_from_key key))) [
    | inl positive ↦ rw positive (effects-IsTracked (team_set_key (team_id_from_key key)) refl)
    | inr no_team ↦ rw no_team (lone-IsTracked no_team)
  ]

-- `SetTasks` keeps the registry if its time to live is not 0.
pub register_commands-IsTracked :
    (ttl before now : ℕ) (key raw : Text) (s : Store)
    → 0 < ttl
    → ¬ (IsSetKey key)
    → IsTracked ttl before s
    → before ≤ now
    → IsTracked ttl now (effects now (register_commands ttl key raw (team_id_from_key key)) s)
register_commands-IsTracked zero before now key raw s lives apart tracked passed =
    absurd (omega (arith, lives))
register_commands-IsTracked (suc t) before now key raw s lives apart tracked passed =
    registering t before now key raw s apart tracked passed

pub register_commands-strings :
    (ttl now : ℕ) (key raw : Text) (team : ℤ) (s : Store)
    → text_eq (team_set_key team) key ≡ false
    → (effects now (register_commands ttl key raw team) s).strings key
      ≡ some (raw, deadline now ttl)
unfolding effects
register_commands-strings ttl now key raw team s apart = elim (Bool-cases (ltb_ℤ (pos 0) team)) [
  | inl positive ↦ rw positive (ground (arith, apart, text_eq_iff key key))
  | inr no_team ↦ rw no_team (ground (arith, text_eq_iff key key))
]
