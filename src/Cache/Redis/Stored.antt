-- ===== src/Cache/Redis/Stored.antt =====
-- What `SetTasks` does to the registry.
use secunda_test.Base.{
  ℕ, suc, ◌+◌, ◌<◌, ◌≡◌, refl, true, false, Option, none, some, List, [], ◌∷◌, ltb, arith,
  Bool-cases, inl, inr, ◌⊎◌, sym, ◌∙◌, ap,
}
use secunda_test.Text.{Text, text_eq, text_eq_iff}
use secunda_test.Cache.Redis.{Command, set, sadd, expire}
use secunda_test.Cache.Redis.Contract.{Store, contains, added, prolonged, effects}

abbrev pub tracked_commands : ℕ → Text → Text → Text → List Command
tracked_commands ttl key raw set_key = set key raw ttl ∷ sadd set_key key ∷ expire set_key ttl ∷ []

module _ (t now : ℕ) (key raw set_key : Text) (s : Store) (apart : text_eq key set_key ≡ false)
    (no_string : s.strings set_key ≡ none) where
  abbrev after : Store
  after = effects now (tracked_commands (suc t) key raw set_key) s

  pub stored-strings :
      (x v : Text) (d : Option ℕ)
      → (effects now (tracked_commands (suc t) key raw set_key) s).strings x ≡ some (v, d)
      → ((x ≡ key) × (d ≡ some (now + suc t))) ⊎ (s.strings x ≡ some (v, d))
  unfolding effects contains
  stored-strings x v d h = ground (arith, text_eq_iff key x, text_eq_iff set_key x)

  pub stored-other :
      (x : Text)
      → text_eq key x ≡ false
      → text_eq set_key x ≡ false
      → (effects now (tracked_commands (suc t) key raw set_key) s).sets x ≡ s.sets x
  unfolding effects contains
  stored-other x h k = ground arith

  pub stored-set :
      (effects now (tracked_commands (suc t) key raw set_key) s).sets set_key
      ≡ prolonged now (suc t) (some (added now key (s.sets set_key)))
  unfolding effects contains
  stored-set = ground (arith, text_eq_iff set_key set_key)

  -- A set that was prolonged after the key was added: it has the key and what was alive before.
  abbrev pub IsGrown : Option (List Text × Option ℕ) → List Text → Type 0
  IsGrown o ms =
      (prolonged now (suc t) (some (added now key o)) ≡ some (ms, some (now + suc t)))
      × (contains ms key ≡ true)
      × ((ms0 : List Text) (e : ℕ) (m : Text)
          → o ≡ some (ms0, some e)
          → now < e
          → contains ms0 m ≡ true
          → contains ms m ≡ true)

  pub grown : (o : Option (List Text × Option ℕ)) → (ms : List Text) × IsGrown o ms
  unfolding contains
  grown none = (
    key ∷ [],
    (refl, ground (arith, text_eq_iff key key), (λ ms0 e m h. absurd (ground (arith, h)))),
  )
  grown (some (ms, none)) = (
    key ∷ ms,
    (refl, ground (arith, text_eq_iff key key), (λ ms0 e m h. absurd (ground (arith, h)))),
  )
  grown (some (ms, some d)) = elim (Bool-cases (ltb now d)) [
    | inl alive ↦ (
      key ∷ ms,
      (
        ground arith,
        ground (arith, text_eq_iff key key),
        (λ ms0 e m h early member. ground (arith, h)),
      ),
    )
    | inr dead ↦ (
      key ∷ [],
      (
        ground arith,
        ground (arith, text_eq_iff key key),
        (λ ms0 e m h early member. absurd (ground (arith, h))),
      ),
    )
  ]

  grown-members :
      (o : Option (List Text × Option ℕ)) (ms : List Text) (d : Option ℕ) (m : Text)
      → prolonged now (suc t) (some (added now key o)) ≡ some (ms, d)
      → contains ms m ≡ true
      → (m ≡ key)
        ⊎ ((ms0 : List Text) × (d0 : Option ℕ) × (o ≡ some (ms0, d0)) × (contains ms0 m ≡ true))
  unfolding contains
  grown-members o ms d m h member = elim (Bool-cases (text_eq key m)) [
    | inl same ↦ inl (sym ((text_eq_iff key m).0 same))
    | inr differ ↦ inr (older differ o h)
  ]
    where
      older :
          text_eq key m ≡ false
          → (o : Option (List Text × Option ℕ))
          → prolonged now (suc t) (some (added now key o)) ≡ some (ms, d)
          → (ms0 : List Text) × (d0 : Option ℕ) × (o ≡ some (ms0, d0)) × (contains ms0 m ≡ true)
      older differ none h =
          let found : key ∷ [] ≡ ms = ground (arith, h) in
          absurd (ground (arith, ap (λ l. contains l m) found))
      older differ (some (ms0, none)) h =
          let found : key ∷ ms0 ≡ ms = ground (arith, h) in
          (ms0, none, refl, ground (arith, ap (λ l. contains l m) found))
      older differ (some (ms0, some d0)) h = elim (Bool-cases (ltb now d0)) [
        | inl alive ↦
            let found : key ∷ ms0 ≡ ms = ground (arith, h, alive) in
            (ms0, some d0, refl, ground (arith, ap (λ l. contains l m) found))
        | inr dead ↦
            let found : key ∷ [] ≡ ms = ground (arith, h, dead) in
            absurd (ground (arith, ap (λ l. contains l m) found))
      ]

  stored-own :
      (x : Text)
      → text_eq key x ≡ true
      → text_eq set_key x ≡ false
      → (effects now (tracked_commands (suc t) key raw set_key) s).sets x ≡ none
  unfolding effects contains
  stored-own x h k = ground arith

  pub stored-members :
      (x : Text) (ms : List Text) (d : Option ℕ) (m : Text)
      → (effects now (tracked_commands (suc t) key raw set_key) s).sets x ≡ some (ms, d)
      → contains ms m ≡ true
      → (m ≡ key)
        ⊎ ((ms0 : List Text) × (d0 : Option ℕ) × (s.sets x ≡ some (ms0, d0))
            × (contains ms0 m ≡ true))
  stored-members x ms d m h member = elim (Bool-cases (text_eq set_key x)) [
    | inl same ↦
        elim (grown-members (s.sets set_key) ms d m
          (sym stored-set
            ∙ ap (effects now (tracked_commands (suc t) key raw set_key) s).sets
                ((text_eq_iff set_key x).0 same)
            ∙ h)
          member) [
            | inl own ↦ inl own
            | inr (ms0, d0, held, old) ↦
                inr (ms0, d0, ap s.sets (sym ((text_eq_iff set_key x).0 same)) ∙ held, old)
          ]
    | inr differ ↦ elim (Bool-cases (text_eq key x)) [
      | inl own ↦ absurd (ground (arith, stored-own x own differ, h))
      | inr other ↦ inr (ms, d, sym (stored-other x other differ) ∙ h, member)
    ]
  ]

pub text_neq : (a b : Text) → ¬ (a ≡ b) → text_eq a b ≡ false
text_neq a b h = ground (arith, text_eq_iff a b)
