-- ===== src/Cache/Redis/Contract.antt =====
-- What Redis documents of the commands that the cache sends, as an effect on a store of strings and sets with
-- deadlines, and what a client promises: a transaction happens at one instant or not at all.
use secunda_test.Base.{
  ℕ, zero, suc, ◌+◌, ◌≤◌, ◌≡◌, ◌⊎◌, Bool, true, false, Option, none, some, List, [], ◌∷◌, ◌||◌, ltb,
  if◌then◌else◌,
}
use secunda_test.Text.{Text, text_eq}
use secunda_test.Errors.{GoError}
use secunda_test.Errors.Action.{ok, err}
use secunda_test.Cache.Redis.{Command, set, sadd, expire, del, Redis}

-- A string and a set, with their deadlines if they have one. What is past its deadline is not there.
pub record Store : Type 0 where
  pub strings : Text → Option (Text × Option ℕ)
  pub sets : Text → Option (List Text × Option ℕ)

unfoldable pub contains : List Text → Text → Bool
unfolding text_eq
contains [] x = false
contains (k ∷ ks) x = text_eq k x || contains ks x

abbrev pub live : ℕ → Option ℕ → Bool
live now none = true
live now (some d) = ltb now d

abbrev pub added : ℕ → Text → Option (List Text × Option ℕ) → List Text × Option ℕ
added now m none = (m ∷ [], none)
added now m (some (ms, d)) = if live now d then (m ∷ ms, d) else (m ∷ [], none)

-- `Set` with the expiration 0 sets no deadline; `EXPIRE` by 0 deletes the key.
abbrev pub deadline : ℕ → ℕ → Option ℕ
deadline now zero = none
deadline now (suc t) = some (now + suc t)

abbrev pub prolonged : {A : Type 0} → ℕ → ℕ → Option (A × Option ℕ) → Option (A × Option ℕ)
prolonged now ttl none = none
prolonged now zero (some (a, d)) = none
prolonged now (suc t) (some (a, d)) = if live now d then some (a, some (now + suc t)) else none

abbrev pub holds_string : ℕ → Option (Text × Option ℕ) → Bool
holds_string now none = false
holds_string now (some (v, d)) = live now d

-- One command at an instant. `SADD` on a string fails, and the commands behind it still run.
unfoldable pub effect : ℕ → Command → Store → Store
unfolding contains
effect now (set key value ttl) s = record {
  strings = λ x. if text_eq key x then some (value, deadline now ttl) else s.strings x;
  sets = λ x. if text_eq key x then none else s.sets x;
}
effect now (sadd key m) s =
    if holds_string now (s.strings key)
    then s
    else record s { sets = λ x. if text_eq key x then some (added now m (s.sets x)) else s.sets x }
effect now (expire key ttl) s = record {
  strings = λ x. if text_eq key x then prolonged now ttl (s.strings x) else s.strings x;
  sets = λ x. if text_eq key x then prolonged now ttl (s.sets x) else s.sets x;
}
effect now (del keys) s = record {
  strings = λ x. if contains keys x then none else s.strings x;
  sets = λ x. if contains keys x then none else s.sets x;
}

unfoldable pub effects : ℕ → List Command → Store → Store
unfolding effect
effects now [] s = s
effects now (c ∷ cs) s = effects now cs (effect now c s)

module _ {W : Type 0} (store : W → Store) (clock : W → ℕ) where
  -- The store as it was, later.
  pub record IsLater (w w' : W) : Type 0 where
    pub unchanged : store w' ≡ store w
    pub after : clock w ≤ clock w'

  -- The commands at one instant between two worlds.
  pub record IsExecuted (cs : List Command) (w w' : W) : Type 0 where
    pub instant : ℕ
    pub started : clock w ≤ instant
    pub ended : instant ≤ clock w'
    pub changed : store w' ≡ effects instant cs (store w)

  -- The answer is the set's live members.
  pub record IsListed (key : Text) (ks : List Text) (w w' : W) : Type 0 where
    pub later : IsLater w w'
    pub instant : ℕ
    pub ended : instant ≤ clock w'
    pub complete :
        (ms : List Text) (d : Option ℕ) (m : Text)
        → (store w).sets key ≡ some (ms, d)
        → live instant d ≡ true
        → contains ms m ≡ true
        → contains ks m ≡ true
    pub sound :
        (m : Text)
        → contains ks m ≡ true
        → (ms : List Text) × (d : Option ℕ) × ((store w).sets key ≡ some (ms, d))
          × (contains ms m ≡ true)

pub record RedisLaws {W : Type 0} (redis : Redis W) : Type 0 where
  pub store : W → Store
  pub clock : W → ℕ
  pub get_ok :
      (key raw : Text) (w w' : W)
      → redis.get key w ≡ (ok raw, w')
      → IsLater store clock w w'
        × ((d : Option ℕ) × ((store w).strings key ≡ some (raw, d)) × (live (clock w) d ≡ true))
  pub get_err :
      (key : Text) (e : GoError) (w w' : W)
      → redis.get key w ≡ (err e, w')
      → IsLater store clock w w'
  pub smembers_ok :
      (key : Text) (ks : List Text) (w w' : W)
      → redis.smembers key w ≡ (ok ks, w')
      → IsListed store clock key ks w w'
  pub smembers_err :
      (key : Text) (e : GoError) (w w' : W)
      → redis.smembers key w ≡ (err e, w')
      → IsLater store clock w w'
  pub exec_ok :
      (cs : List Command) (w w' : W)
      → redis.exec cs w ≡ (ok tt, w')
      → IsExecuted store clock cs w w'
  pub exec_err :
      (cs : List Command) (e : GoError) (w w' : W)
      → redis.exec cs w ≡ (err e, w')
      → IsLater store clock w w' ⊎ IsExecuted store clock cs w w'
