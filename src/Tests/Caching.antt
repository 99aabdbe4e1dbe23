-- ===== src/Tests/Caching.antt =====
-- `RedisCache` over a small Redis that keeps its contract.
use secunda_test.Base.{
  false, ap, sym, ◌∙◌, ℕ, ◌≡◌, refl, true, Option, none, some, List, [], ◌∷◌, pos, arith,
  if◌then◌else◌, inl, Bool-cases, inr,
}
use secunda_test.Text.{Text, codes, text_eq, has_prefix, index_byte}
use secunda_test.Errors.{sentinel, redis_nil, other}
use secunda_test.Errors.Action.{Result, ok, err}
use secunda_test.Cache.Keys.{tasks_key, team_set_key, team_id_from_key}
use secunda_test.Cache.Redis.{
  register_commands, drop_commands, Redis, Json, RedisCache, get_tasks, set_tasks, invalidate_team,
}
use secunda_test.Cache.Redis.Races.{effects-register_commands_lost}
use secunda_test.Cache.Redis.Contract.{Store, contains, live, effects, IsLater, RedisLaws}
use secunda_test.Cache.Redis.Coherence.{IsCoherent, calls-IsCoherent, invalidate_team-get_tasks}
use secunda_test.Tests.Fixtures.{running}
use secunda_test.Tests.Keys.{done_page}

pub record Server : Type 0 where
  pub store : Store
  pub now : ℕ

abbrev pub string_answer : ℕ → Option (Text × Option ℕ) → Result Text
string_answer now none = err (sentinel redis_nil)
string_answer now (some (v, d)) = if live now d then ok v else err (sentinel redis_nil)

abbrev pub members_answer : ℕ → Option (List Text × Option ℕ) → List Text
members_answer now none = []
members_answer now (some (ms, d)) = if live now d then ms else []

abbrev pub toy_redis : Redis Server
toy_redis = record {
  get = λ key w. (string_answer w.now (w.store.strings key), w);
  smembers = λ key w. (ok (members_answer w.now (w.store.sets key)), w);
  exec = λ cs w. (ok tt, record w { store = effects w.now cs w.store });
}

pub same_server :
    (w w' : Server) → w ≡ w' → IsLater (λ (v : Server). v.store) (λ (v : Server). v.now) w w'
same_server w w' e = record {
  unchanged = ap (λ (v : Server). v.store) (sym e);
  after = let same = ap (λ (v : Server). v.now) e in omega arith;
}

pub string_answer-ok :
    (now : ℕ) (raw : Text) (o : Option (Text × Option ℕ))
    → string_answer now o ≡ ok raw
    → (d : Option ℕ) × (o ≡ some (raw, d)) × (live now d ≡ true)
string_answer-ok now raw none h = absurd (ground arith)
string_answer-ok now raw (some (v, d)) h = elim (Bool-cases (live now d)) [
  | inl alive ↦ (d, ap (λ x. some (x, d)) (ground (arith, h, alive)), alive)
  | inr dead ↦ absurd (ground (arith, h, dead))
]

pub members_answer_complete :
    (now : ℕ) (o : Option (List Text × Option ℕ)) (ms : List Text) (d : Option ℕ) (m : Text)
    → o ≡ some (ms, d)
    → live now d ≡ true
    → contains ms m ≡ true
    → contains (members_answer now o) m ≡ true
members_answer_complete now o ms d m held alive member = rw (held, alive) member

pub members_answer_sound :
    (now : ℕ) (o : Option (List Text × Option ℕ)) (m : Text)
    → contains (members_answer now o) m ≡ true
    → (ms : List Text) × (d : Option ℕ) × (o ≡ some (ms, d)) × (contains ms m ≡ true)
unfolding contains
members_answer_sound now none m h = absurd (ground arith)
members_answer_sound now (some (ms, d)) m h = elim (Bool-cases (live now d)) [
  | inl alive ↦ (ms, d, refl, rw alive at h)
  | inr dead ↦ absurd (let none_of = rw dead at h in ground arith)
]

abbrev pub toy_laws : RedisLaws toy_redis
toy_laws = record {
  store = λ w. w.store;
  clock = λ w. w.now;
  get_ok = λ key raw w w' h. (
    same_server w w' (ap (λ o. o.1) h),
    string_answer-ok w.now raw (w.store.strings key) (ap (λ o. o.0) h),
  );
  get_err = λ key e w w' h. same_server w w' (ap (λ o. o.1) h);
  smembers_ok = λ key ks w w' h.
      let same = ap (λ o. o.1) h in
      let answer : members_answer w.now (w.store.sets key) ≡ ks = ground (arith, h) in
      record {
        later = same_server w w' same;
        instant = w.now;
        ended = let moment = ap (λ (v : Server). v.now) same in omega arith;
        complete = λ ms d m held alive member.
            rw (← answer)
              (members_answer_complete w.now (w.store.sets key) ms d m held alive member);
        sound = λ m listed.
            members_answer_sound w.now (w.store.sets key) m
              (ap (λ l. contains l m) answer ∙ listed);
      };
  smembers_err = λ key e w w' h. absurd (ground (arith, h));
  exec_ok = λ cs w w' h.
      let same = ap (λ o. o.1) h in
      record {
        instant = w.now;
        started = omega arith;
        ended = let moment = ap (λ (v : Server). v.now) same in omega arith;
        changed = ap (λ (v : Server). v.store) (sym same);
      };
  exec_err = λ cs e w w' h. absurd (ground (arith, h));
}

-- Only the empty list can be written.
abbrev pub toy_json : Json
toy_json = record {
  marshal =
      λ tasks. elim tasks [ [] ↦ ok (codes "[]") | _ ∷ _ ↦ err (other (codes "unsupported")) ];
  unmarshal = λ raw. if text_eq raw (codes "[]") then ok [] else err (other (codes "bad JSON"));
}

abbrev cache : RedisCache Server
cache = record { client = toy_redis; json = toy_json; ttl = 60 }

abbrev pub blank : Server
blank = record { store = record { strings = λ k. none; sets = λ k. none }; now = 1000 }

blank-IsTracked : IsCoherent cache toy_laws blank
blank-IsTracked = record {
  registered = λ k v d found. absurd (ground (arith, found));
  keys_apart = λ k v d found. absurd (ground (arith, found));
  members_apart = λ x ms d m held. absurd (ground (arith, held));
}

-- The empty list of the page is cached, then the team is invalidated.
abbrev filled : Server
filled = (set_tasks cache (tasks_key done_page) [] blank).1

calls-IsCoherent_example :
    IsCoherent cache toy_laws (set_tasks cache (tasks_key done_page) [] blank).1
    × IsCoherent cache toy_laws (get_tasks cache (tasks_key done_page) blank).1
    × IsCoherent cache toy_laws (invalidate_team cache (pos 1) blank).1
calls-IsCoherent_example =
    calls-IsCoherent cache toy_laws done_page [] (pos 1) blank (omega arith) blank-IsTracked

get_tasks-filled : get_tasks cache (tasks_key done_page) filled ≡ (ok (some []), filled)
unfolding get_tasks set_tasks tasks_key team_set_key team_id_from_key effects running has_prefix
    index_byte
get_tasks-filled = refl

invalidate_team-get_tasks_example : ¬ (
    get_tasks cache (tasks_key done_page) (invalidate_team cache (pos 1) filled).1
    ≡ (ok (some []), filled))
unfolding invalidate_team
invalidate_team-get_tasks_example =
    invalidate_team-get_tasks cache toy_laws (pos 1) done_page [] filled
      (invalidate_team cache (pos 1) filled).1 filled calls-IsCoherent_example.0 refl (omega arith)
      refl refl

-- The answer to `SMEMBERS` is empty, then another process caches a page, then the set is dropped: the page
-- stays, and is in no set.
lost_page :
    (let cached =
        effects 1000
          (register_commands 60 (codes "tasks:team:1:page") (codes "[]") (pos 1))
          blank.store in
      let dropped = effects 1000 (drop_commands (team_set_key (pos 1)) []) cached in
      (dropped.strings (codes "tasks:team:1:page") ≡ some (codes "[]", some 1060))
      × (dropped.sets (team_set_key (pos 1)) ≡ none))
unfolding team_set_key effects running
lost_page = (refl, refl)

no_keys : contains [] (codes "tasks:team:1:page") ≡ false
unfolding contains
no_keys = refl

page_apart : text_eq (team_set_key (pos 1)) (codes "tasks:team:1:page") ≡ false
unfolding team_set_key running
page_apart = refl

effects-register_commands_lost_example :
    ((effects 1001 (drop_commands (team_set_key (pos 1)) []) (
          effects 1000
            (register_commands 60 (codes "tasks:team:1:page") (codes "[]") (pos 1))
            blank.store)).strings
        (codes "tasks:team:1:page")
      ≡ some (codes "[]", some 1060))
    × ((effects 1001 (drop_commands (team_set_key (pos 1)) []) (
            effects 1000
              (register_commands 60 (codes "tasks:team:1:page") (codes "[]") (pos 1))
              blank.store)).sets
          (team_set_key (pos 1))
        ≡ none)
effects-register_commands_lost_example =
    effects-register_commands_lost (pos 1) (codes "tasks:team:1:page") (codes "[]") refl page_apart
      1000 1001 60 [] blank.store no_keys

-- With a time to live of 0 the list has no deadline and stands in no set, so an invalidation leaves it.
abbrev endless : RedisCache Server
endless = record cache { ttl = 0 }

get_tasks-endless :
    (get_tasks endless
      (tasks_key done_page)
      (invalidate_team endless (pos 1) (set_tasks endless (tasks_key done_page) [] blank).1).1).0
    ≡ ok (some [])
unfolding get_tasks set_tasks invalidate_team tasks_key team_set_key team_id_from_key effects
    running has_prefix index_byte contains
get_tasks-endless = refl
