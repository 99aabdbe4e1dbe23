-- ===== src/Api/Held.antt =====
-- What the calls of a trace have taken and not given back.
use secunda_test.Base.{
  if◌then◌else◌, ◌≡◌, refl, ap, ◌∙◌, Bool, true, false, Option, none, some, List, [], ◌∷◌,
}
use secunda_test.Errors.{GoError}
use secunda_test.Errors.Action.{Action, Result, ok, err, after, map_error, on_error, ◌>>=◌}
use secunda_test.Api.{
  Machine, Trace, Call, call, effect, deferring, sql_open, sql_close, redis_new, redis_close,
  context_with_timeout, context_cancel, notify_context, notify_stop, answered,
}

-- A pool of connections to MySQL, a Redis client, a context with its timer, a signal handler.
pub data Held : Type 0 where
  pool client timer signals : Held

abbrev pub is_held : Held → Held → Bool
is_held pool pool = true
is_held client client = true
is_held timer timer = true
is_held signals signals = true
is_held _ _ = false

abbrev pub push : Held → Option (List Held) → Option (List Held)
push h none = none
push h (some hs) = some (h ∷ hs)

-- Only what was taken last may be given back.
abbrev pub pop : Held → Option (List Held) → Option (List Held)
pop h none = none
pop h (some []) = none
pop h (some (k ∷ hs)) = if is_held h k then some hs else none

-- A pool is there when it could be opened.
abbrev pub opened : Option GoError → Option (List Held) → Option (List Held)
opened none hs = push pool hs
opened (some e) hs = hs

abbrev pub settle : Call → Option GoError → Option (List Held) → Option (List Held)
settle (sql_open dsn) a hs = opened a hs
settle sql_close a hs = pop pool hs
settle (redis_new addr password db) a hs = push client hs
settle redis_close a hs = pop client hs
settle (context_with_timeout d) a hs = push timer hs
settle context_cancel a hs = pop timer hs
settle notify_context a hs = push signals hs
settle notify_stop a hs = pop signals hs
settle _ a hs = hs

-- What is held behind the calls of a trace.
unfoldable pub held : Trace → Option (List Held)
held [] = some []
held (e ∷ w) = settle e.call e.answer (held w)

-- A part of `run` that holds in the end what it held at first.
abbrev pub IsSettled : {A : Type 0} → Action Trace A → Type 0
IsSettled m = (w : Trace) (hs : List Held) → held w ≡ some hs → held (m w).1 ≡ some hs

module _ {A : Type 0} where
  pub map_error-held :
      (change : GoError → GoError) (o : Result A × Trace) → held (map_error change o).1 ≡ held o.1
  map_error-held change (ok a, w) = refl
  map_error-held change (err e, w) = refl

  pub on_error-IsSettled :
      (change : GoError → GoError) (m : Action Trace A)
      → IsSettled m
      → IsSettled (on_error change m)
  on_error-IsSettled change m h w hs e = map_error-held change (m w) ∙ h w hs e

  module _ {B : Type 0} (f : A → Action Trace B) (next : (a : A) → IsSettled (f a)) where
    after-held :
        (o : Result A × Trace) (hs : List Held) → held o.1 ≡ some hs → held (after f o).1 ≡ some hs
    after-held (ok a, w) hs e = next a w hs e
    after-held (err x, w) hs e = e

    pub bind-IsSettled : (m : Action Trace A) → IsSettled m → IsSettled (m >>= f)
    bind-IsSettled m h w hs e = after-held (m w) hs (h w hs e)

pop_same : (h : Held) (hs : List Held) → pop h (some (h ∷ hs)) ≡ some hs
pop_same pool hs = refl
pop_same client hs = refl
pop_same timer hs = refl
pop_same signals hs = refl

module _ (m : Machine) where
  answered-held : (a : Option GoError) (w : Trace) → held (answered m a w).1 ≡ held w
  answered-held none w = refl
  answered-held (some e) w = refl

  -- A call that neither takes nor gives back.
  abbrev pub IsNeutral : Call → Type 0
  IsNeutral c = (a : Option GoError) (hs : Option (List Held)) → settle c a hs ≡ hs

  pub call-IsSettled : (c : Call) → IsNeutral c → IsSettled (call m c)
  unfolding call held
  call-IsSettled c neutral w hs e =
      answered-held (m.answer c w) _ ∙ neutral (m.answer c w) (held w) ∙ e

  -- A call that takes, with the rest of the function behind its `defer`.
  pub taken-IsSettled :
      {A : Type 0} (take give : Call) (h : Held) (rest : Action Trace A)
      → ((hs : Option (List Held)) → settle take none hs ≡ push h hs)
      → ((hs : Option (List Held)) → settle give none hs ≡ pop h hs)
      → IsSettled rest
      → IsSettled (effect take >>= λ _. deferring give rest)
  unfolding held
  taken-IsSettled take give h rest takes gives settled w hs e =
      let w1 = record { call = take; answer = none } ∷ w in
      let one : held w1 ≡ some (h ∷ hs) = takes (held w) ∙ ap (push h) e in
      gives (held (rest w1).1) ∙ ap (pop h) (settled w1 (h ∷ hs) one) ∙ pop_same h hs
