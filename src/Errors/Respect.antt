-- ===== src/Errors/Respect.antt =====
-- Calls that stand in a relation to the world behind them: what each call of a chain respects, the chain does.
use secunda_test.Base.{Bool, true, false}
use secunda_test.Errors.{GoError}
use secunda_test.Errors.Action.{
  Action, Result, ok, err, pure, lift, map_error, caught, after, on_error, try, refuse_if, ◌>>=◌,
}

-- A relation between the worlds before and behind a call.
pub record Order (W : Type 0) : Type 1 where
  pub relates : W → W → Type 0
  pub same : (w : W) → relates w w
  pub then : (u v w : W) → relates u v → relates v w → relates u w

module _ {W : Type 0} (o : Order W) where
  abbrev pub Respects : {A : Type 0} → Action W A → Type 0
  Respects m = (w : W) → o.relates w (m w).1

  module _ {A : Type 0} where
    pub pure-Respects : (a : A) → Respects (pure a)
    pure-Respects a w = o.same w

    pub lift-Respects : (r : Result A) → Respects (lift r)
    lift-Respects r w = o.same w

    map_error-relates :
        (change : GoError → GoError) (w : W) (r : Result A × W)
        → o.relates w r.1
        → o.relates w (map_error change r).1
    map_error-relates change w (ok a, v) h = h
    map_error-relates change w (err e, v) h = h

    pub on_error-Respects :
        (change : GoError → GoError) (m : Action W A) → Respects m → Respects (on_error change m)
    on_error-Respects change m h w = map_error-relates change w (m w) (h w)

    caught-relates : (w : W) (r : Result A × W) → o.relates w r.1 → o.relates w (caught r).1
    caught-relates w (ok a, v) h = h
    caught-relates w (err e, v) h = h

    pub try-Respects : (m : Action W A) → Respects m → Respects (try m)
    try-Respects m h w = caught-relates w (m w) (h w)

    module _ {B : Type 0} (f : A → Action W B) (next : (a : A) → Respects (f a)) where
      after-relates : (w : W) (r : Result A × W) → o.relates w r.1 → o.relates w (after f r).1
      after-relates w (ok a, v) h = o.then w v (f a v).1 h (next a v)
      after-relates w (err e, v) h = h

      pub bind-Respects : (m : Action W A) → Respects m → Respects (m >>= f)
      bind-Respects m h w = after-relates w (m w) (h w)

  pub refuse_if-Respects : (b : Bool) (e : GoError) → Respects (refuse_if b e)
  refuse_if-Respects true e w = o.same w
  refuse_if-Respects false e w = o.same w
