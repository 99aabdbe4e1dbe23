-- ===== src/Http/Middleware/Limits.antt =====
-- One limiter for each user: what another user does is not seen by it.
use secunda_test.Base.{
  ◌∙◌, ℕ, ◌≡◌, refl, Bool, true, false, some, List, [], ◌∷◌, ℤ, ◌==ℤ◌, ==ℤ_iff, ap, arith,
  if◌then◌else◌, Bool-cases, inl, inr,
}
use secunda_test.Http.Response.{Reply}
use secunda_test.Http.Requests.{Request}
use secunda_test.Http.Middleware.{
  Serve, Limiters, burst_of, Buckets, bucket, put_bucket, take_event, beside, go_on, for_user,
  rate_limit, too_many,
}

module _ (l : Limiters) where
  open l use {Limiter, new_limiter, allow}

  bucket-put_bucket :
      (burst user other : ℤ) (b : Limiter) (bs : Buckets l)
      → bucket l burst other (put_bucket l user b bs)
        ≡ (if user ==ℤ other then b else bucket l burst other bs)
  unfolding bucket put_bucket
  bucket-put_bucket burst user other b [] = refl
  bucket-put_bucket burst user other b ((u, c) ∷ bs) = ground (
    arith,
    ==ℤ_iff u user,
    ==ℤ_iff u other,
    ==ℤ_iff user other,
    bucket-put_bucket burst user other b bs,
  )

  module _ (per_minute : ℤ) where
    abbrev pub limiter_of : ℤ → Buckets l → Limiter
    unfolding bucket burst_of
    limiter_of user bs = bucket l (burst_of per_minute) user bs

    -- The events of all users in the order in which the mutex lets them through.
    unfoldable pub take_events : List (ℕ × ℤ) → Buckets l → Buckets l
    unfolding take_event
    take_events [] bs = bs
    take_events ((instant, user) ∷ es) bs =
        take_events es (take_event l per_minute instant user bs).1

    -- One limiter, asked at the instants of one user's events.
    unfoldable pub asked : ℤ → List (ℕ × ℤ) → Limiter → Limiter
    asked user [] b = b
    asked user ((instant, u) ∷ es) b =
        let rest = asked user es in if u ==ℤ user then rest (allow instant b).1 else rest b

    take_event-limiter_of :
        (instant : ℕ) (u user : ℤ) (bs : Buckets l)
        → limiter_of user (take_event l per_minute instant u bs).1
          ≡ (if u ==ℤ user then (allow instant (limiter_of u bs)).1 else limiter_of user bs)
    unfolding take_event
    take_event-limiter_of instant u user bs =
        bucket-put_bucket (burst_of per_minute) u user (allow instant (limiter_of u bs)).1 bs

    -- However the requests of the users interleave, a user's limiter has seen that user's own requests in
    -- their order and nothing else: no user can use up another's budget, or win some by it.
    pub take_events-asked :
        (user : ℤ) (es : List (ℕ × ℤ)) (bs : Buckets l)
        → limiter_of user (take_events es bs) ≡ asked user es (limiter_of user bs)
    unfolding take_events asked
    take_events-asked user [] bs = refl
    take_events-asked user ((instant, u) ∷ es) bs =
        let rest = take_events-asked user es (take_event l per_minute instant u bs).1 in
        elim (Bool-cases (u ==ℤ user)) [
          | inl same ↦
              let own : u ≡ user = (==ℤ_iff u user).0 same in
              rest ∙ rw (take_event-limiter_of instant u user bs, same, own)
          | inr other ↦ rest ∙ rw (take_event-limiter_of instant u user bs, other)
        ]

    module _ {W : Type 0} (now : W → ℕ) (next : Serve W) (r : Request) (w : W)
        (bs : Buckets l) where
      -- `RateLimit` asks the limiter of the request's user once. When that allows the event, the request
      -- goes on as if there were no limiter; when not, the answer is 429 with Retry-After 60 and the world
      -- behind it has not changed.
      pub rate_limit-take_event :
          (user : ℤ)
          → r.user ≡ some user
          → rate_limit l per_minute now next r (w, bs) ≡ (
              let (allowed, bs1) = take_event l per_minute (now w) user bs in
              if allowed
              then beside l per_minute now next r (w, bs1)
              else (too_many l per_minute now, (w, bs1)))
      unfolding rate_limit
      rate_limit-take_event user given =
          ap (λ u. for_user l per_minute now next r u (w, bs)) given
          ∙ chosen (take_event l per_minute (now w) user bs)
        where
          chosen :
              (o : Bool × Buckets l)
              → go_on l per_minute now next r w o ≡ (
                  let (allowed, bs1) = o in
                  if allowed
                  then beside l per_minute now next r (w, bs1)
                  else (too_many l per_minute now, (w, bs1)))
          chosen (true, bs1) = refl
          chosen (false, bs1) = refl

      pub rate_limit-allows :
          (user : ℤ) {bs1 : Buckets l} {reply : Reply} {w1 : W}
          → r.user ≡ some user
          → take_event l per_minute (now w) user bs ≡ (true, bs1)
          → next r w ≡ (reply, w1)
          → rate_limit l per_minute now next r (w, bs) ≡ (reply, (w1, bs1))
      unfolding rate_limit
      rate_limit-allows user {bs1} given allowed handled =
          ap (λ u. for_user l per_minute now next r u (w, bs)) given
          ∙ ap (go_on l per_minute now next r w) allowed
          ∙ ap (λ o. let (reply, w1) = o in (reply, (w1, bs1))) handled
