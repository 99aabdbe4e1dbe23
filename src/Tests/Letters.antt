-- ===== src/Tests/Letters.antt =====
-- `SendInvite` over a breaker that opens behind a number of failures.
use secunda_test.Base.{
  pos, ℕ, suc, ◌≡◌, refl, inl, inr, Bool, true, false, List, [], ◌∷◌, if◌then◌else◌, Bool-cases,
}
use secunda_test.Text.{Text, codes}
use secunda_test.Errors.{sentinel, open_state}
use secunda_test.Errors.Action.{Result, ok, err}
use secunda_test.Email.{Breaker, EmailService, ready_to_trip, threshold_of, send_invite}
use secunda_test.Email.Delivery.{DeliveryLaws, IsDelivered, send_invite-IsDelivered}
use secunda_test.Tests.Fixtures.{running}

-- The draws to come, the letters, and the failures in a row.
record Post : Type 0 where
  draws : List Bool
  letters : List (Text × Text)
  failures : ℕ

abbrev draw : List Bool → Post → Bool × Post
draw [] w = (false, w)
draw (b ∷ bs) w = (b, record w { draws = bs })

abbrev counted : Result (Unit {0}) × Post → Result (Unit {0}) × Post
counted (ok u, w) = (ok u, record w { failures = 0 })
counted (err e, w) = (err e, record w { failures = suc w.failures })

-- It never closes again, and its threshold is the configured 2.
abbrev toy_breaker : Breaker Post
unfolding ready_to_trip
toy_breaker = record {
  execute = λ request w.
      if ready_to_trip (pos 2) w.failures
      then (err (sentinel open_state), w)
      else counted (request w);
}

abbrev post : EmailService Post
post = record {
  client = record {
    fails = λ w. draw w.draws w;
    log_sent = λ to team_name w. record w { letters = (to, team_name) ∷ w.letters };
  };
  breaker = toy_breaker;
}

draw-letters : (bs : List Bool) (w : Post) → (draw bs w).1.letters ≡ w.letters
draw-letters [] w = refl
draw-letters (b ∷ bs) w = refl

counted-result :
    (o : Result (Unit {0}) × Post) → ((counted o).0 ≡ o.0) × ((counted o).1.letters ≡ o.1.letters)
counted-result (ok u, w) = (refl, refl)
counted-result (err e, w) = (refl, refl)

post_laws : DeliveryLaws post
unfolding toy_breaker running
post_laws = record {
  letters = λ w. w.letters;
  drawn = λ w. draw-letters w.draws w;
  logged = λ to team_name w. refl;
  executed = λ request w. elim (Bool-cases (ready_to_trip (pos 2) w.failures)) [
    | inl tripped ↦ rw tripped (inl (sentinel open_state, inl refl, refl, refl))
    | inr closed ↦
        rw closed (inr (w, refl, (counted-result (request w)).0, (counted-result (request w)).1))
  ];
}

-- The second failure opens the breaker: the third invitation does not reach the service.
abbrev failing : Post
failing = record { draws = true ∷ true ∷ false ∷ []; letters = []; failures = 0 }

abbrev eve_address : Text
eve_address = codes "eve@x.org"

third :
    (let w1 = (send_invite post eve_address (codes "team 1") failing).1 in
      let w2 = (send_invite post eve_address (codes "team 1") w1).1 in
      (send_invite post eve_address (codes "team 1") w2).1.draws)
    ≡ false ∷ []
unfolding send_invite threshold_of toy_breaker running
third = refl

send_invite-IsDelivered_example :
    IsDelivered eve_address
      (codes "team 1")
      (post_laws.letters failing)
      (send_invite post eve_address (codes "team 1") failing).0
      (post_laws.letters (send_invite post eve_address (codes "team 1") failing).1)
send_invite-IsDelivered_example =
    send_invite-IsDelivered post post_laws eve_address (codes "team 1") failing
