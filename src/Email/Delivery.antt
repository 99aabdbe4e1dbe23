-- ===== src/Email/Delivery.antt =====
-- What an invitation's delivery ends with.
use secunda_test.Base.{
  subst, ◌≡◌, refl, ◌⊎◌, inl, inr, Bool, true, false, List, ◌∷◌, arith, ap, ◌∙◌, sym,
}
use secunda_test.Text.{Text}
use secunda_test.Errors.{
  GoError, sentinel, service_unavailable, open_state, too_many_requests, is_error,
}
use secunda_test.Errors.Action.{Action, Result, ok, err, map_error}
use secunda_test.Email.{EmailService, sent_or_failed, breaker_error, send, send_invite}

-- The letters that have been sent, as the log has them, and what is assumed of the libraries: the breaker
-- either refuses with one of its two errors and does not run the request, or runs it once and hands its
-- outcome on; neither it nor the random numbers send letters.
pub record DeliveryLaws {W : Type 0} (s : EmailService W) : Type 0 where
  pub letters : W → List (Text × Text)
  pub drawn : (w : W) → letters (s.client.fails w).1 ≡ letters w
  pub logged :
      (to team_name : Text) (w : W)
      → letters (s.client.log_sent to team_name w) ≡ (to, team_name) ∷ letters w
  pub executed :
      (request : Action W (Unit {0})) (w : W)
      → ((e : GoError) × ((is_error e open_state ≡ true) ⊎ (is_error e too_many_requests ≡ true))
          × (s.breaker.execute request w ≡ (err e, (s.breaker.execute request w).1))
          × (letters (s.breaker.execute request w).1 ≡ letters w))
        ⊎ ((w1 : W) × (letters w1 ≡ letters w)
            × ((s.breaker.execute request w).0 ≡ (request w1).0)
            × (letters (s.breaker.execute request w).1 ≡ letters (request w1).1))

-- How a delivery ends: with the letter sent, once, or with `ErrServiceUnavailable` and no letter.
abbrev pub IsDelivered :
    Text → Text → List (Text × Text) → Result (Unit {0}) → List (Text × Text) → Type 0
IsDelivered to team_name before (ok _) behind = behind ≡ (to, team_name) ∷ before
IsDelivered to team_name before (err e) behind =
    (e ≡ sentinel service_unavailable) × (behind ≡ before)

module _ {W : Type 0} (s : EmailService W) (laws : DeliveryLaws s) (to team_name : Text) where
  send-IsDelivered :
      (w : W)
      → IsDelivered to team_name
          (laws.letters w)
          (send s.client to team_name w).0
          (laws.letters (send s.client to team_name w).1)
  unfolding send
  send-IsDelivered w = by_draw (s.client.fails w) (laws.drawn w)
    where
      by_draw :
          (o : Bool × W)
          → laws.letters o.1 ≡ laws.letters w
          → IsDelivered to team_name
              (laws.letters w)
              (sent_or_failed s.client to team_name o).0
              (laws.letters (sent_or_failed s.client to team_name o).1)
      by_draw (true, w1) same = (refl, same)
      by_draw (false, w1) same = laws.logged to team_name w1 ∙ ap (λ l. (to, team_name) ∷ l) same

  map_error-IsDelivered :
      (o : Result (Unit {0}) × W) (before behind : List (Text × Text))
      → laws.letters o.1 ≡ behind
      → IsDelivered to team_name before o.0 behind
      → IsDelivered to team_name before
          (map_error breaker_error o).0
          (laws.letters (map_error breaker_error o).1)
  unfolding breaker_error is_error
  map_error-IsDelivered (ok _, w) before behind same h = same ∙ h
  map_error-IsDelivered (err e, w) before behind same (known, kept) =
      (ap breaker_error known, same ∙ kept)

  refused-IsDelivered :
      (o : Result (Unit {0}) × W) (e : GoError) (before : List (Text × Text))
      → (is_error e open_state ≡ true) ⊎ (is_error e too_many_requests ≡ true)
      → o ≡ (err e, o.1)
      → laws.letters o.1 ≡ before
      → IsDelivered to team_name before
          (map_error breaker_error o).0
          (laws.letters (map_error breaker_error o).1)
  unfolding breaker_error
  refused-IsDelivered (ok _, w) e before tripped same kept = absurd (ground (arith, same))
  refused-IsDelivered (err x, w) e before tripped same kept =
      let own : x ≡ e = ground (arith, same) in
      (
        ground (
          arith,
          ap (λ v. is_error v open_state) own,
          ap (λ v. is_error v too_many_requests) own,
        ),
        kept,
      )

  -- `SendInvite` either sends the letter, once, and succeeds, or sends none and fails with
  -- `ErrServiceUnavailable`, whether the breaker is open, is trying one request out, or the service failed.
  pub send_invite-IsDelivered :
      (w : W)
      → IsDelivered to team_name
          (laws.letters w)
          (send_invite s to team_name w).0
          (laws.letters (send_invite s to team_name w).1)
  unfolding send_invite
  send_invite-IsDelivered w = elim (laws.executed (send s.client to team_name) w) [
    | inl (e, tripped, same, kept) ↦
        refused-IsDelivered (s.breaker.execute (send s.client to team_name) w) e (laws.letters w)
          tripped same kept
    | inr (w1, settled, result, behind) ↦
        map_error-IsDelivered (s.breaker.execute (send s.client to team_name) w) (laws.letters w) _
          behind
          (subst
            (λ r.
              IsDelivered to team_name (laws.letters w) r
                (laws.letters (send s.client to team_name w1).1))
            (sym result)
            (subst
              (λ before.
                IsDelivered to team_name before (send s.client to team_name w1).0
                  (laws.letters (send s.client to team_name w1).1))
              settled (send-IsDelivered w1)))
  ]
