-- ===== src/Repository/Analytics/Found.antt =====
-- What a test finds in the joined rows of `TeamStats`.
use secunda_test.Repository.Teams.{is_membership}
use secunda_test.Base.{
  Bool_iff, any-true, IsIn, any-impl, any-impl_false, any-never, is_in-map-keep, inr, inl,
  Bool-cases, Option-cases, ◌≡◌, refl, ap, ◌∙◌, Bool, true, false, ◌&&◌, ◌||◌, Option, none, some,
  List, [], ◌∷◌, map, ℤ, pos, ◌==ℤ◌, length, any, keep, IsDistinct, same_number, is_in,
  any-left_join_left, any-left_join_right, any-keep, any_same, arith,
}
use secunda_test.Domain.{Team, TeamMember, Task, TeamStats}
use secunda_test.Database.{Collation, Rows}
use secunda_test.Repository.Analytics.Stats.{
  Joined, team_of, member_user, entry_task, of_team, in_team, is_done, done_entry, from_teams,
  same_group, values, member_value, done_value,
}

abbrev hits : ℤ → Option ℤ → Bool
hits z none = false
hits z (some v) = v ==ℤ z

is_in-values :
    {A : Type 0} (f : A → Option ℤ) (z : ℤ) (xs : List A)
    → is_in z (values (map f xs)) ≡ any (λ x. hits z (f x)) xs
is_in-values f z [] = refl
is_in-values f z (x ∷ xs) = elim (Option-cases (f x)) [
  | inl e ↦ rw e (is_in-values f z xs)
  | inr (v, e) ↦ rw e (ap (λ b. (v ==ℤ z) || b) (is_in-values f z xs))
]

-- Distinct memberships have distinct users in one team, and distinct rows distinct numbers.
pub users-IsDistinct :
    (t : Team) (ms : List TeamMember)
    → IsDistinct (λ (m k : TeamMember). is_membership m.team_id m.user_id k) ms
    → IsDistinct same_number (map (λ (m : TeamMember). m.user_id) (keep (of_team t) ms))
users-IsDistinct t [] d = tt
users-IsDistinct t (m ∷ ms) (new, d) = elim (Bool-cases (of_team t m)) [
  | inr other ↦ rw other (users-IsDistinct t ms d)
  | inl own ↦ rw own (
    is_in-map-keep (λ (k : TeamMember). k.user_id) (of_team t) m.user_id ms
        ∙ any_same _ _ (λ k. ground (arith, own)) ms
        ∙ new,
    users-IsDistinct t ms d,
  )
]

pub teams-IsDistinct :
    (c : Collation) (ts : List Team)
    → IsDistinct (λ (a b : Team). b.id ==ℤ a.id) ts
    → IsDistinct (same_group c) ts
teams-IsDistinct c [] d = tt
teams-IsDistinct c (t ∷ ts) (new, d) = (
  any-impl_false (same_group c t) (λ b. b.id ==ℤ t.id) ts (λ b h. ground (arith, h)) new,
  teams-IsDistinct c ts d,
)

-- The reference: the members of a team, and its tasks with an entry of the week.
module _ (c : Collation) (since : ℤ) (rows : Rows) where
  abbrev pub was_done : Task → Bool
  was_done k = any (is_done c since k.id) rows.history

  abbrev pub stats_of : Team → TeamStats
  stats_of t = record {
    team_id = t.id;
    team_name = t.name;
    member_count = pos (length (keep (of_team t) rows.members));
    done_last_7_days = pos (length (keep (λ k. in_team t k && was_done k) rows.tasks));
  }

  module _ (t : Team) where
    abbrev pub group : List Joined
    group = keep (λ r. same_group c t (team_of r)) (from_teams c since rows)

    pub is_in-group :
        (f : Joined → Option ℤ) (z : ℤ)
        → is_in z (values (map f group))
          ≡ any (λ r. same_group c t (team_of r) && hits z (f r)) (from_teams c since rows)
    is_in-group f z =
        is_in-values f z group
        ∙ any-keep (λ r. hits z (f r)) (λ r. same_group c t (team_of r)) (from_teams c since rows)

    pub members_found :
        (z : ℤ)
        → any (λ r. same_group c t (team_of r) && hits z (member_value r)) (from_teams c since rows)
          ≡ any
              (λ t'.
                any (λ m. of_team t' m && (same_group c t t' && (m.user_id ==ℤ z))) rows.members)
              rows.teams
    unfolding from_teams
    members_found z =
        any-left_join_left (λ r. same_group c t r.0.0 && hits z (member_user r.0.1))
          (λ r. done_entry c since r.1) _ rows.history
        ∙ any-left_join_left (λ r. same_group c t r.0 && hits z (member_user r.1))
            (λ r. in_team r.0) _ rows.tasks
        ∙ any-left_join_right (λ r. same_group c t r.0 && hits z (member_user r.1)) of_team
            (λ t'. ground arith) rows.teams rows.members

    pub done_found :
        (z : ℤ)
        → any (λ r. same_group c t (team_of r) && hits z (done_value r)) (from_teams c since rows)
          ≡ any
              (λ t'.
                any
                  (λ k.
                    in_team t' k
                    && any
                        (λ h. is_done c since k.id h && (same_group c t t' && (h.task_id ==ℤ z)))
                        rows.history)
                  rows.tasks)
              rows.teams
    unfolding from_teams
    done_found z =
        any-left_join_right (λ r. same_group c t r.0.0.0 && hits z (entry_task r.1))
          (λ r. done_entry c since r.1) (λ r. ground arith) _ rows.history
        ∙ any-left_join_right
            (λ r.
              any (λ h. done_entry c since r.1 h && (same_group c t r.0.0 && (h.task_id ==ℤ z)))
                rows.history)
            (λ r. in_team r.0) (λ r. any-never rows.history) _ rows.tasks
        ∙ any-left_join_left
            (λ t'.
              any
                (λ k.
                  in_team t' k
                  && any (λ h. is_done c since k.id h && (same_group c t t' && (h.task_id ==ℤ z)))
                      rows.history)
                rows.tasks)
            of_team rows.teams rows.members

    done_of_found :
        (z : ℤ) (t' : Team) (k : Task)
        → (in_team t' k
            && any
                (λ h. is_done c since k.id h && (same_group c t t' && (h.task_id ==ℤ z)))
                rows.history)
          ≡ true
        → ((in_team t k && was_done k) && (k.id ==ℤ z)) ≡ true
    done_of_found z t' k h =
        let entry =
          any-impl (λ h. is_done c since k.id h && (same_group c t t' && (h.task_id ==ℤ z)))
            (is_done c since k.id) rows.history (λ e i. ground (arith, i)) (ground (arith, h)) in
        any-true (λ h. is_done c since k.id h && (same_group c t t' && (h.task_id ==ℤ z)))
          ((in_team t k && was_done k) && (k.id ==ℤ z)) rows.history
          (λ e i. ground (arith, h, i, entry)) (ground (arith, h))

    found_of_done :
        (z : ℤ) (k : Task)
        → ((in_team t k && was_done k) && (k.id ==ℤ z)) ≡ true
        → (in_team t k
            && any
                (λ h. is_done c since k.id h && (same_group c t t && (h.task_id ==ℤ z)))
                rows.history)
          ≡ true
    found_of_done z k g =
        let found =
          any-impl (is_done c since k.id)
            (λ h. is_done c since k.id h && (same_group c t t && (h.task_id ==ℤ z))) rows.history
            (λ e i. ground (arith, i, g, c.same_refl t.name)) (ground (arith, g)) in
        ground (arith, g, found)

    module _ (in_teams : IsIn t rows.teams) where
      pub members_same :
          (z : ℤ)
          → any
              (λ t'.
                any (λ m. of_team t' m && (same_group c t t' && (m.user_id ==ℤ z))) rows.members)
              rows.teams
            ≡ any (λ m. of_team t m && (m.user_id ==ℤ z)) rows.members
      members_same z =
          Bool_iff _ _
            (any-true _ _ rows.teams (λ t'. any-impl _ _ rows.members (λ m h. ground (arith, h))))
            (λ h.
              in_teams _
                (any-impl _ _ rows.members (λ m k. ground (arith, k, c.same_refl t.name)) h))

      pub done_same :
          (z : ℤ)
          → any
              (λ t'.
                any
                  (λ k.
                    in_team t' k
                    && any
                        (λ h. is_done c since k.id h && (same_group c t t' && (h.task_id ==ℤ z)))
                        rows.history)
                  rows.tasks)
              rows.teams
            ≡ any (λ k. (in_team t k && was_done k) && (k.id ==ℤ z)) rows.tasks
      done_same z =
          Bool_iff _ _
            (any-true _ _ rows.teams (λ t'. any-impl _ _ rows.tasks (λ k. done_of_found z t' k)))
            (λ h. in_teams _ (any-impl _ _ rows.tasks (λ k. found_of_done z k) h))
