-- ===== src/Text/Trim.antt =====
-- What `strings.TrimSpace` leaves: a text that neither begins nor ends with white space, and that a
-- second trim does not change.
use secunda_test.Base.{◌≡◌, refl, false, [], ◌∷◌, arith}
use secunda_test.Text.{Text, is_space, trim_left, trim_right, trim_space}

abbrev StartsClean : Text → Type 0
StartsClean [] = Unit
StartsClean (c ∷ s) = is_space c ≡ false

trim_left-StartsClean : (s : Text) → StartsClean (trim_left s)
unfolding trim_left
trim_left-StartsClean [] = tt
trim_left-StartsClean (c ∷ s) = ground (arith, trim_left-StartsClean s)

trim_right-StartsClean : (s : Text) → StartsClean s → StartsClean (trim_right s)
unfolding trim_right
trim_right-StartsClean [] h = tt
trim_right-StartsClean (c ∷ s) h = ground arith

trim_left_of_StartsClean : (s : Text) → StartsClean s → trim_left s ≡ s
unfolding trim_left
trim_left_of_StartsClean [] h = refl
trim_left_of_StartsClean (c ∷ s) h = ground arith

trim_right_idem : (s : Text) → trim_right (trim_right s) ≡ trim_right s
unfolding trim_right
trim_right_idem [] = refl
trim_right_idem (c ∷ s) = ground (arith, trim_right_idem s)

pub trim_space_idem : (s : Text) → trim_space (trim_space s) ≡ trim_space s
unfolding trim_space
trim_space_idem s =
    let clean = trim_right-StartsClean (trim_left s) (trim_left-StartsClean s) in
    rw (trim_left_of_StartsClean (trim_right (trim_left s)) clean) (trim_right_idem (trim_left s))
