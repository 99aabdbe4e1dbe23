-- ===== src/Text/Case.antt =====
-- `strings.ToLower` and `strings.EqualFold`. The Unicode case tables are a parameter of the model,
-- with the documented facts that the code relies on.
use secunda_test.Base.{
  ℕ, ◌+◌, ◌<◌, ◌≡◌, refl, Bool, true, false, ◌&&◌, [], ◌∷◌, map, arith, leb, ◌==◌, if◌then◌else◌,
}
use secunda_test.Text.{Text, is_space, is_empty, trim_left, trim_right, trim_space}

-- The simple lower-case mapping of one ASCII letter.
abbrev pub ascii_lower : ℕ → ℕ
ascii_lower c = if leb b'A' c && leb c b'Z' then c + 32 else c

pub record Unicode : Type 0 where
  pub lower : ℕ → ℕ
  pub lower_ascii : (c : ℕ) → c < 0x80 → lower c ≡ ascii_lower c
  pub lower_idem : (c : ℕ) → lower (lower c) ≡ lower c
  pub lower_space : (c : ℕ) → is_space (lower c) ≡ is_space c

-- `strings.ToLower`.
unfoldable pub to_lower : Unicode → Text → Text
to_lower u s = map u.lower s

-- `strings.EqualFold(s, t)` for an ASCII text `t` without the letters k and s, which have no
-- folding outside ASCII.
unfoldable pub equal_fold : Text → Text → Bool
equal_fold [] [] = true
equal_fold (a ∷ s) (b ∷ t) = ascii_lower a == ascii_lower b && equal_fold s t
equal_fold [] (_ ∷ _) = false
equal_fold (_ ∷ _) [] = false

module _ (u : Unicode) where
  pub to_lower_idem : (s : Text) → to_lower u (to_lower u s) ≡ to_lower u s
  unfolding to_lower
  to_lower_idem [] = refl
  to_lower_idem (c ∷ s) = cc (u.lower_idem c, to_lower_idem s)

  is_empty-to_lower : (s : Text) → is_empty (to_lower u s) ≡ is_empty s
  unfolding to_lower
  is_empty-to_lower [] = refl
  is_empty-to_lower (c ∷ s) = refl

  trim_left-to_lower : (s : Text) → trim_left (to_lower u s) ≡ to_lower u (trim_left s)
  unfolding to_lower trim_left
  trim_left-to_lower [] = refl
  trim_left-to_lower (c ∷ s) = ground (arith, u.lower_space c, trim_left-to_lower s)

  trim_right-to_lower : (s : Text) → trim_right (to_lower u s) ≡ to_lower u (trim_right s)
  unfolding to_lower trim_right
  trim_right-to_lower [] = refl
  trim_right-to_lower (c ∷ s) =
      ground (arith, u.lower_space c, trim_right-to_lower s, is_empty-to_lower (trim_right s))

  -- Trimming and lowering a text commute, so every order of the two gives one normal form.
  pub trim_space-to_lower : (s : Text) → trim_space (to_lower u s) ≡ to_lower u (trim_space s)
  unfolding trim_space
  trim_space-to_lower s = rw (trim_left-to_lower s) (trim_right-to_lower (trim_left s))
