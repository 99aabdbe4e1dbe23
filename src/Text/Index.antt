-- ===== src/Text/Index.antt =====
-- What the first occurrence of a byte says of a text.
use secunda_test.Base.{
  ℕ, suc, ◌≡◌, ◌≢◌, refl, some, [], ◌∷◌, ◌++◌, arith, length, take, drop, All, ◌==◌, Bool-cases,
  inl, inr, Option-cases,
}
use secunda_test.Text.{Text, index_byte}

abbrev pub Lacks : ℕ → Text → Type 0
Lacks b = All (λ c. c ≢ b)

pub index_byte-first :
    (b : ℕ) (p r : Text) → Lacks b p → index_byte (p ++ b ∷ r) b ≡ some (length p)
unfolding index_byte
index_byte-first b [] r h = ground arith
index_byte-first b (c ∷ p) r (n, h) = ground (arith, index_byte-first b p r h)

-- The byte found splits the text, and does not occur before.
pub index_byte-some :
    (b : ℕ) (s : Text) {i : ℕ}
    → index_byte s b ≡ some i
    → (s ≡ take i s ++ b ∷ drop (suc i) s) × Lacks b (take i s)
unfolding index_byte
index_byte-some b [] h = absurd (ground arith)
index_byte-some b (c ∷ s) {i} h = elim (Bool-cases (c == b)) [
  | inl same ↦
      let zero_i : 0 ≡ i = ground (arith, h, same) in rw (← zero_i) (ground (arith, same), tt)
  | inr differ ↦ elim (Option-cases (index_byte s b)) [
    | inl missing ↦ absurd (ground (arith, h, differ, missing))
    | inr (j, found) ↦
        let next_i : suc j ≡ i = ground (arith, h, differ, found) in
        let (split, lacks) = index_byte-some b s found in
        rw (← next_i) (ground (arith, split), ((λ e. ground (arith, e, differ)), lacks))
  ]
]

pub drop-past : (p : Text) (b : ℕ) (r : Text) → drop (suc (length p)) (p ++ b ∷ r) ≡ r
drop-past [] b r = refl
drop-past (c ∷ p) b r = drop-past p b r
