-- ===== src/Text/Laws.antt =====
-- Laws of the functions on text.
use go_relax.Base.{
  ℕ, true, false, ◌≡◌, ◌↔◌, inl, inr, refl, ap, none, some, [], ◌∷◌, ◌++◌, Option-cases, arith,
}
use go_relax.Text.{Text, text_eq, has_byte, cut_last, split_first}

pub text_eq_iff : (s t : Text) → (text_eq s t ≡ true) ↔ (s ≡ t)
unfolding text_eq
text_eq_iff [] [] = ground arith
text_eq_iff [] (b ∷ t) = ground arith
text_eq_iff (a ∷ s) [] = ground arith
text_eq_iff (a ∷ s) (b ∷ t) = ground (arith, text_eq_iff s t)

pub text_eq_refl : (s : Text) → text_eq s s ≡ true
text_eq_refl s = (text_eq_iff s s).1 refl

pub text_eq_sym : (s t : Text) → text_eq s t ≡ text_eq t s
text_eq_sym s t = ground (arith, text_eq_iff s t, text_eq_iff t s)

pub text_eq_trans_false : (s t u : Text) → text_eq s t ≡ true → text_eq s u ≡ text_eq t u
text_eq_trans_false s t u h = ap (λ x. text_eq x u) ((text_eq_iff s t).0 h)

pub split_of_lacks : (b : ℕ) (s : Text) → has_byte b s ≡ false → split_first b s ≡ (s, [])
unfolding split_first
split_of_lacks b [] h = refl
split_of_lacks b (c ∷ s) h = ground (arith, split_of_lacks b s)

pub cut_last-none : (b : ℕ) (s : Text) → cut_last b s ≡ none → has_byte b s ≡ false
unfolding cut_last
cut_last-none b [] h = refl
cut_last-none b (c ∷ s) h = ground (arith, cut_last-none b s)

-- The two parts around the last `b` spell the whole text, and there is no `b` in the last one.
pub cut_last_sound :
    (b : ℕ) (s : Text) (p q : Text)
    → cut_last b s ≡ some (p, q)
    → (s ≡ p ++ b ∷ q) × (has_byte b q ≡ false)
unfolding cut_last
cut_last_sound b [] p q h = cc
cut_last_sound b (c ∷ s) p q h = elim (Option-cases (cut_last b s)) [
  | inl missing ↦ ground (arith, cut_last-none b s missing)
  | inr ((before, behind), found) ↦ ground (arith, cut_last_sound b s before behind found)
]
