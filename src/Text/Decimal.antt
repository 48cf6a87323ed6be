-- ===== src/Text/Decimal.antt =====
-- Different numbers have different decimal texts.
use go_relax.Base.{
  ℕ, zero, suc, ◌+◌, ◌-◌, ◌*◌, ◌/◌, ◌%◌, ◌<◌, [], ◌∷◌, ◌≡◌, sym, ap, ◌∙◌, inl, inr, Bool-cases, ltb,
  arith,
}
use go_relax.Text.{Text, itoa, itoa_fuel}

number_of : ℕ → Text → ℕ
number_of n [] = n
number_of n (c ∷ s) = number_of (n * 10 + (c - b'0')) s

number_of-itoa_fuel :
    (fuel n : ℕ) (out : Text) → n < fuel → number_of 0 (itoa_fuel fuel n out) ≡ number_of n out
unfolding itoa_fuel number_of
number_of-itoa_fuel zero n out h = absurd (omega arith)
number_of-itoa_fuel (suc fuel) n out h = elim (Bool-cases (ltb n 10)) [
  | inl small ↦
      let last : 0 * 10 + (b'0' + n - b'0') ≡ n = omega arith in
      rw small (ap (λ v. number_of v out) last)
  | inr large ↦
      let next : n / 10 * 10 + (b'0' + n % 10 - b'0') ≡ n = omega arith in
      rw large (
        number_of-itoa_fuel fuel (n / 10) ((b'0' + n % 10) ∷ out) (ground arith)
        ∙ ap (λ v. number_of v out) next)
]

pub itoa_injective : (m n : ℕ) → itoa m ≡ itoa n → m ≡ n
unfolding itoa number_of
itoa_injective m n same =
    sym (number_of-itoa_fuel (suc m) m [] (omega arith))
    ∙ ap (number_of 0) same
    ∙ number_of-itoa_fuel (suc n) n [] (omega arith)
