-- ===== src/Content/Language.antt =====
-- The language that content.go chooses.
use go_relax.Base.{subst, sym, true, false, [], ◌∷◌, ◌≡◌, inl, inr, Bool-cases, All, if◌then◌else◌}
use go_relax.Text.{Text}
use go_relax.Util.{Quality, Prefs}
use go_relax.Content.{quality_of, best_language}

-- What is used of `>` on qualities: it is a strict weak order.
pub record IsOrder (q : Quality) : Type 0 where
  pub irreflexive : (a : q.Q) → q.gt a a ≡ false
  pub asymmetric : (a b : q.Q) → q.gt a b ≡ true → q.gt b a ≡ false
  pub weak : (a b c : q.Q) → q.gt a b ≡ false → q.gt b c ≡ false → q.gt a c ≡ false

module _ (q : Quality) (o : IsOrder q) where
  -- The entries have the qualities that the preferences give.
  abbrev pub AreListed : Prefs q → Prefs q → Type 0
  AreListed prefs xs = All (λ (x : Text × q.Q). x.1 ≡ quality_of q prefs x.0) xs

  best_language-start :
      (prefs xs : Prefs q) (l : Text)
      → AreListed prefs xs
      → q.gt (quality_of q prefs l) (quality_of q prefs (best_language q prefs xs l)) ≡ false
  unfolding best_language
  best_language-start prefs [] l listed = o.irreflexive (quality_of q prefs l)
  best_language-start prefs ((code, v) ∷ xs) l (here, listed) =
      elim (Bool-cases (q.gt v (quality_of q prefs l))) [
        | inl better ↦ rw better (
            o.weak (quality_of q prefs l) v (quality_of q prefs (best_language q prefs xs code))
              (o.asymmetric v (quality_of q prefs l) better)
              (rw here (best_language-start prefs xs code listed)))
        | inr not_better ↦ rw not_better (best_language-start prefs xs l listed)
      ]

  -- No entry has a greater quality than the language `l`.
  abbrev pub IsBest : Prefs q → Prefs q → Text → Type 0
  IsBest prefs xs l = All (λ (x : Text × q.Q). q.gt x.1 (quality_of q prefs l) ≡ false) xs

  -- No entry of the header has a greater quality than the language that the loop chooses, where the
  -- entries have the qualities that the preferences give and `>` orders the qualities.
  pub best_language-IsBest :
      (prefs xs : Prefs q) (l : Text)
      → AreListed prefs xs
      → IsBest prefs xs (best_language q prefs xs l)
  unfolding best_language
  best_language-IsBest prefs [] l listed = tt
  best_language-IsBest prefs ((code, v) ∷ xs) l (here, listed) =
      elim (Bool-cases (q.gt v (quality_of q prefs l))) [
        | inl better ↦
            subst
              (λ t.
                IsBest prefs ((code, v) ∷ xs) (best_language q prefs xs (if t then code else l)))
              (sym better)
              (
                rw here (best_language-start prefs xs code listed),
                best_language-IsBest prefs xs code listed,
              )
        | inr not_better ↦
            subst
              (λ t.
                IsBest prefs ((code, v) ∷ xs) (best_language q prefs xs (if t then code else l)))
              (sym not_better)
              (
                o.weak v (quality_of q prefs l) (quality_of q prefs (best_language q prefs xs l))
                    not_better (best_language-start prefs xs l listed),
                best_language-IsBest prefs xs l listed,
              )
      ]
