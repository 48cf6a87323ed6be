-- ===== src/Router/Caching.antt =====
-- The cache of expressions in router.go, as `AddRoute` extends it.
use go_relax.Base.{
  true, Option, none, some, ◌∷◌, ◌≡◌, refl, inl, inr, subst, Option-cases, Bool-cases, arith,
  is_some,
}
use go_relax.Text.{Text, text_eq}
use go_relax.Text.Laws.{text_eq_iff}
use go_relax.Router.Segment.{Regexp, segment_exp, is_pse}
use go_relax.Router.Trie.{Cache, cached, cache_segment}
use go_relax.Router.WellFormed.{CacheIsWell, Extends}

module _ (s : Text) (rx : Regexp) (old : Cache) where
  cons-CacheIsWell :
      (compile : Text → Option Regexp)
      → is_pse s ≡ true
      → segment_exp compile s ≡ some rx
      → CacheIsWell compile old
      → CacheIsWell compile ((s, rx) ∷ old)
  unfolding cached
  cons-CacheIsWell compile pse compiled w t rx' e = elim (Bool-cases (text_eq s t)) [
    | inl here ↦
        let same : rx ≡ rx' = ground arith in
        rw (← (text_eq_iff s t).0 here, ← same) (pse, compiled)
    | inr there ↦ w t rx' (ground arith)
  ]

  cons-Extends : cached s old ≡ none → Extends old ((s, rx) ∷ old)
  unfolding cached
  cons-Extends missing t rx' e = elim (Bool-cases (text_eq s t)) [
    | inl here ↦ absurd (cc (subst (λ x. cached x old ≡ none) ((text_eq_iff s t).0 here) missing))
    | inr there ↦ rw there e
  ]

  cached-cons_self : is_some (cached s ((s, rx) ∷ old)) ≡ true
  unfolding cached
  cached-cons_self = ground (arith, text_eq_iff s s)

-- Caching a segment extends the cache by what the segment compiles to.
pub cache_segment-CacheIsWell :
    (compile : Text → Option Regexp) (s : Text) (old new : Cache)
    → is_pse s ≡ true
    → CacheIsWell compile old
    → cache_segment compile s old ≡ some new
    → CacheIsWell compile new × Extends old new × (is_some (cached s new) ≡ true)
unfolding cache_segment
cache_segment-CacheIsWell compile s old new pse w made = elim (Option-cases (cached s old)) [
  | inl missing ↦ elim (Option-cases (segment_exp compile s)) [
    | inl bad ↦ absurd (ground arith)
    | inr (rx, compiled) ↦
        let same : (s, rx) ∷ old ≡ new = ground arith in
        rw (← same) (
          cons-CacheIsWell s rx old compile pse compiled w,
          cons-Extends s rx old missing,
          cached-cons_self s rx old,
        )
  ]
  | inr (rx, there) ↦
      let same : old ≡ new = ground arith in rw (← same) (w, λ t rx' e. e, rw there refl)
]
