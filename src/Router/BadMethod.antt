-- ===== src/Router/BadMethod.antt =====
-- The errors of `FindHandler` of router.go.
use go_relax.Base.{
  ℕ, suc, Option, none, some, List, [], ◌∷◌, ◌≡◌, ◌↔◌, refl, inl, inr, sym, ◌∙◌, subst,
  Option-cases, arith, length,
}
use go_relax.Text.{Text}
use go_relax.Context.{Values}
use go_relax.Router.Trie.{Node, Cache, Router, handler}
use go_relax.Router.Find.{
  route_bad_method, match_segment, find_from, find_handler, handler_of, as_found,
}
use go_relax.Router.Literal.{served_segments}
use go_relax.Router.Methods.{match_segment-values}

module _ {H : Type 0} where
  -- The second segment is reached, and none of the root's links takes the first one.
  abbrev pub IsBadMethod : Router H → List Text → Type 0
  IsBadMethod r [] = ⊥
  IsBadMethod r (s ∷ []) = ⊥
  IsBadMethod r (s ∷ t ∷ ss) = (match_segment r.cache r.root s (length (s ∷ t ∷ ss)) none).0 ≡ none

  as_found-ne-bad_method : (o : Option H) → as_found o ≡ route_bad_method → ⊥
  as_found-ne-bad_method none e = cc
  as_found-ne-bad_method (some h) e = cc

  find_from-ne-bad_method :
      (cache : Cache) (slen i : ℕ) (ss : List Text) (n : Option (Node H))
      (vs : Option (Option Values))
      → (find_from cache slen (suc (suc i)) ss n vs).0 ≡ route_bad_method
      → ⊥
  unfolding find_from
  find_from-ne-bad_method cache slen i [] n vs e = as_found-ne-bad_method (handler_of n) e
  find_from-ne-bad_method cache slen i (s ∷ ss) none vs e = ground arith
  find_from-ne-bad_method cache slen i (s ∷ ss) (some n) vs e =
      find_from-ne-bad_method cache slen (suc i) ss (match_segment cache n s slen vs).0
        (match_segment cache n s slen vs).1 e

  find_from-IsBadMethod_iff :
      (r : Router H) (ss : List Text) (vs : Option (Option Values))
      → ((find_from r.cache (length ss) 0 ss (some r.root) vs).0 ≡ route_bad_method)
        ↔ IsBadMethod r ss
  unfolding find_from
  find_from-IsBadMethod_iff r [] vs = (as_found-ne-bad_method (handler r.root), λ e. absurd e)
  find_from-IsBadMethod_iff r (s ∷ []) vs =
      (as_found-ne-bad_method (handler_of (match_segment r.cache r.root s 1 vs).0), λ e. absurd e)
  find_from-IsBadMethod_iff r (s ∷ t ∷ ss) vs =
      let slen = length (s ∷ t ∷ ss) in
      let vs' = (match_segment r.cache r.root s slen vs).1 in
      let after = λ (n : Option (Node H)). (find_from r.cache slen 1 (t ∷ ss) n vs').0 in
      elim (Option-cases (match_segment r.cache r.root s (length (s ∷ t ∷ ss)) vs).0) [
        | inl missing ↦ (
          λ e. match_segment-values r.cache r.root s slen vs ∙ missing,
          λ e. subst (λ x. after x ≡ route_bad_method) (sym missing) refl,
        )
        | inr (n, there) ↦ (
          λ e. absurd (
              find_from-ne-bad_method r.cache slen 0 ss (match_segment r.cache n t slen vs').0
                (match_segment r.cache n t slen vs').1
                (subst (λ x. after x ≡ route_bad_method) there e)),
          λ e. cc (match_segment-values r.cache r.root s slen vs),
        )
      ]

  -- The error is 405 exactly when the request has a segment behind the method and no route takes
  -- the method.
  pub find_handler-IsBadMethod_iff :
      (r : Router H) (method path : Text) (vs : Option (Option Values))
      → ((find_handler r method path vs).0 ≡ route_bad_method)
        ↔ IsBadMethod r (served_segments method path)
  unfolding find_handler
  find_handler-IsBadMethod_iff r method path vs =
      find_from-IsBadMethod_iff r (served_segments method path) vs
