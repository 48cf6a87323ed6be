-- ===== src/Linking/Laws.antt =====
-- The links of a resource in linking.go, as a map from pairs of a URI and a relation to links.
use go_relax.Base.{
  true, false, ◌&&◌, Option, none, some, List, [], ◌∷◌, ◌≡◌, refl, inl, inr, if◌then◌else◌,
  Bool-cases, arith, ◌∙◌, sym,
}
use go_relax.Text.Laws.{text_eq_iff, text_eq_sym, text_eq_trans_false}
use go_relax.Linking.{Link, same_relation, new_link}

-- The first link with the URI and the relation of `key`.
unfoldable pub by_relation : Link → List Link → Option Link
by_relation key [] = none
by_relation key (v ∷ links) = if same_relation v key then some v else by_relation key links

same_relation_trans :
    (v link key : Link) → same_relation v link ≡ true → same_relation v key ≡ same_relation link key
unfolding same_relation
same_relation_trans v link key h =
    ground (
      arith,
      text_eq_trans_false v.uri link.uri key.uri,
      text_eq_trans_false v.rel link.rel key.rel,
    )

same_relation_sym : (v link : Link) → same_relation v link ≡ same_relation link v
unfolding same_relation
same_relation_sym v link = ground (arith, text_eq_sym v.uri link.uri, text_eq_sym v.rel link.rel)

disjoint :
    (v link key : Link)
    → same_relation v link ≡ false
    → (same_relation v key && same_relation link key) ≡ false
unfolding same_relation
disjoint v link key h = ground (
  arith,
  text_eq_iff v.uri key.uri,
  text_eq_iff link.uri key.uri,
  text_eq_iff v.uri link.uri,
  text_eq_iff v.rel key.rel,
  text_eq_iff link.rel key.rel,
  text_eq_iff v.rel link.rel,
)

-- After `NewLink`, the link is the one for its URI and its relation, and every other pair has the
-- link that it had.
pub by_relation-new_link :
    (link key : Link) (links : List Link)
    → by_relation key (new_link link links)
      ≡ (if same_relation link key then some link else by_relation key links)
unfolding new_link by_relation
by_relation-new_link link key [] = refl
by_relation-new_link link key (v ∷ links) = elim (Bool-cases (same_relation v link)) [
  | inl here ↦
      let step : by_relation key (link ∷ links)
          ≡ (if same_relation link key then some link else by_relation key (v ∷ links)) =
        ground (arith, same_relation_trans v link key here) in
      rw here step
  | inr other ↦
      let step : by_relation key (v ∷ new_link link links)
          ≡ (if same_relation link key then some link else by_relation key (v ∷ links)) =
        ground (
          arith,
          same_relation_trans link v key,
          same_relation_sym v link,
          by_relation-new_link link key links,
          disjoint v link key other,
        ) in
      rw other step
]

-- No two links have the same URI and relation.
unfoldable pub AreDistinct : List Link → Type 0
AreDistinct [] = Unit
AreDistinct (v ∷ links) = (by_relation v links ≡ none) × AreDistinct links

by_relation_same :
    (v link : Link) (links : List Link)
    → same_relation v link ≡ true
    → by_relation v links ≡ by_relation link links
unfolding by_relation same_relation
by_relation_same v link [] h = refl
by_relation_same v link (x ∷ links) h = ground (
  arith,
  by_relation_same v link links h,
  (text_eq_iff v.uri link.uri).0,
  (text_eq_iff v.rel link.rel).0,
)

-- `NewLink` keeps the links distinct: no two have the same URI and relation.
pub new_link-AreDistinct :
    (link : Link) (links : List Link) → AreDistinct links → AreDistinct (new_link link links)
unfolding new_link AreDistinct by_relation
new_link-AreDistinct link [] distinct = (refl, tt)
new_link-AreDistinct link (v ∷ links) (first, distinct) = elim (Bool-cases (same_relation v link)) [
  | inl here ↦ rw here (sym (by_relation_same v link links here) ∙ first, distinct)
  | inr other ↦ rw other (
    by_relation-new_link link v links ∙ ground (arith, same_relation_sym v link),
    new_link-AreDistinct link links distinct,
  )
]
