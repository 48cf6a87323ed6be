-- ===== src/Router/Complete.antt =====
-- Which requests `FindHandler` of router.go serves with a route that has been added, expressions
-- included.
use go_relax.Base.{
  ℕ, suc, ◌<◌, true, false, Option, some, List, [], ◌∷◌, ◌≡◌, ◌⊎◌, refl, sym, inl, inr, ap, ◌∙◌,
  subst, Option-cases, arith, length, is_some,
}
use go_relax.Text.{Text}
use go_relax.Text.Laws.{text_eq_refl}
use go_relax.Context.{Values}
use go_relax.Router.Segment.{Regexp}
use go_relax.Router.Trie.{
  Node, Links, node, nil, cons, Cache, pseg, depth, handler, num_exp, links, find_link, cached,
}
use go_relax.Router.Find.{whole_match, no_links, match_links, match_segment, as_found, find_from}
use go_relax.Router.WellFormed.{LinkIsWell, IsWell, AreWell, CacheIsWell}
use go_relax.Router.Sound.{
  Linked, first, later, Takes, by_text, by_expression, Walk, arrived, down, match_segment-Takes,
}

whole_match_decided :
    (rx : Regexp) (t : Text) (groups : List Text)
    → rx.find t ≡ some (t ∷ groups)
    → 0 < length groups
    → whole_match rx t ≡ some (t ∷ groups)
unfolding whole_match
whole_match_decided rx t groups at some_group = ground (arith, text_eq_refl t)

module _ {H : Type 0} where
  -- At each node that the search can come to, at most one link takes the next segment.
  unfoldable pub IsForced : Cache → ℕ → Node H → List Text → Type 0
  IsForced cache slen n [] = Unit
  IsForced cache slen n (t ∷ ts) =
      ((k k' : Node H)
        → Linked k (links n)
        → Takes cache slen t k
        → Linked k' (links n)
        → Takes cache slen t k'
        → k ≡ k')
      × ((k : Node H) → Linked k (links n) → Takes cache slen t k → IsForced cache slen k ts)

  only_link : {k n : Node H} → Linked k (cons n nil) → k ≡ n
  only_link first = refl
  only_link (later l) = elim l [ ]

  pub IsForced-nil : (cache : Cache) (slen : ℕ) (n : Node H) → IsForced cache slen n []
  unfolding IsForced
  IsForced-nil cache slen n = tt

  -- A node with one link forces the search.
  pub IsForced-cons :
      (cache : Cache) (slen : ℕ) (k : Node H) (p : Text) (h : Option H) (e d : ℕ) (t : Text)
      (ts : List Text)
      → IsForced cache slen k ts
      → IsForced cache slen (node p h e d (cons k nil)) (t ∷ ts)
  unfolding IsForced
  IsForced-cons cache slen k p h e d t ts forced = (
    λ i j l _ l' _. only_link l ∙ sym (only_link l'),
    λ i l _. subst (λ x. IsForced cache slen x ts) (sym (only_link l)) forced,
  )

  -- Nor does a node with one link that takes the segment leave a choice.
  pub IsForced-only :
      (cache : Cache) (slen : ℕ) (n m : Node H) (t : Text) (ts : List Text)
      → ((k : Node H) → Linked k (links n) → Takes cache slen t k → k ≡ m)
      → IsForced cache slen m ts
      → IsForced cache slen n (t ∷ ts)
  unfolding IsForced
  IsForced-only cache slen n m t ts only forced = (
    λ k k' l takes l' takes'. only k l takes ∙ sym (only k' l' takes'),
    λ k l takes. subst (λ x. IsForced cache slen x ts) (sym (only k l takes)) forced,
  )

  find_link_some :
      (s : Text) (k : Node H) {ls : Links H}
      → Linked k ls
      → pseg k ≡ s
      → is_some (find_link s ls) ≡ true
  unfolding find_link
  find_link_some s k first e = ground (arith, text_eq_refl s)
  find_link_some s k (later {m} {ls} l) e = ground (arith, find_link_some s k l e)

  module _ (cache : Cache) (slen : ℕ) (t : Text) where
    match_links_decided :
        (k : Node H) (rx : Regexp) (groups : List Text) {ls : Links H}
        → Linked k ls
        → cached (pseg k) cache ≡ some rx
        → rx.find t ≡ some (t ∷ groups)
        → 0 < length groups
        → (slen < suc (depth k)) ⊎ (no_links (links k) ≡ false)
        → is_some (match_links cache t slen ls) ≡ true
    unfolding match_links
    match_links_decided k rx groups first there at some_group goes_on =
        ground (arith, whole_match_decided rx t groups at some_group)
    match_links_decided k rx groups (later {m} {ls} l) there at some_group goes_on =
        let ih = match_links_decided k rx groups l there at some_group goes_on in
        elim (Option-cases (cached (pseg m) cache)) [
          | inl missing ↦ ground arith
          | inr (rx', c) ↦ elim (Option-cases (whole_match rx' t)) [
            | inl no_match ↦ ground arith
            | inr (g, matched) ↦ ground arith
          ]
        ]

  Linked-IsWell :
      (cache : Cache) (e d : ℕ) (k : Node H) {ls : Links H}
      → Linked k ls
      → AreWell cache e d ls
      → LinkIsWell cache e d k × IsWell cache k
  unfolding IsWell
  Linked-IsWell cache e d k first (w, absent, wk, ws) = (w, wk)
  Linked-IsWell cache e d k (later l) (w, absent, wm, ws) = Linked-IsWell cache e d k l ws

  -- Below a node that keeps the invariant.
  pub linked_sound :
      (cache : Cache) (n k : Node H)
      → IsWell cache n
      → Linked k (links n)
      → LinkIsWell cache (num_exp n) (depth n) k × IsWell cache k
  unfolding IsWell
  linked_sound cache (node p h e d ls) k w l = Linked-IsWell cache e d k l w

  module _ (compile : Text → Option Regexp) (cache : Cache) (cw : CacheIsWell compile cache)
      (slen : ℕ) where
    -- Where a link takes the segment, the search goes on.
    match_segment_some :
        (n k : Node H) (t : Text) (vs : Option (Option Values))
        → IsWell cache n
        → Linked k (links n)
        → Takes cache slen t k
        → is_some (match_segment cache n t slen vs).0 ≡ true
    unfolding match_segment
    match_segment_some n k t vs w l (by_text e) =
        let there = find_link_some t k l e in
        elim (Option-cases (match_links cache t slen (links n))) [
          | inl missing ↦ ground arith
          | inr (r, at) ↦ ground arith
        ]
    match_segment_some n k t vs w l (by_expression rx groups there at some_group goes_on) =
        let ok = match_links_decided cache slen t k rx groups l there at some_group goes_on in
        let counted = (linked_sound cache n k w l).0.counted (cw (pseg k) rx there).0 in
        elim (Option-cases (match_links cache t slen (links n))) [
          | inl missing ↦ ground arith
          | inr (r, at) ↦ ground arith
        ]

    pub find_from-Walk_forced :
        (i : ℕ) (vs : Option (Option Values)) {n m : Node H} {ts : List Text}
        → Walk cache slen n ts m
        → IsWell cache n
        → IsForced cache slen n ts
        → (find_from cache slen i ts (some n) vs).0 ≡ as_found (handler m)
    unfolding find_from IsForced
    find_from-Walk_forced i vs arrived w forced = refl
    find_from-Walk_forced i vs (down {n} {n' = k} {m} {s = t} {ss = ts} l takes walk) w
          (one, forced) =
        let (r, vs') = match_segment cache n t slen vs in
        elim (Option-cases (match_segment cache n t slen vs).0) [
          | inl missing ↦ absurd (ground (arith, match_segment_some n k t vs w l takes))
          | inr (k', there) ↦
              let (l', takes') = match_segment-Takes cache n t slen vs k' there in
              let same : k' ≡ k = one k' k l' takes' l takes in
              subst (λ x. (find_from cache slen (suc i) ts x vs').0 ≡ as_found (handler m))
                (sym (there ∙ ap some same))
                (find_from-Walk_forced (suc i) vs' walk (linked_sound cache n k w l).1
                  (forced k l takes))
        ]
