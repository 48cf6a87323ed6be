-- ===== src/Router/Extended.antt =====
-- What a larger cache of expressions leaves as it was: the searches of router.go.
use go_relax.Base.{
  ℕ, suc, Option, none, some, List, [], ◌∷◌, ◌≡◌, refl, sym, ◌∙◌, inl, inr, Option-cases, arith,
}
use go_relax.Text.{Text}
use go_relax.Context.{Values}
use go_relax.Router.Segment.{Regexp}
use go_relax.Router.Trie.{Node, Links, node, nil, cons, Cache, pseg, find_link, cached}
use go_relax.Router.Find.{whole_match, match_links, match_segment, find_from}
use go_relax.Router.Sound.{match_segment-Takes}
use go_relax.Router.Complete.{linked_sound}
use go_relax.Router.WellFormed.{LinkIsWell, IsWell, AreWell, CacheIsWell, Extends}

module _ {H : Type 0} where
  -- A link that is not in the cache is passed over.
  pub match_uncached :
      (c : Cache) (t : Text) (slen : ℕ) (n : Node H) (ls : Links H)
      → cached (pseg n) c ≡ none
      → match_links c t slen (cons n ls) ≡ match_links c t slen ls
  unfolding match_links
  match_uncached c t slen n ls e = rw (e, match_links) refl

  -- A link with the same expression in both caches.
  pub match_links-cons :
      (old new : Cache) (t : Text) (slen : ℕ) (n : Node H) (ls ls' : Links H)
      → cached (pseg n) new ≡ cached (pseg n) old
      → match_links new t slen ls' ≡ match_links old t slen ls
      → match_links new t slen (cons n ls') ≡ match_links old t slen (cons n ls)
  unfolding match_links
  match_links-cons old new t slen n ls ls' same rest = elim (Option-cases (cached (pseg n) old)) [
    | inl missing ↦ ground arith
    | inr (rx, there) ↦ elim (Option-cases (whole_match rx t)) [
      | inl no_match ↦ ground arith
      | inr (groups, matched) ↦ ground arith
    ]
  ]

  -- Two nodes that differ in their links.
  pub match_segment-node :
      (old new : Cache) (p : Text) (hd : Option H) (e d : ℕ) (ls ls' : Links H) (t : Text)
      (slen : ℕ) (vs : Option (Option Values))
      → find_link t ls' ≡ find_link t ls
      → match_links new t slen ls' ≡ match_links old t slen ls
      → match_segment new (node p hd e d ls') t slen vs
        ≡ match_segment old (node p hd e d ls) t slen vs
  unfolding match_segment
  match_segment-node old new p hd e d ls ls' t slen vs linked matched =
      elim (Option-cases (match_links old t slen ls)) [
        | inl missing ↦ ground arith
        | inr ((k, rx, m), there) ↦ ground arith
      ]

module _ {H : Type 0} (compile : Text → Option Regexp) (old new : Cache) (ext : Extends old new)
    (cw : CacheIsWell compile new) where
  -- A link of a trie that keeps the invariant has the same expression in a larger cache.
  pub cached-Extends :
      (e d : ℕ) (n : Node H) → LinkIsWell old e d n → cached (pseg n) new ≡ cached (pseg n) old
  cached-Extends e d n w = elim (Option-cases (cached (pseg n) old)) [
    | inl missing ↦ elim (Option-cases (cached (pseg n) new)) [
      | inl still ↦ still ∙ sym missing
      | inr (rx, there) ↦ absurd (cc (w.compiled (cw (pseg n) rx there).0, missing))
    ]
    | inr (rx, there) ↦ ext (pseg n) rx there ∙ sym there
  ]

  -- So do all links of a node.
  pub match_links-Extends :
      (e d : ℕ) (t : Text) (slen : ℕ) (ls : Links H)
      → AreWell old e d ls
      → match_links new t slen ls ≡ match_links old t slen ls
  unfolding match_links IsWell
  match_links-Extends e d t slen nil w = refl
  match_links-Extends e d t slen (cons n ls) (w, absent, wn, ws) =
      match_links-cons old new t slen n ls ls (cached-Extends e d n w)
        (match_links-Extends e d t slen ls ws)

  match_segment-Extends :
      (n : Node H) (t : Text) (slen : ℕ) (vs : Option (Option Values))
      → IsWell old n
      → match_segment new n t slen vs ≡ match_segment old n t slen vs
  unfolding match_segment IsWell
  match_segment-Extends (node p h e d ls) t slen vs w =
      match_segment-node old new p h e d ls ls t slen vs refl (match_links-Extends e d t slen ls w)

  find_from-none :
      (slen i : ℕ) (ss : List Text) (vs : Option (Option Values))
      → find_from {H = H} new slen i ss none vs ≡ find_from old slen i ss none vs
  unfolding find_from
  find_from-none slen i [] vs = refl
  find_from-none slen i (s ∷ ss) vs = refl

  -- A first step that is the same, and a search that goes on in the same way.
  pub find_from-step :
      (slen i : ℕ) (s : Text) (ss : List Text) (n n' : Node H) (vs : Option (Option Values))
      → IsWell old n
      → match_segment new n' s slen vs ≡ match_segment old n s slen vs
      → ((k : Node H) (vs' : Option (Option Values))
          → IsWell old k
          → find_from new slen (suc i) ss (some k) vs' ≡ find_from old slen (suc i) ss (some k) vs')
      → find_from new slen i (s ∷ ss) (some n') vs ≡ find_from old slen i (s ∷ ss) (some n) vs
  unfolding find_from
  find_from-step slen i s ss n n' vs w same goes_on =
      let vs' = (match_segment old n s slen vs).1 in
      elim (Option-cases (match_segment old n s slen vs).0) [
        | inl missing ↦ rw (same, missing) (find_from-none slen (suc i) ss vs')
        | inr (k, there) ↦
            let (linked, takes) = match_segment-Takes old n s slen vs k there in
            rw (same, there) (goes_on k vs' (linked_sound old n k w linked).1)
      ]

  -- A search in a trie that keeps the invariant is the same with a larger cache.
  pub find_from-Extends :
      (slen i : ℕ) (ss : List Text) (n : Node H) (vs : Option (Option Values))
      → IsWell old n
      → find_from new slen i ss (some n) vs ≡ find_from old slen i ss (some n) vs
  unfolding find_from
  find_from-Extends slen i [] n vs w = refl
  find_from-Extends slen i (s ∷ ss) n vs w =
      find_from-step slen i s ss n n vs w (match_segment-Extends n s slen vs w)
        (λ k vs' below. find_from-Extends slen (suc i) ss k vs' below)
