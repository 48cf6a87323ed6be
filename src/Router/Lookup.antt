-- ===== src/Router/Lookup.antt =====
-- The trie of router.go as a map from lists of segments to handlers, expressions taken as texts.
use go_relax.Base.{
  ℕ, ◌+◌, Bool, true, false, ◌&&◌, Option, none, some, List, [], ◌∷◌, ◌≡◌, refl, inl, inr,
  if◌then◌else◌, Bool-cases, Option-cases, arith,
}
use go_relax.Text.{Text, text_eq}
use go_relax.Text.Laws.{text_eq_iff}
use go_relax.Router.Segment.{Regexp, is_pse}
use go_relax.Router.Trie.{
  Node, Links, node, nil, cons, Cache, pseg, handler, links, find_link, cache_segment, add_link,
  add_at,
}

unfoldable pub segments_eq : List Text → List Text → Bool
segments_eq [] [] = true
segments_eq (s ∷ ss) (t ∷ ts) = text_eq s t && segments_eq ss ts
segments_eq _ _ = false

module _ {H : Type 0} where
  -- The handler at the end of a list of segments.
  unfoldable pub lookup : List Text → Node H → Option H
  unfolding find_link
  lookup [] n = handler n
  lookup (t ∷ ts) n = elim (find_link t (links n)) [ none ↦ none | some n' ↦ lookup ts n' ]

  -- The same below a list of links.
  abbrev pub lookup_links : Text → List Text → Links H → Option H
  lookup_links t ts ls = elim (find_link t ls) [ none ↦ none | some n ↦ lookup ts n ]

  abbrev Adds : H → List Text → (Node H → Option (Cache × Node H)) → Type 0
  Adds h ss go =
      (n : Node H) (cache : Cache) (n' : Node H)
      → go n ≡ some (cache, n')
      → (pseg n' ≡ pseg n)
        × ((ts : List Text) → lookup ts n' ≡ (if segments_eq ss ts then some h else lookup ts n))

  abbrev pub fresh : Text → ℕ → Node H
  fresh s d = node s none 0 d nil

  -- A node without links leads nowhere.
  pub lookup-fresh : (s : Text) (d : ℕ) (ts : List Text) → lookup ts (fresh s d) ≡ none
  unfolding lookup
  lookup-fresh s d [] = refl
  lookup-fresh s d (t ∷ ts) = refl

  module _ (h : H) (s : Text) (ss : List Text) (d : ℕ) (go : Node H → Option (Cache × Node H))
      (adds : Adds h ss go) where
    add_link-lookup :
        (ls : Links H) (cache : Cache) (ls' : Links H)
        → add_link s d go ls ≡ some (cache, ls')
        → (t : Text) (ts : List Text)
        → lookup_links t ts ls'
          ≡ (if text_eq s t && segments_eq ss ts then some h else lookup_links t ts ls)
    unfolding add_link find_link
    add_link-lookup nil cache ls' e t ts = elim (Option-cases (go (fresh s (d + 1)))) [
      | inl failed ↦ ground arith
      | inr ((c, n), made) ↦
          let (same, adds_n) = adds (fresh s (d + 1)) c n made in
          ground (arith, same, adds_n ts, lookup-fresh s (d + 1) ts)
    ]
    add_link-lookup (cons n ls) cache ls' e t ts = elim (Bool-cases (text_eq (pseg n) s)) [
      | inl here ↦ elim (Option-cases (go n)) [
        | inl failed ↦ ground arith
        | inr ((c, n'), made) ↦
            let (same, adds_n) = adds n c n' made in
            ground (
              arith,
              same,
              adds_n ts,
              text_eq_iff (pseg n) s,
              text_eq_iff (pseg n) t,
              text_eq_iff s t,
            )
      ]
      | inr there ↦ elim (Option-cases (add_link s d go ls)) [
        | inl failed ↦ ground arith
        | inr ((c, ls''), made) ↦ ground (
          arith,
          add_link-lookup ls c ls'' made t ts,
          text_eq_iff (pseg n) s,
          text_eq_iff (pseg n) t,
          text_eq_iff s t,
        )
      ]
    ]

  set_handler-lookup :
      (h : H) (p : Text) (hd : Option H) (e d : ℕ) (ls : Links H) (ts : List Text)
      → lookup ts (node p (some h) e d ls)
        ≡ (if segments_eq [] ts then some h else lookup ts (node p hd e d ls))
  unfolding lookup segments_eq
  set_handler-lookup h p hd e d ls [] = refl
  set_handler-lookup h p hd e d ls (t ∷ ts) = refl

  set_links-lookup :
      (h : H) (s : Text) (ss : List Text) (d : ℕ) (go : Node H → Option (Cache × Node H))
      → Adds h ss go
      → (p : Text) (hd : Option H) (e e' : ℕ) (ls ls' : Links H) (c : Cache)
      → add_link s d go ls ≡ some (c, ls')
      → (ts : List Text)
      → lookup ts (node p hd e' d ls')
        ≡ (if segments_eq (s ∷ ss) ts then some h else lookup ts (node p hd e d ls))
  unfolding lookup segments_eq
  set_links-lookup h s ss d go adds p hd e e' ls ls' c made [] = refl
  set_links-lookup h s ss d go adds p hd e e' ls ls' c made (t ∷ ts) =
      add_link-lookup h s ss d go adds ls c ls' made t ts

  -- After a route is added, its segments lead to its handler, and all others lead where they did.
  pub add_at-lookup :
      (compile : Text → Option Regexp) (h : H) (ss : List Text) (cache : Cache)
      → Adds h ss (add_at compile h ss cache)
  unfolding add_at
  add_at-lookup compile h [] cache (node p hd e d ls) c n' made =
      let same : node p (some h) e d ls ≡ n' = ground arith in
      rw (← same) (refl, set_handler-lookup h p hd e d ls)
  add_at-lookup compile h (s ∷ ss) cache (node p hd e d ls) c n' made =
      elim (Option-cases (if is_pse s then cache_segment compile s cache else some cache)) [
        | inl failed ↦ absurd (ground arith)
        | inr (cache', kept) ↦ elim (Option-cases (add_link s d (add_at compile h ss cache') ls)) [
          | inl failed ↦ absurd (ground arith)
          | inr ((c', ls'), linked) ↦
              let same : node p hd (if is_pse s then e + 1 else e) d ls' ≡ n' = ground arith in
              rw (← same) (
                refl,
                set_links-lookup h s ss d (add_at compile h ss cache')
                    (add_at-lookup compile h ss cache') p hd e (if is_pse s then e + 1 else e) ls
                    ls' c' linked,
              )
        ]
      ]
