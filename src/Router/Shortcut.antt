-- ===== src/Router/Shortcut.antt =====
-- `matchSegment` of router.go without its test of `numExp`, and the slashes at the end of a path.
use go_relax.Base.{
  ℕ, zero, suc, Bool, true, Option, none, some, [], ◌∷◌, ◌++◌, ◌≡◌, refl, inl, inr, ap,
  Option-cases, arith, ◌==◌,
}
use go_relax.Text.{Text, trim_right, keep_cons, codes}
use go_relax.Context.{Values}
use go_relax.Router.Segment.{Regexp}
use go_relax.Router.Trie.{
  Node, Links, node, nil, cons, Cache, Router, pseg, links, find_link, cached, route_segments,
}
use go_relax.Router.Find.{match_links, match_segment, store_match, find_handler}
use go_relax.Router.WellFormed.{LinkIsWell, IsWell, AreWell, CacheIsWell}

module _ {H : Type 0} where
  -- Every link is tried as an expression first, whatever the node has counted.
  pub match_unguarded :
      Cache → Node H → Text → ℕ → Option (Option Values) → Option (Node H) × Option (Option Values)
  match_unguarded cache n s slen vs = elim (match_links cache s slen (links n)) [
    | some (n', rx, m) ↦ (some n', store_match rx m vs)
    | none ↦ (find_link s (links n), vs)
  ]

  module _ (compile : Text → Option Regexp) (cache : Cache) (cw : CacheIsWell compile cache) where
    literal-cached : (n : Node H) (d : ℕ) → LinkIsWell cache 0 d n → cached (pseg n) cache ≡ none
    literal-cached n d w = elim (Option-cases (cached (pseg n) cache)) [
      | inl missing ↦ missing
      | inr (rx, there) ↦ absurd (omega (arith, w.counted (cw (pseg n) rx there).0))
    ]

    match_links-literal :
        (s : Text) (slen d : ℕ) (ls : Links H)
        → AreWell cache 0 d ls
        → match_links cache s slen ls ≡ none
    unfolding match_links AreWell
    match_links-literal s slen d nil w = refl
    match_links-literal s slen d (cons n ls) (w, _, _, ws) =
        ground (arith, literal-cached n d w, match_links-literal s slen d ls ws)

    -- In a trie that keeps the invariant, with a cache that holds only expressions, each with what its
    -- segment compiles to, `matchSegment` is the search that tries every link as an
    -- expression first: the test of `numExp` changes neither the link nor the values.
    pub match_segment-match_unguarded :
        (n : Node H) (s : Text) (slen : ℕ) (vs : Option (Option Values))
        → IsWell cache n
        → match_segment cache n s slen vs ≡ match_unguarded cache n s slen vs
    unfolding match_segment match_unguarded IsWell
    match_segment-match_unguarded (node p h zero d ls) s slen vs w =
        ground (arith, match_links-literal s slen d ls w)
    match_segment-match_unguarded (node p h (suc e) d ls) s slen vs w = ground arith

trim_right-append :
    (test : ℕ → Bool) (s : Text) (c : ℕ)
    → test c ≡ true
    → trim_right test (s ++ c ∷ []) ≡ trim_right test s
unfolding trim_right
trim_right-append test [] c h = rw h
trim_right-append test (b ∷ s) c h = ap (keep_cons test b) (trim_right-append test s c h)

route_segments_slash : (m p : Text) → route_segments m (p ++ b'/' ∷ []) ≡ route_segments m p
unfolding route_segments
route_segments_slash m p = rw (trim_right-append (λ c. c == b'/') p b'/' refl)

-- A slash at the end of the path changes neither the result of a search nor the values it stores.
pub find_handler_slash :
    {H : Type 0} (r : Router H) (method path : Text) (vs : Option (Option Values))
    → find_handler r method (path ++ b'/' ∷ []) vs ≡ find_handler r method path vs
unfolding find_handler
find_handler_slash r method path vs =
    ground (arith, route_segments_slash method path, route_segments_slash (codes "GET") path)
