-- ===== src/Router/Panics.antt =====
-- When `AddRoute` of router.go panics.
use go_relax.Base.{
  ℕ, ◌+◌, Bool, true, ◌&&◌, Option, none, some, List, [], ◌∷◌, ◌≡◌, refl, inl, inr, if◌then◌else◌,
  Option-cases, arith, is_some,
}
use go_relax.Text.{Text}
use go_relax.Router.Segment.{Regexp, segment_exp, is_pse}
use go_relax.Router.Trie.{
  Node, Links, node, nil, cons, Cache, Router, cached, cache_segment, add_link, add_at, add_route,
  route_segments,
}
use go_relax.Router.WellFormed.{CacheIsWell}
use go_relax.Router.Insertion.{step-CacheIsWell}

module _ (compile : Text → Option Regexp) where
  pub compiles : Text → Bool
  compiles s = if is_pse s then is_some (segment_exp compile s) else true

  -- Each segment that is an expression compiles.
  pub all_compile : List Text → Bool
  all_compile [] = true
  all_compile (s ∷ ss) = compiles s && all_compile ss

  cache_segment-compiles :
      (s : Text) (cache : Cache)
      → CacheIsWell compile cache
      → is_some (if is_pse s then cache_segment compile s cache else some cache) ≡ compiles s
  unfolding compiles cache_segment
  cache_segment-compiles s cache w = elim (Option-cases (cached s cache)) [
    | inl missing ↦ ground arith
    | inr (rx, there) ↦ let (pse, compiled) = w s rx there in ground arith
  ]

  module _ {H : Type 0} where
    add_link-is_some :
        (s : Text) (d : ℕ) (v : Bool) (go : Node H → Option (Cache × Node H))
        → ((n : Node H) → is_some (go n) ≡ v)
        → (ls : Links H) → is_some (add_link s d go ls) ≡ v
    unfolding add_link
    add_link-is_some s d v go h nil = ground (arith, h (node s none 0 (d + 1) nil))
    add_link-is_some s d v go h (cons n ls) = ground (arith, h n, add_link-is_some s d v go h ls)

    add_at-all_compile :
        (h : H) (ss : List Text) (cache : Cache)
        → CacheIsWell compile cache
        → (n : Node H) → is_some (add_at compile h ss cache n) ≡ all_compile ss
    unfolding add_at all_compile
    add_at-all_compile h [] cache w (node p hd e d ls) = refl
    add_at-all_compile h (s ∷ ss) cache w (node p hd e d ls) =
        let ok = cache_segment-compiles s cache w in
        elim (Option-cases (if is_pse s then cache_segment compile s cache else some cache)) [
          | inl bad ↦ ground arith
          | inr (mid, kept) ↦
              let (w', ext, there) = step-CacheIsWell compile s cache mid w kept in
              let law =
                add_link-is_some s d (all_compile ss) (add_at compile h ss mid)
                  (add_at-all_compile h ss mid w') ls in
              ground (arith)
        ]

    -- Adding a route succeeds exactly if each of its segments that is an expression compiles, for a
    -- router whose cache holds only expressions with what they compile to; else it panics.
    pub add_route-all_compile :
        (method path : Text) (h : H) (r : Router H)
        → CacheIsWell compile r.cache
        → is_some (add_route compile method path h r) ≡ all_compile (route_segments method path)
    unfolding add_route
    add_route-all_compile method path h r w =
        ground (arith, add_at-all_compile h (route_segments method path) r.cache w r.root)
