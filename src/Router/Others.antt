-- ===== src/Router/Others.antt =====
-- What `AddRoute` of router.go leaves as it was: the searches for requests of other methods.
use go_relax.Base.{
  ℕ, ◌+◌, false, Option, none, some, List, ◌∷◌, ◌++◌, ◌==◌, ◌≡◌, refl, sym, ◌∙◌, inl, inr,
  if◌then◌else◌, Option-cases, Bool-cases, arith, length,
}
use go_relax.Text.{Text, codes, text_eq, split, split_first, trim_right}
use go_relax.Text.Laws.{text_eq_iff, text_eq_trans_false}
use go_relax.Context.{Values}
use go_relax.Router.Segment.{Regexp, is_pse}
use go_relax.Router.Trie.{
  Node, Links, node, nil, cons, Cache, Router, pseg, find_link, cached, add_link, add_at, add_route,
  add_method, route_segments,
}
use go_relax.Router.Find.{match_links, match_segment, find_handler, head_of}
use go_relax.Router.Literal.{served_segments}
use go_relax.Router.Lookup.{add_at-lookup}
use go_relax.Router.Insertion.{add_at-Kept}
use go_relax.Router.WellFormed.{IsWell, AreWell, CacheIsWell, RouterIsWell, Extends}
use go_relax.Router.Extended.{
  match_uncached, match_links-cons, match_segment-node, cached-Extends, match_links-Extends,
  find_from-step, find_from-Extends,
}

abbrev KeepsName : {H : Type 0} → (Node H → Option (Cache × Node H)) → Type 0
KeepsName {H} go = (n : Node H) (c : Cache) (n' : Node H) → go n ≡ some (c, n') → pseg n' ≡ pseg n

module _ {H : Type 0} (s : Text) (d : ℕ) (go : Node H → Option (Cache × Node H))
    (named : KeepsName go) where
  find_link-add_link :
      (t : Text) (ls : Links H) (new : Cache) (ls' : Links H)
      → text_eq s t ≡ false
      → add_link s d go ls ≡ some (new, ls')
      → find_link t ls' ≡ find_link t ls
  unfolding find_link add_link
  find_link-add_link t nil new ls' other made =
      elim (Option-cases (go (node s none 0 (d + 1) nil))) [
        | inl failed ↦ absurd (ground arith)
        | inr ((c, n'), there) ↦
            let name = named (node s none 0 (d + 1) nil) c n' there in
            let same : cons n' nil ≡ ls' = ground arith in rw (← same, name, other) refl
      ]
  find_link-add_link t (cons n ls) new ls' other made = elim (Bool-cases (text_eq (pseg n) s)) [
    | inl here ↦ elim (Option-cases (go n)) [
      | inl failed ↦ absurd (ground arith)
      | inr ((c, n'), there) ↦
          let name = named n c n' there in
          let same : cons n' ls ≡ ls' = ground arith in
          let differs : text_eq (pseg n) t ≡ false =
            text_eq_trans_false (pseg n) s t here ∙ other in
          rw (← same, name, differs) refl
    ]
    | inr not_here ↦ elim (Option-cases (add_link s d go ls)) [
      | inl failed ↦ absurd (ground arith)
      | inr ((c, ls''), there) ↦
          let same : cons n ls'' ≡ ls' = ground arith in
          let rest = find_link-add_link t ls c ls'' other there in rw (← same, rest) refl
    ]
  ]

  module _ (compile : Text → Option Regexp) (old new : Cache) (ext : Extends old new)
      (cw : CacheIsWell compile new) (literal : is_pse s ≡ false) where
    uncached : (n : Node H) → pseg n ≡ s → cached (pseg n) new ≡ none
    uncached n same = elim (Option-cases (cached (pseg n) new)) [
      | inl missing ↦ missing
      | inr (rx, there) ↦ absurd (cc ((cw (pseg n) rx there).0, literal, same))
    ]

    match_links-add_link :
        (e : ℕ) (t : Text) (slen : ℕ) (ls ls' : Links H)
        → AreWell old e d ls
        → add_link s d go ls ≡ some (new, ls')
        → match_links new t slen ls' ≡ match_links old t slen ls
    unfolding match_links add_link IsWell
    match_links-add_link e t slen nil ls' w made =
        elim (Option-cases (go (node s none 0 (d + 1) nil))) [
          | inl failed ↦ absurd (ground arith)
          | inr ((c, n'), there) ↦
              let name = named (node s none 0 (d + 1) nil) c n' there in
              let same : cons n' nil ≡ ls' = ground arith in
              rw (← same) (match_uncached new t slen n' nil (uncached n' name))
        ]
    match_links-add_link e t slen (cons n ls) ls' (w, absent, wn, ws) made =
        elim (Bool-cases (text_eq (pseg n) s)) [
          | inl here ↦ elim (Option-cases (go n)) [
            | inl failed ↦ absurd (ground arith)
            | inr ((c, n'), there) ↦
                let name = named n c n' there in
                let called = (text_eq_iff (pseg n) s).0 here in
                let same : cons n' ls ≡ ls' = ground arith in
                let was = sym (cached-Extends compile old new ext cw e d n w) ∙ uncached n called in
                let rest = match_links-Extends compile old new ext cw e d t slen ls ws in
                rw (← same) (
                  match_uncached new t slen n' ls (uncached n' (name ∙ called))
                  ∙ rest
                  ∙ sym (match_uncached old t slen n ls was))
          ]
          | inr not_here ↦ elim (Option-cases (add_link s d go ls)) [
            | inl failed ↦ absurd (ground arith)
            | inr ((c, ls''), there) ↦
                let same_cache : c ≡ new = ground arith in
                let same : cons n ls'' ≡ ls' = ground arith in
                let rest = match_links-add_link e t slen ls ls'' ws (rw (← same_cache) there) in
                rw (← same) (
                  match_links-cons old new t slen n ls ls''
                    (cached-Extends compile old new ext cw e d n w) rest)
          ]
        ]

module _ {H : Type 0} (compile : Text → Option Regexp) (h : H) where
  add_at-KeepsName : (ss : List Text) (cache : Cache) → KeepsName (add_at compile h ss cache)
  add_at-KeepsName ss cache n c n' made = (add_at-lookup compile h ss cache n c n' made).0

  -- The first step of a search for a segment that is not the first one of the route.
  match_segment-add_at :
      (s : Text) (ss : List Text) (old new : Cache) (n n' : Node H) (t : Text) (slen : ℕ)
      (vs : Option (Option Values))
      → CacheIsWell compile old
      → IsWell old n
      → is_pse s ≡ false
      → text_eq s t ≡ false
      → add_at compile h (s ∷ ss) old n ≡ some (new, n')
      → match_segment new n' t slen vs ≡ match_segment old n t slen vs
  unfolding add_at IsWell
  match_segment-add_at s ss old new (node p hd e d ls) n' t slen vs cw w literal other made =
      let k = add_at-Kept compile h (s ∷ ss) old cw (node p hd e d ls) new n' w made in
      elim (Option-cases (add_link s d (add_at compile h ss old) ls)) [
        | inl failed ↦ absurd (ground arith)
        | inr ((c, ls'), linked) ↦
            let same_cache : c ≡ new = ground arith in
            let same : node p hd e d ls' ≡ n' = ground arith in
            let links_same =
              find_link-add_link s d (add_at compile h ss old) (add_at-KeepsName ss old) t ls c ls'
                other linked in
            let matched =
              match_links-add_link s d (add_at compile h ss old) (add_at-KeepsName ss old) compile
                old new k.extends k.cache_well literal e t slen ls ls' w
                (rw (← same_cache) linked) in
            rw (← same) (match_segment-node old new p hd e d ls ls' t slen vs links_same matched)
      ]

  -- Adding a route leaves the search for every request whose first segment, the method, is another
  -- one: its handler or its error, and its values, are what they were. The router keeps the
  -- invariant, and the method of the route is no expression.
  pub find_handler-other_method :
      (method path : Text) (r r' : Router H) (m p : Text) (vs : Option (Option Values))
      → RouterIsWell compile r
      → is_pse (head_of (route_segments method path)) ≡ false
      → text_eq (head_of (route_segments method path)) (head_of (served_segments m p)) ≡ false
      → add_route compile method path h r ≡ some r'
      → find_handler r' m p vs ≡ find_handler r m p vs
  unfolding find_handler add_route route_segments split
  find_handler-other_method method path r r' m p vs (cw, w, top) literal other made =
      let (s, ss) = split_first b'/' (method ++ trim_right (λ c. c == b'/') path) in
      let get = if text_eq m (codes "HEAD") then codes "GET" else m in
      let (t, ts) = split_first b'/' (get ++ trim_right (λ c. c == b'/') p) in
      elim (Option-cases (add_at compile h (s ∷ ss) r.cache r.root)) [
        | inl failed ↦ absurd (ground arith)
        | inr ((c, n'), there) ↦
            let k = add_at-Kept compile h (s ∷ ss) r.cache cw r.root c n' w there in
            let same : record { root = n'; methods = add_method method r.methods; cache = c } ≡ r' =
              ground arith in
            let slen = length (t ∷ ts) in
            rw (← same) (
              find_from-step compile r.cache c k.extends k.cache_well slen 0 t ts r.root n' vs w
                (match_segment-add_at s ss r.cache c r.root n' t slen vs cw w literal other there)
                (λ x vs' below.
                  find_from-Extends compile r.cache c k.extends k.cache_well slen 1 ts x vs' below))
      ]
