-- ===== src/Router/Literal.antt =====
-- Routers whose routes have no expressions: the search of router.go is a map from lists of segments
-- to handlers.
use go_relax.Base.{
  ℕ, suc, ◌+◌, false, Option, none, some, List, [], ◌∷◌, ◌≡◌, refl, inl, inr, if◌then◌else◌,
  Bool-cases, Option-cases, arith, All, length,
}
use go_relax.Text.{Text, codes, text_eq}
use go_relax.Context.{Values}
use go_relax.Router.Segment.{Regexp, is_pse}
use go_relax.Router.Trie.{
  Node, Links, node, nil, cons, Cache, Router, pseg, links, find_link, add_link, add_at, add_route,
  add_method, route_segments,
}
use go_relax.Router.Find.{
  Found, found, route_not_found, route_bad_method, match_segment, find_from, find_handler,
}
use go_relax.Router.Lookup.{segments_eq, lookup, add_at-lookup}

abbrev pub found_handler : {H : Type 0} → Found H → Option H
found_handler (found h) = some h
found_handler route_not_found = none
found_handler route_bad_method = none

-- No segment is tried as an expression.
abbrev pub AreLiteral : List Text → Type 0
AreLiteral ss = All (λ s. is_pse s ≡ false) ss

-- The segments that `FindHandler` looks for.
abbrev pub served_segments : Text → Text → List Text
served_segments method path =
    route_segments (if text_eq method (codes "HEAD") then codes "GET" else method) path

-- No node has counted an expression.
unfoldable mutual
  pub IsPlain : {H : Type 0} → Node H → Type 0
  IsPlain (node p h e d ls) = (e ≡ 0) × ArePlain ls

  pub ArePlain : {H : Type 0} → Links H → Type 0
  ArePlain nil = Unit
  ArePlain (cons n ls) = IsPlain n × ArePlain ls

module _ {H : Type 0} where
  find_link-IsPlain :
      (s : Text) (ls : Links H) (n : Node H) → ArePlain ls → find_link s ls ≡ some n → IsPlain n
  unfolding find_link ArePlain
  find_link-IsPlain s nil n plain e = cc
  find_link-IsPlain s (cons m ls) n (pm, pls) e = elim (Bool-cases (text_eq (pseg m) s)) [
    | inl here ↦ let same : m ≡ n = ground arith in rw (← same) pm
    | inr there ↦ find_link-IsPlain s ls n pls (ground arith)
  ]

  links-ArePlain : (n : Node H) → IsPlain n → ArePlain (links n)
  unfolding IsPlain
  links-ArePlain (node p h e d ls) (_, plain) = plain

  match_segment-IsPlain :
      (cache : Cache) (n : Node H) (s : Text) (slen : ℕ) (vs : Option (Option Values))
      → IsPlain n
      → match_segment cache n s slen vs ≡ (find_link s (links n), vs)
  unfolding match_segment IsPlain
  match_segment-IsPlain cache (node p h e d ls) s slen vs (none_counted, _) = ground arith

  find_from-none :
      (cache : Cache) (slen i : ℕ) (ss : List Text) (vs : Option (Option Values))
      → found_handler (find_from {H = H} cache slen i ss none vs).0 ≡ none
  unfolding find_from
  find_from-none cache slen i [] vs = refl
  find_from-none cache slen i (s ∷ ss) vs = ground arith

  find_from-lookup :
      (cache : Cache) (slen i : ℕ) (ss : List Text) (n : Node H) (vs : Option (Option Values))
      → IsPlain n
      → found_handler (find_from cache slen i ss (some n) vs).0 ≡ lookup ss n
  unfolding find_from lookup
  find_from-lookup cache slen i [] n vs plain = ground arith
  find_from-lookup cache slen i (s ∷ ss) n vs plain = elim (Option-cases (find_link s (links n))) [
    | inl missing ↦ ground (
      arith,
      match_segment-IsPlain cache n s slen vs plain,
      find_from-none cache slen (suc i) ss vs,
    )
    | inr (n', linked) ↦
        let plain' = find_link-IsPlain s (links n) n' (links-ArePlain n plain) linked in
        ground (
          arith,
          match_segment-IsPlain cache n s slen vs plain,
          find_from-lookup cache slen (suc i) ss n' vs plain',
        )
  ]

  abbrev KeepsPlain : Cache → (Node H → Option (Cache × Node H)) → Type 0
  KeepsPlain cache go =
      (n : Node H) → IsPlain n → (n' : Node H) × (go n ≡ some (cache, n')) × IsPlain n'

  add_link-ArePlain :
      (s : Text) (d : ℕ) (cache : Cache) (go : Node H → Option (Cache × Node H))
      → KeepsPlain cache go
      → (ls : Links H) → ArePlain ls
      → (ls' : Links H) × (add_link s d go ls ≡ some (cache, ls')) × ArePlain ls'
  unfolding add_link IsPlain
  add_link-ArePlain s d cache go keeps nil plain =
      let (n, made, p) = keeps (node s none 0 (d + 1) nil) (refl, tt) in
      (cons n nil, rw made refl, (p, tt))
  add_link-ArePlain s d cache go keeps (cons m ls) (pm, pls) =
      elim (Bool-cases (text_eq (pseg m) s)) [
        | inl here ↦ let (n, made, p) = keeps m pm in (cons n ls, rw (here, made) refl, (p, pls))
        | inr there ↦
            let (ls', linked, p) = add_link-ArePlain s d cache go keeps ls pls in
            (cons m ls', rw (there, linked) refl, (pm, p))
      ]

  -- A literal route can always be added, compiles nothing, and keeps the trie plain.
  pub add_at-IsPlain :
      (compile : Text → Option Regexp) (h : H) (ss : List Text) (cache : Cache)
      → AreLiteral ss
      → KeepsPlain cache (add_at compile h ss cache)
  unfolding add_at IsPlain
  add_at-IsPlain compile h [] cache lit (node p hd e d ls) plain =
      (node p (some h) e d ls, refl, plain)
  add_at-IsPlain compile h (s ∷ ss) cache (ls_lit, lit) (node p hd e d ls) (ez, plain) =
      let (ls', linked, pl) =
        add_link-ArePlain s d cache (add_at compile h ss cache)
          (add_at-IsPlain compile h ss cache lit) ls plain in
      (node p hd e d ls', rw (ls_lit, linked) refl, (ez, pl))

  -- A search in a plain router reads the map of its trie.
  pub find_handler-lookup :
      (r : Router H) (method path : Text) (vs : Option (Option Values))
      → IsPlain r.root
      → found_handler (find_handler r method path vs).0
        ≡ lookup (served_segments method path) r.root
  unfolding find_handler
  find_handler-lookup r method path vs plain =
      find_from-lookup r.cache (length (served_segments method path)) 0
        (served_segments method path) r.root vs plain

  -- To a router without expressions, a route without expressions can be added. It then has no
  -- expressions either, and a search finds the new handler for exactly the requests with the segments
  -- of the new route, and for every other request what it found before.
  pub find_handler-add_route :
      (compile : Text → Option Regexp) (method path : Text) (h : H) (r : Router H)
      → IsPlain r.root
      → AreLiteral (route_segments method path)
      → (r' : Router H) × (add_route compile method path h r ≡ some r')
        × IsPlain r'.root
        × ((m p : Text) (vs : Option (Option Values))
            → found_handler (find_handler r' m p vs).0 ≡ (
                if segments_eq (route_segments method path) (served_segments m p)
                then some h
                else found_handler (find_handler r m p vs).0))
  unfolding add_route
  find_handler-add_route compile method path h r plain lit =
      let segs = route_segments method path in
      let (root, made, p) = add_at-IsPlain compile h segs r.cache lit r.root plain in
      let r' : Router H = record {
        root = root;
        methods = add_method method r.methods;
        cache = r.cache;
      } in
      (
        r',
        rw made refl,
        p,
        λ m q vs.
            let found_new = find_handler-lookup r' m q vs p in
            let found_old = find_handler-lookup r m q vs plain in
            let law =
              (add_at-lookup compile h segs r.cache r.root r.cache root made).1
                (served_segments m q) in
            rw (found_new, found_old) law,
      )
