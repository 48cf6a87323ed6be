-- ===== src/Router/Reached.antt =====
-- Which requests `FindHandler` of router.go serves with a route that `AddRoute` has added, expressions
-- included.
use go_relax.Base.{
  ℕ, suc, ◌+◌, ◌<◌, true, false, Option, none, some, List, [], ◌∷◌, ◌≡◌, ◌⊎◌, refl, inl, inr, ap,
  ◌∙◌, subst, Bool-cases, Option-cases, arith, length, if◌then◌else◌,
}
use go_relax.Text.{Text, text_eq}
use go_relax.Text.Laws.{text_eq_iff}
use go_relax.Context.{Values}
use go_relax.Router.Segment.{Regexp, segment_exp, is_pse}
use go_relax.Router.Trie.{
  Node, Links, node, nil, cons, Cache, Router, pseg, depth, handler, links, cached, cache_segment,
  add_link, add_at, add_route, route_segments,
}
use go_relax.Router.Find.{found, no_links, find_handler}
use go_relax.Router.Literal.{served_segments}
use go_relax.Router.WellFormed.{LinkIsWell, IsWell, CacheIsWell, RouterIsWell}
use go_relax.Router.Insertion.{add_route-RouterIsWell}
use go_relax.Router.Sound.{Linked, first, later, Takes, by_text, by_expression, Walk, arrived, down}
use go_relax.Router.Complete.{IsForced, linked_sound, find_from-Walk_forced}

module _ {H : Type 0} where
  -- A node stands at the end of a path of links with the given segments.
  data Leads : Node H → List Text → Node H → Type 0 where
    ends : {n : Node H} → Leads n [] n
    goes :
        {n k m : Node H} {s : Text} {ss : List Text}
        → Linked k (links n)
        → pseg k ≡ s
        → Leads k ss m
        → Leads n (s ∷ ss) m

  add_at-pseg :
      (compile : Text → Option Regexp) (h : H) (ss : List Text) (old new : Cache) (n n' : Node H)
      → add_at compile h ss old n ≡ some (new, n')
      → pseg n' ≡ pseg n
  unfolding add_at
  add_at-pseg compile h [] old new (node p hd e d ls) n' made = ground arith
  add_at-pseg compile h (s ∷ ss) old new (node p hd e d ls) n' made = ground arith

  add_link-Linked :
      (s : Text) (d : ℕ) (go : Node H → Option (Cache × Node H)) (ls ls' : Links H) (new : Cache)
      → add_link s d go ls ≡ some (new, ls')
      → (k k' : Node H) × (pseg k ≡ s) × (go k ≡ some (new, k')) × Linked k' ls'
  unfolding add_link
  add_link-Linked s d go nil ls' new made =
      let k = node s none 0 (d + 1) nil in
      elim (Option-cases (go k)) [
        | inl failed ↦ absurd (ground arith)
        | inr ((c, k'), there) ↦
            let same : cons k' nil ≡ ls' = ground arith in
            (k, k', refl, ground arith, subst (Linked k') same first)
      ]
  add_link-Linked s d go (cons n ls) ls' new made = elim (Bool-cases (text_eq (pseg n) s)) [
    | inl here ↦ elim (Option-cases (go n)) [
      | inl failed ↦ absurd (ground arith)
      | inr ((c, n'), there) ↦
          let same : cons n' ls ≡ ls' = ground arith in
          (n, n', (text_eq_iff (pseg n) s).0 here, ground arith, subst (Linked n') same first)
    ]
    | inr not_here ↦ elim (Option-cases (add_link s d go ls)) [
      | inl failed ↦ absurd (ground arith)
      | inr ((c, ls''), there) ↦
          let (k, k', named, made', l) = add_link-Linked s d go ls ls'' c there in
          let same : cons n ls'' ≡ ls' = ground arith in
          (k, k', named, made' ∙ ground arith, subst (Linked k') same (later l))
    ]
  ]

  add_at-Leads :
      (compile : Text → Option Regexp) (h : H) (ss : List Text) (old new : Cache) (n n' : Node H)
      → add_at compile h ss old n ≡ some (new, n')
      → (m : Node H) × Leads n' ss m × (handler m ≡ some h)
  unfolding add_at
  add_at-Leads compile h [] old new (node p hd e d ls) n' made =
      let same : node p (some h) e d ls ≡ n' = ground arith in
      subst (λ x. (m : Node H) × Leads x [] m × (handler m ≡ some h)) same
        (node p (some h) e d ls, ends, refl)
  add_at-Leads compile h (s ∷ ss) old new (node p hd e d ls) n' made =
      elim (Option-cases (if is_pse s then cache_segment compile s old else some old)) [
        | inl bad ↦ absurd (ground arith)
        | inr (mid, kept) ↦ elim (Option-cases (add_link s d (add_at compile h ss mid) ls)) [
          | inl bad ↦ absurd (ground arith)
          | inr ((c, ls'), linked) ↦
              let (k, k', named, made', l) =
                add_link-Linked s d (add_at compile h ss mid) ls ls' c linked in
              let (m, leads, served) = add_at-Leads compile h ss mid c k k' made' in
              let e' = if is_pse s then e + 1 else e in
              let same : node p hd e' d ls' ≡ n' = ground arith in
              subst (λ x. (m : Node H) × Leads x (s ∷ ss) m × (handler m ≡ some h)) same
                (m, goes l (add_at-pseg compile h ss mid c k k' made' ∙ named) leads, served)
        ]
      ]

module _ (compile : Text → Option Regexp) where
  -- A segment of a request fits a segment of a route: it is the same, or the expression has a group and
  -- matches it whole.
  abbrev pub Fits : Text → Text → Type 0
  Fits s t =
      (s ≡ t)
      ⊎ ((rx : Regexp) × (groups : List Text) × (is_pse s ≡ true)
          × (segment_exp compile s ≡ some rx)
          × (rx.find t ≡ some (t ∷ groups))
          × (0 < length groups))

  abbrev pub AllFit : List Text → List Text → Type 0
  AllFit [] [] = Unit
  AllFit (s ∷ ss) (t ∷ ts) = Fits s t × AllFit ss ts
  AllFit [] (t ∷ ts) = ⊥
  AllFit (s ∷ ss) [] = ⊥

  module _ {H : Type 0} (cache : Cache) (cw : CacheIsWell compile cache) (slen : ℕ) where
    Fits-Takes :
        (e d : ℕ) (k : Node H) (s t : Text)
        → LinkIsWell cache e d k
        → pseg k ≡ s
        → (slen < suc (depth k)) ⊎ (no_links (links k) ≡ false)
        → Fits s t
        → Takes cache slen t k
    Fits-Takes e d k s t w named goes_on (inl same) = by_text (named ∙ same)
    Fits-Takes e d k s t w named goes_on (inr (rx, groups, pse, compiled, at, some_group)) =
        elim (Option-cases (cached (pseg k) cache)) [
          | inl missing ↦ absurd (ground (arith, w.compiled (ap is_pse named ∙ pse)))
          | inr (rx', there) ↦
              let (_, compiled') = cw (pseg k) rx' there in
              let same : rx' ≡ rx = cc (compiled', compiled, named) in
              by_expression rx groups (there ∙ ap some same) at some_group goes_on
        ]

    Linked-no_links : {k : Node H} {ls : Links H} → Linked k ls → no_links ls ≡ false
    Linked-no_links first = refl
    Linked-no_links (later l) = refl

    goes_on_or_ends :
        (k m : Node H) (ss : List Text)
        → Leads k ss m
        → slen ≡ depth k + length ss
        → (slen < suc (depth k)) ⊎ (no_links (links k) ≡ false)
    goes_on_or_ends k m [] ends len = inl (omega arith)
    goes_on_or_ends k m (s ∷ ss) (goes l named leads) len = inr (Linked-no_links l)

    Leads-Walk :
        (n m : Node H) (ss ts : List Text)
        → Leads n ss m
        → IsWell cache n
        → slen ≡ depth n + length ss
        → AllFit ss ts
        → Walk cache slen n ts m
    Leads-Walk n m [] [] ends w len fit = arrived
    Leads-Walk n m (s ∷ ss) (t ∷ ts) (goes {k} l named leads) w len (fits, fit) =
        let (wk, well) = linked_sound cache n k w l in
        let len' : slen ≡ depth k + length ss = omega (arith, wk.deeper) in
        let takes = Fits-Takes _ _ k s t wk named (goes_on_or_ends k m ss leads len') fits in
        down l takes (Leads-Walk k m ss ts leads well len' fit)
    Leads-Walk n m [] (t ∷ ts) leads w len fit = absurd fit
    Leads-Walk n m (s ∷ ss) [] leads w len fit = absurd fit

  AllFit-length : (ss ts : List Text) → AllFit ss ts → length ts ≡ length ss
  AllFit-length [] [] fit = refl
  AllFit-length (s ∷ ss) (t ∷ ts) (fits, fit) = omega (arith, AllFit-length ss ts fit)
  AllFit-length [] (t ∷ ts) fit = absurd fit
  AllFit-length (s ∷ ss) [] fit = absurd fit

  -- After a route is added to a router that keeps the invariant, a request finds the handler of the
  -- route, if each of its segments fits the one of the route, as text or by an expression with a group
  -- that matches it whole, and at no node that the search can come to more than one link takes the next
  -- segment.
  pub find_handler_fits :
      {H : Type 0} (h : H) (method path : Text) (r r' : Router H) (m p : Text)
      (vs : Option (Option Values))
      → RouterIsWell compile r
      → add_route compile method path h r ≡ some r'
      → AllFit (route_segments method path) (served_segments m p)
      → IsForced r'.cache (length (served_segments m p)) r'.root (served_segments m p)
      → (find_handler r' m p vs).0 ≡ found h
  unfolding add_route find_handler
  find_handler_fits h method path r r' m p vs well made fit forced =
      let ss = route_segments method path in
      let ts = served_segments m p in
      let (cw, w, top) = add_route-RouterIsWell compile h method path r r' well made in
      elim (Option-cases (add_at compile h ss r.cache r.root)) [
        | inl bad ↦ absurd (ground arith)
        | inr ((c, n), there) ↦
            let same : n ≡ r'.root = ground arith in
            let (k, leads, served) =
              subst (λ x. (k : Node _) × Leads x ss k × (handler k ≡ some h)) same
                (add_at-Leads compile h ss r.cache c r.root n there) in
            let len : length ts ≡ depth r'.root + length ss =
              omega (arith, AllFit-length ss ts fit) in
            let walk = Leads-Walk r'.cache cw (length ts) r'.root k ss ts leads w len fit in
            find_from-Walk_forced compile r'.cache cw (length ts) 0 vs walk w forced
            ∙ rw served refl
      ]
