-- ===== src/Router/Lasting.antt =====
-- Routes of router.go that stay served while routes of other methods are added.
use go_relax.Base.{
  ℕ, false, Option, some, List, [], ◌∷◌, ◌++◌, ◌==◌, ◌≡◌, refl, sym, ap, ◌∙◌, subst, if◌then◌else◌,
  Option-cases, Bool-cases, arith, length, inl, inr,
}
use go_relax.Text.{Text, codes, text_eq, split, split_first, trim_right}
use go_relax.Text.Laws.{text_eq_iff, text_eq_sym}
use go_relax.Context.{Values}
use go_relax.Router.Segment.{Regexp, is_pse}
use go_relax.Router.Trie.{
  Node, Links, node, cons, Cache, Router, pseg, links, add_link, add_at, add_route, route_segments,
  add_method,
}
use go_relax.Router.Find.{found, find_handler, head_of}
use go_relax.Router.Literal.{served_segments}
use go_relax.Router.WellFormed.{CacheIsWell, RouterIsWell, Extends}
use go_relax.Router.Insertion.{add_at-Kept, add_route-RouterIsWell}
use go_relax.Router.Sound.{Linked, first, later, Takes, by_text, by_expression}
use go_relax.Router.Complete.{IsForced}
use go_relax.Router.Reached.{AllFit, find_handler_fits}
use go_relax.Router.Others.{find_handler-other_method}

module _ {H : Type 0} where
  Takes-Extends :
      (old new : Cache) (slen : ℕ) (t : Text) (k : Node H)
      → Extends old new
      → Takes old slen t k
      → Takes new slen t k
  Takes-Extends old new slen t k ext (by_text e) = by_text e
  Takes-Extends old new slen t k ext (by_expression rx groups there at some_group goes_on) =
      by_expression rx groups (ext (pseg k) rx there) at some_group goes_on

  IsForced-Extends :
      (old new : Cache) (slen : ℕ) (n : Node H) (ts : List Text)
      → Extends old new
      → IsForced new slen n ts
      → IsForced old slen n ts
  unfolding IsForced
  IsForced-Extends old new slen n [] ext forced = tt
  IsForced-Extends old new slen n (t ∷ ts) ext (one, below) =
      let more =
        λ (k : Node H) (takes : Takes old slen t k). Takes-Extends old new slen t k ext takes in
      (
        λ k k' l takes l' takes'. one k k' l (more k takes) l' (more k' takes'),
        λ k l takes. IsForced-Extends old new slen k ts ext (below k l (more k takes)),
      )

  -- A link for another segment stays where it is.
  Linked-add_link :
      (s : Text) (d : ℕ) (go : Node H → Option (Cache × Node H)) (new : Cache) (k : Node H)
      {ls : Links H} (ls' : Links H)
      → Linked k ls
      → text_eq (pseg k) s ≡ false
      → add_link s d go ls ≡ some (new, ls')
      → Linked k ls'
  unfolding add_link
  Linked-add_link s d go new k ls' (first {ls}) other made =
      elim (Option-cases (add_link s d go ls)) [
        | inl failed ↦ absurd (ground arith)
        | inr ((c, ls''), there) ↦
            let same : cons k ls'' ≡ ls' = ground arith in subst (Linked k) same first
      ]
  Linked-add_link s d go new k ls' (later {m} {ls} l) other made =
      elim (Bool-cases (text_eq (pseg m) s)) [
        | inl here ↦ elim (Option-cases (go m)) [
          | inl failed ↦ absurd (ground arith)
          | inr ((c, m'), there) ↦
              let same : cons m' ls ≡ ls' = ground arith in subst (Linked k) same (later l)
        ]
        | inr not_here ↦ elim (Option-cases (add_link s d go ls)) [
          | inl failed ↦ absurd (ground arith)
          | inr ((c, ls''), there) ↦
              let same_cache : c ≡ new = ground arith in
              let same : cons m ls'' ≡ ls' = ground arith in
              let made' : add_link s d go ls ≡ some (new, ls'') = rw (← same_cache) there in
              subst (Linked k) same (later (Linked-add_link s d go new k ls'' l other made'))
        ]
      ]

module _ {H : Type 0} (compile : Text → Option Regexp) (h : H) (s : Text) (ss : List Text)
    (t : Text) (literal : is_pse s ≡ false) (other : text_eq s t ≡ false) where
  -- A link that takes another segment than the one that is added.
  Takes-other :
      (old : Cache) (slen : ℕ) (k : Node H)
      → CacheIsWell compile old
      → Takes old slen t k
      → text_eq (pseg k) s ≡ false
  Takes-other old slen k cw (by_text e) = rw e (text_eq_sym t s ∙ other)
  Takes-other old slen k cw (by_expression rx groups there at some_group goes_on) =
      elim (Bool-cases (text_eq (pseg k) s)) [
        | inl here ↦
            absurd (cc ((cw (pseg k) rx there).0, literal, (text_eq_iff (pseg k) s).0 here))
        | inr there' ↦ there'
      ]

  Linked-add_at :
      (old new : Cache) (n n' k : Node H) (slen : ℕ)
      → CacheIsWell compile old
      → add_at compile h (s ∷ ss) old n ≡ some (new, n')
      → Linked k (links n)
      → Takes old slen t k
      → Linked k (links n')
  unfolding add_at
  Linked-add_at old new (node p hd e d ls) n' k slen cw made l takes =
      elim (Option-cases (add_link s d (add_at compile h ss old) ls)) [
        | inl failed ↦ absurd (ground arith)
        | inr ((c, ls'), linked) ↦
            let same : node p hd e d ls' ≡ n' = ground arith in
            rw (← same) (
              Linked-add_link s d (add_at compile h ss old) c k ls' l
                (Takes-other old slen k cw takes) linked)
      ]

  -- A search that is forced in the new trie is forced in the old one.
  IsForced-add_at :
      (old new : Cache) (n n' : Node H) (ts : List Text) (slen : ℕ)
      → CacheIsWell compile old
      → Extends old new
      → add_at compile h (s ∷ ss) old n ≡ some (new, n')
      → IsForced new slen n' (t ∷ ts)
      → IsForced old slen n (t ∷ ts)
  unfolding IsForced
  IsForced-add_at old new n n' ts slen cw ext made (one, below) =
      let link = λ (k : Node H) (l : Linked k (links n)) (takes : Takes old slen t k).
        Linked-add_at old new n n' k slen cw made l takes in
      let more =
        λ (k : Node H) (takes : Takes old slen t k). Takes-Extends old new slen t k ext takes in
      (
        λ k k' l takes l' takes'.
            one k k' (link k l takes) (more k takes) (link k' l' takes') (more k' takes'),
        λ k l takes.
            IsForced-Extends old new slen k ts ext (below k (link k l takes) (more k takes)),
      )

module _ {H : Type 0} (compile : Text → Option Regexp) where
  -- Routes are added whose method is another one than that of a request.
  pub data AddsOthers (t : Text) : Router H → Router H → Type 0 where
    none_added : {r : Router H} → AddsOthers t r r
    one_added :
        (method path : Text) (h : H) {r r1 r' : Router H}
        → is_pse (head_of (route_segments method path)) ≡ false
        → text_eq (head_of (route_segments method path)) t ≡ false
        → add_route compile method path h r ≡ some r1
        → AddsOthers t r1 r'
        → AddsOthers t r r'

  IsForced-add_route :
      (method path : Text) (h : H) (r r' : Router H) (m p : Text) (slen : ℕ)
      → RouterIsWell compile r
      → is_pse (head_of (route_segments method path)) ≡ false
      → text_eq (head_of (route_segments method path)) (head_of (served_segments m p)) ≡ false
      → add_route compile method path h r ≡ some r'
      → IsForced r'.cache slen r'.root (served_segments m p)
      → IsForced r.cache slen r.root (served_segments m p)
  unfolding add_route route_segments split
  IsForced-add_route method path h r r' m p slen (cw, w, top) literal other made forced =
      let (s, ss) = split_first b'/' (method ++ trim_right (λ c. c == b'/') path) in
      let get = if text_eq m (codes "HEAD") then codes "GET" else m in
      let (t, ts) = split_first b'/' (get ++ trim_right (λ c. c == b'/') p) in
      elim (Option-cases (add_at compile h (s ∷ ss) r.cache r.root)) [
        | inl failed ↦ absurd (ground arith)
        | inr ((c, n'), there) ↦
            let k = add_at-Kept compile h (s ∷ ss) r.cache cw r.root c n' w there in
            let same : record { root = n'; methods = add_method method r.methods; cache = c } ≡ r' =
              ground arith in
            IsForced-add_at compile h s ss t literal other r.cache c r.root n' ts slen cw k.extends
              there
              (subst (λ (x : Router H). IsForced x.cache slen x.root (t ∷ ts)) (sym same) forced)
      ]

  AddsOthers-find_handler :
      (m p : Text) (vs : Option (Option Values)) {r r' : Router H}
      → RouterIsWell compile r
      → AddsOthers (head_of (served_segments m p)) r r'
      → IsForced r'.cache (length (served_segments m p)) r'.root (served_segments m p)
      → (find_handler r' m p vs ≡ find_handler r m p vs)
        × IsForced r.cache (length (served_segments m p)) r.root (served_segments m p)
  AddsOthers-find_handler m p vs well none_added forced = (refl, forced)
  AddsOthers-find_handler m p vs well
        (one_added method path h {r} {r1} {r'} literal other made rest) forced =
      let well1 = add_route-RouterIsWell compile h method path r r1 well made in
      let (same, forced1) = AddsOthers-find_handler m p vs well1 rest forced in
      (
        same ∙ find_handler-other_method compile h method path r r1 m p vs well literal other made,
        IsForced-add_route method path h r r1 m p (length (served_segments m p)) well literal other
            made forced1,
      )

  -- After a route is added to a router that keeps the invariant, and then any routes of other methods,
  -- a request finds the handler of the route, if each of its segments fits the one of the route, as
  -- text or by an expression with a group that matches it whole, and at no node of the last router that
  -- the search can come to more than one link takes the next segment.
  pub find_handler_lasts :
      (h : H) (method path : Text) (r r1 r' : Router H) (m p : Text) (vs : Option (Option Values))
      → RouterIsWell compile r
      → add_route compile method path h r ≡ some r1
      → AddsOthers (head_of (served_segments m p)) r1 r'
      → AllFit compile (route_segments method path) (served_segments m p)
      → IsForced r'.cache (length (served_segments m p)) r'.root (served_segments m p)
      → (find_handler r' m p vs).0 ≡ found h
  find_handler_lasts h method path r r1 r' m p vs well made others fit forced =
      let well1 = add_route-RouterIsWell compile h method path r r1 well made in
      let (same, forced1) = AddsOthers-find_handler m p vs well1 others forced in
      ap (λ x. x.0) same ∙ find_handler_fits compile h method path r r1 m p vs well made fit forced1
