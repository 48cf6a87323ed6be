-- ===== src/Router/Insertion.antt =====
-- `AddRoute` of router.go keeps the invariant of the trie and the cache.
use go_relax.Base.{
  ℕ, ◌+◌, ◌<◌, true, false, Option, none, some, List, [], ◌∷◌, ◌≡◌, refl, inl, inr, ◌∙◌,
  Option-cases, Bool-cases, arith, if◌then◌else◌, is_some,
}
use go_relax.Text.{Text, text_eq}
use go_relax.Text.Laws.{text_eq_sym}
use go_relax.Router.Segment.{Regexp, is_pse}
use go_relax.Router.Trie.{
  add_method, add_at, add_route, route_segments, Node, Links, node, nil, cons, Cache, Router, pseg,
  depth, find_link, cached, cache_segment, add_link, add_at, add_route, route_segments,
}
use go_relax.Router.Caching.{cache_segment-CacheIsWell}
use go_relax.Router.WellFormed.{
  LinkIsWell, IsAbsent, IsWell, AreWell, CacheIsWell, RouterIsWell, Extends, is_some-Extends,
  LinkIsWell-Extends, IsWell-Extends, AreWell-Extends,
}

-- What an insertion below a node keeps.
pub record Kept {H : Type 0} (compile : Text → Option Regexp) (old : Cache) (n : Node H)
    (new : Cache) (n' : Node H) : Type 0 where
  pub deeper : depth n' ≡ depth n
  pub named : pseg n' ≡ pseg n
  pub well : IsWell new n'
  pub extends : Extends old new
  pub cache_well : CacheIsWell compile new

abbrev pub Keeps :
    {H : Type 0} → (Text → Option Regexp) → Cache → (Node H → Option (Cache × Node H)) → Type 0
Keeps {H} compile old go =
    (n : Node H) (new : Cache) (n' : Node H)
    → IsWell old n
    → go n ≡ some (new, n')
    → Kept compile old n new n'

record KeptLinks {H : Type 0} (compile : Text → Option Regexp) (old : Cache) (s : Text) (e d : ℕ)
    (ls : Links H) (new : Cache) (ls' : Links H) : Type 0 where
  wells : AreWell new e d ls'
  extends : Extends old new
  cache_well : CacheIsWell compile new
  absent : (t : Text) → text_eq s t ≡ false → IsAbsent t ls → IsAbsent t ls'

IsAbsent-later :
    {H : Type 0} (n : Node H) (t : Text) (ls ls' : Links H)
    → IsAbsent t (cons n ls)
    → (IsAbsent t ls → IsAbsent t ls')
    → IsAbsent t (cons n ls')
unfolding find_link
IsAbsent-later n t ls ls' gone keep = elim (Bool-cases (text_eq (pseg n) t)) [
  | inl here ↦ ground arith
  | inr there ↦ rw there (keep (rw there at gone))
]

module _ {H : Type 0} (compile : Text → Option Regexp) (old : Cache) (s : Text) (e d : ℕ)
    (counted : is_pse s ≡ true → 0 < e) (compiled : is_pse s ≡ true → is_some (cached s old) ≡ true)
    (go : Node H → Option (Cache × Node H)) (keeps : Keeps compile old go) where
  LinkIsWell-Kept :
      (n : Node H) (new : Cache) (n' : Node H)
      → LinkIsWell old e d n
      → Kept compile old n new n'
      → LinkIsWell new e d n'
  LinkIsWell-Kept n new n' w k = record {
    deeper = k.deeper ∙ w.deeper;
    counted = λ p. w.counted (rw (← k.named) p);
    compiled = λ p.
        rw k.named (is_some-Extends old new (pseg n) k.extends (w.compiled (rw (← k.named) p)));
  }

  add_link-KeptLinks :
      (ls : Links H) (new : Cache) (ls' : Links H)
      → AreWell old e d ls
      → add_link s d go ls ≡ some (new, ls')
      → KeptLinks compile old s e d ls new ls'
  unfolding add_link IsWell find_link
  add_link-KeptLinks nil new ls' w made = elim (Option-cases (go (node s none 0 (d + 1) nil))) [
    | inl failed ↦ absurd (ground arith)
    | inr ((c, n), there) ↦
        let k = keeps (node s none 0 (d + 1) nil) c n tt there in
        let same_cache : c ≡ new = ground arith in
        let same : cons n nil ≡ ls' = ground arith in
        rw (← same_cache, ← same)
          (record {
            wells = (
              LinkIsWell-Kept (node s none 0 (d + 1) nil) c n
                  (record { deeper = refl; counted = counted; compiled = compiled }) k,
              refl,
              k.well,
              tt,
            );
            extends = k.extends;
            cache_well = k.cache_well;
            absent = λ t other gone. rw (k.named, other) refl;
          })
  ]
  add_link-KeptLinks (cons n ls) new ls' (w, absent, wn, ws) made =
      elim (Bool-cases (text_eq (pseg n) s)) [
        | inl here ↦ elim (Option-cases (go n)) [
          | inl failed ↦ absurd (ground arith)
          | inr ((c, n'), there) ↦
              let k = keeps n c n' wn there in
              let same_cache : c ≡ new = ground arith in
              let same : cons n' ls ≡ ls' = ground arith in
              rw (← same_cache, ← same)
                (record {
                  wells = (
                    LinkIsWell-Kept n c n' w k,
                    rw k.named absent,
                    k.well,
                    AreWell-Extends old c e e d ls k.extends (λ p. p) ws,
                  );
                  extends = k.extends;
                  cache_well = k.cache_well;
                  absent = λ t other gone. ground (arith, k.named);
                })
        ]
        | inr not_here ↦ elim (Option-cases (add_link s d go ls)) [
          | inl failed ↦ absurd (ground arith)
          | inr ((c, ls''), there) ↦
              let k = add_link-KeptLinks ls c ls'' ws there in
              let same_cache : c ≡ new = ground arith in
              let same : cons n ls'' ≡ ls' = ground arith in
              rw (← same_cache, ← same)
                (record {
                  wells = (
                    LinkIsWell-Extends old c e e d n k.extends (λ p. p) w,
                    k.absent (pseg n) (text_eq_sym s (pseg n) ∙ not_here) absent,
                    IsWell-Extends old c n k.extends wn,
                    k.wells,
                  );
                  extends = k.extends;
                  cache_well = k.cache_well;
                  absent = λ t other gone. IsAbsent-later n t ls ls'' gone (k.absent t other);
                })
        ]
      ]

-- The first step of a round: the segment is cached if it is an expression.
pub step-CacheIsWell :
    (compile : Text → Option Regexp) (s : Text) (old mid : Cache)
    → CacheIsWell compile old
    → (if is_pse s then cache_segment compile s old else some old) ≡ some mid
    → CacheIsWell compile mid × Extends old mid × (is_pse s ≡ true → is_some (cached s mid) ≡ true)
step-CacheIsWell compile s old mid w made = elim (Bool-cases (is_pse s)) [
  | inl pse ↦
      let (cw, ext, there) = cache_segment-CacheIsWell compile s old mid pse w (ground arith) in
      (cw, ext, λ p. there)
  | inr literal ↦ let same : old ≡ mid = ground arith in rw (← same) (w, λ t rx e. e, λ p. cc)
]

module _ {H : Type 0} (compile : Text → Option Regexp) (h : H) where
  -- Adding segments below a node keeps the invariant, and all that is cached.
  pub add_at-Kept :
      (ss : List Text) (old : Cache)
      → CacheIsWell compile old
      → Keeps compile old (add_at compile h ss old)
  unfolding add_at IsWell
  add_at-Kept [] old cw (node p hd e d ls) new n' w made =
      let same_cache : old ≡ new = ground arith in
      let same : node p (some h) e d ls ≡ n' = ground arith in
      rw (← same_cache, ← same)
        (record { deeper = refl; named = refl; well = w; extends = λ t rx x. x; cache_well = cw })
  add_at-Kept (s ∷ ss) old cw (node p hd e d ls) new n' w made =
      let e' = if is_pse s then e + 1 else e in
      let counted : is_pse s ≡ true → 0 < e' = λ pse. ground arith in
      let more : 0 < e → 0 < e' = λ pos. ground arith in
      elim (Option-cases (if is_pse s then cache_segment compile s old else some old)) [
        | inl bad ↦ absurd (ground arith)
        | inr (mid, kept) ↦
            let (cw', ext, there) = step-CacheIsWell compile s old mid cw kept in
            elim (Option-cases (add_link s d (add_at compile h ss mid) ls)) [
              | inl bad ↦ absurd (ground arith)
              | inr ((c, ls'), linked) ↦
                  let k =
                    add_link-KeptLinks compile mid s e' d counted there (add_at compile h ss mid)
                      (add_at-Kept ss mid cw') ls c ls'
                      (AreWell-Extends old mid e e' d ls ext more w) linked in
                  let same_cache : c ≡ new = ground arith in
                  let same : node p hd e' d ls' ≡ n' = ground arith in
                  rw (← same_cache, ← same)
                    (record {
                      deeper = refl;
                      named = refl;
                      well = k.wells;
                      extends = λ t rx x. k.extends t rx (ext t rx x);
                      cache_well = k.cache_well;
                    })
            ]
      ]

  -- Adding a route keeps the invariant: the links of a node have different segments and stand one
  -- deeper than the node, a link that is an expression is counted by its node and is in the cache,
  -- and the cache holds only expressions, each with what its segment compiles to.
  pub add_route-RouterIsWell :
      (method path : Text) (r r' : Router H)
      → RouterIsWell compile r
      → add_route compile method path h r ≡ some r'
      → RouterIsWell compile r'
  unfolding add_route
  add_route-RouterIsWell method path r r' (cw, w, top) made =
      elim (Option-cases (add_at compile h (route_segments method path) r.cache r.root)) [
        | inl bad ↦ absurd (ground arith)
        | inr ((c, n), there) ↦
            let k = add_at-Kept (route_segments method path) r.cache cw r.root c n w there in
            let same : record { root = n; methods = add_method method r.methods; cache = c } ≡ r' =
              ground arith in
            rw (← same) (k.cache_well, k.well, k.deeper ∙ top)
      ]
