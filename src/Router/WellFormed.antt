-- ===== src/Router/WellFormed.antt =====
-- The invariant of the trie and the cache of router.go, kept by `AddRoute`, and what it buys: the
-- test of `numExp` in `matchSegment` is only a shortcut.
use go_relax.Base.{
  ℕ, ◌+◌, ◌<◌, true, Option, none, some, ◌≡◌, refl, inl, inr, Option-cases, arith, is_some,
}
use go_relax.Text.{Text}
use go_relax.Router.Segment.{Regexp, segment_exp, is_pse}
use go_relax.Router.Trie.{
  Node, Links, node, nil, cons, Cache, Router, pseg, depth, find_link, cached,
}

-- A link at depth `d`: an expression is counted by its node, and is in the cache.
pub record LinkIsWell {H : Type 0} (cache : Cache) (e d : ℕ) (n : Node H) : Type 0 where
  pub deeper : depth n ≡ d + 1
  pub counted : is_pse (pseg n) ≡ true → 0 < e
  pub compiled : is_pse (pseg n) ≡ true → is_some (cached (pseg n) cache) ≡ true

abbrev pub IsAbsent : {H : Type 0} → Text → Links H → Type 0
IsAbsent s ls = find_link s ls ≡ none

-- The segments of the links of a node differ.
unfoldable mutual
  pub IsWell : {H : Type 0} → Cache → Node H → Type 0
  IsWell cache (node p h e d ls) = AreWell cache e d ls

  pub AreWell : {H : Type 0} → Cache → ℕ → ℕ → Links H → Type 0
  AreWell cache e d nil = Unit
  AreWell cache e d (cons n ls) =
      LinkIsWell cache e d n × IsAbsent (pseg n) ls × IsWell cache n × AreWell cache e d ls

-- The cache holds only expressions, each with what its segment compiles to.
abbrev pub CacheIsWell : (Text → Option Regexp) → Cache → Type 0
CacheIsWell compile cache =
    (s : Text) (rx : Regexp)
    → cached s cache ≡ some rx
    → (is_pse s ≡ true) × (segment_exp compile s ≡ some rx)

abbrev pub RouterIsWell : {H : Type 0} → (Text → Option Regexp) → Router H → Type 0
RouterIsWell compile r = CacheIsWell compile r.cache × IsWell r.cache r.root × (depth r.root ≡ 0)

-- What is cached stays cached.
abbrev pub Extends : Cache → Cache → Type 0
Extends old new = (s : Text) (rx : Regexp) → cached s old ≡ some rx → cached s new ≡ some rx

pub is_some-Extends :
    (old new : Cache) (s : Text)
    → Extends old new
    → is_some (cached s old) ≡ true
    → is_some (cached s new) ≡ true
is_some-Extends old new s ext h = elim (Option-cases (cached s old)) [
  | inl missing ↦ ground arith
  | inr (rx, there) ↦ rw (ext s rx there) refl
]

pub LinkIsWell-Extends :
    {H : Type 0} (old new : Cache) (e e' d : ℕ) (n : Node H)
    → Extends old new
    → (0 < e → 0 < e')
    → LinkIsWell old e d n
    → LinkIsWell new e' d n
LinkIsWell-Extends old new e e' d n ext more w = record {
  deeper = w.deeper;
  counted = λ p. more (w.counted p);
  compiled = λ p. is_some-Extends old new (pseg n) ext (w.compiled p);
}

mutual
  unfolding IsWell

  pub IsWell-Extends :
      {H : Type 0} (old new : Cache) (n : Node H) → Extends old new → IsWell old n → IsWell new n
  IsWell-Extends old new (node p h e d ls) ext w = AreWell-Extends old new e e d ls ext (λ p. p) w

  pub AreWell-Extends :
      {H : Type 0} (old new : Cache) (e e' d : ℕ) (ls : Links H)
      → Extends old new
      → (0 < e → 0 < e')
      → AreWell old e d ls
      → AreWell new e' d ls
  AreWell-Extends old new e e' d nil ext more w = tt
  AreWell-Extends old new e e' d (cons n ls) ext more (w, absent, wn, ws) = (
    LinkIsWell-Extends old new e e' d n ext more w,
    absent,
    IsWell-Extends old new n ext wn,
    AreWell-Extends old new e e' d ls ext more ws,
  )
