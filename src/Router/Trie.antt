-- ===== src/Router/Trie.antt =====
-- The trie of router.go and `AddRoute`. The global cache of compiled expressions is a part of the
-- router's state. `none` is the panic of an expression that does not compile.
use go_relax.Base.{ℕ, ◌+◌, Option, none, some, List, [], ◌∷◌, ◌++◌, ◌==◌, if◌then◌else◌}
use go_relax.Text.{Text, codes, text_eq, contains, join, split, trim_right}
use go_relax.Router.Segment.{Regexp, segment_exp, is_pse}

mutual
  -- pseg, handler, numExp, depth, links
  pub data Node (H : Type 0) : Type 0 where
    node : Text → Option H → ℕ → ℕ → Links H → Node H

  pub data Links (H : Type 0) : Type 0 where
    nil : Links H
    cons : Node H → Links H → Links H

abbrev pub Cache : Type 0
Cache = List (Text × Regexp)

pub record Router (H : Type 0) : Type 0 where
  pub root : Node H
  pub methods : List Text
  pub cache : Cache

module _ {H : Type 0} where
  abbrev pub pseg : Node H → Text
  pseg (node p h e d ls) = p

  abbrev pub handler : Node H → Option H
  handler (node p h e d ls) = h

  abbrev pub num_exp : Node H → ℕ
  num_exp (node p h e d ls) = e

  abbrev pub depth : Node H → ℕ
  depth (node p h e d ls) = d

  abbrev pub links : Node H → Links H
  links (node p h e d ls) = ls

  unfoldable pub find_link : Text → Links H → Option (Node H)
  find_link s nil = none
  find_link s (cons n ls) = if text_eq (pseg n) s then some n else find_link s ls

unfoldable pub cached : Text → Cache → Option Regexp
cached s [] = none
cached s ((p, rx) ∷ cache) = if text_eq p s then some rx else cached s cache

infixl 5 ◌>>=◌
abbrev pub ◌>>=◌ {ℓ κ} : {A : Type ℓ} {B : Type κ} → Option A → (A → Option B) → Option B
none >>= k = none
some a >>= k = k a

-- method + path, without the slashes at its end, cut at the slashes
unfoldable pub route_segments : Text → Text → List Text
unfolding split trim_right
route_segments method path = split (method ++ trim_right (λ c. c == b'/') path) b'/'

module _ (compile : Text → Option Regexp) where
  -- An expression that is not yet cached is compiled.
  unfoldable pub cache_segment : Text → Cache → Option Cache
  cache_segment s cache = elim (cached s cache) [
    | some rx ↦ some cache
    | none ↦ do rx ← segment_exp compile s; some ((s, rx) ∷ cache)
  ]

-- The method joins the list unless the joined list contains it as a text.
unfoldable pub add_method : Text → List Text → List Text
unfolding codes
add_method method methods =
    if contains (join methods (codes ",")) method then methods else methods ++ method ∷ []

module _ {H : Type 0} where
  -- The link for a segment goes on by `go`; where there is none, it is made and appended.
  unfoldable pub add_link :
      Text → ℕ → (Node H → Option (Cache × Node H)) → Links H → Option (Cache × Links H)
  add_link s d go nil = do (cache, n) ← go (node s none 0 (d + 1) nil); some (cache, cons n nil)
  add_link s d go (cons n ls) =
      let here : Option (Cache × Links H) = (do (cache, n') ← go n; some (cache, cons n' ls)) in
      let there : Option (Cache × Links H) = (do
        (cache, ls') ← add_link s d go ls
        some (cache, cons n ls')) in
      if text_eq (pseg n) s then here else there

  -- The walk of `AddRoute` over the segments.
  unfoldable pub add_at :
      (Text → Option Regexp) → H → List Text → Cache → Node H → Option (Cache × Node H)
  add_at compile h [] cache (node p hd e d ls) = some (cache, node p (some h) e d ls)
  add_at compile h (s ∷ ss) cache (node p hd e d ls) = do
    cache' ← (if is_pse s then cache_segment compile s cache else some cache)
    (cache'', ls') ← add_link s d (add_at compile h ss cache') ls
    some (cache'', node p hd (if is_pse s then e + 1 else e) d ls')

  unfoldable pub add_route : (Text → Option Regexp) → Text → Text → H → Router H → Option (Router H)
  unfolding add_at
  add_route compile method path h r = do
    (cache, root) ← add_at compile h (route_segments method path) r.cache r.root
    some (record { root = root; methods = add_method method r.methods; cache = cache })

  unfoldable pub new_router : Cache → Router H
  new_router cache = record { root = node [] none 0 0 nil; methods = []; cache = cache }
