-- ===== src/Router/Find.antt =====
-- `matchSegment`, `FindHandler` and `PathMethods` of router.go.
use go_relax.Base.{
  ℕ, suc, ◌+◌, ◌/◌, Bool, true, false, ◌&&◌, Option, none, some, List, [], ◌∷◌, ◌++◌, ltb, leb,
  ◌==◌, if◌then◌else◌, length, get_or,
}
use go_relax.Text.{Text, codes, text_eq, is_empty, itoa}
use go_relax.Context.{Values}
use go_relax.Router.Segment.{Regexp}
use go_relax.Router.Trie.{
  Node, Links, nil, cons, Cache, Router, pseg, handler, num_exp, depth, links, find_link, cached,
  route_segments,
}

-- url.Values: Set and Add
unfoldable pub values_set : Text → Text → Values → Values
unfolding text_eq
values_set key v [] = (key, v ∷ []) ∷ []
values_set key v ((k, vs) ∷ more) =
    if text_eq k key then (k, v ∷ []) ∷ more else (k, vs) ∷ values_set key v more

unfoldable pub values_add : Text → Text → Values → Values
unfolding text_eq
values_add key v [] = (key, v ∷ []) ∷ []
values_add key v ((k, vs) ∷ more) =
    if text_eq k key then (k, vs ++ v ∷ []) ∷ more else (k, vs) ∷ values_add key v more

-- The loop over the groups: group i is stored as "_{n + i}", and under its name if it has one.
unfoldable pub store_groups : ℕ → List Text → List Text → Values → Values
unfolding values_set values_add codes itoa
store_groups k [] names vs = vs
store_groups k (m ∷ ms) [] vs = vs
store_groups k (m ∷ ms) (name ∷ names) vs =
    let indexed = values_set (codes "_" ++ itoa k) m vs in
    store_groups (suc k) ms names (if is_empty name then indexed else values_add name m indexed)

abbrev pub rest_of {ℓ} : {A : Type ℓ} → List A → List A
rest_of [] = []
rest_of (x ∷ xs) = xs

abbrev pub head_of : List Text → Text
head_of [] = []
head_of (x ∷ xs) = x

-- The values behind a pointer; the outer `none` is the nil pointer, the inner one the nil map.
unfoldable pub store_match : Regexp → List Text → Option (Option Values) → Option (Option Values)
unfolding store_groups
store_match rx m none = none
store_match rx m (some old) =
    let vs = get_or old [] in
    some (some (store_groups (length vs / 2 + 1) (rest_of m) (rest_of rx.names) vs))

-- The groups, if the expression has a group and matches the whole segment.
unfoldable pub whole_match : Regexp → Text → Option (List Text)
unfolding text_eq
whole_match rx s = elim (rx.find s) [
  | none ↦ none
  | some m ↦ if ltb 1 (length m) && text_eq (head_of m) s then some m else none
]

pub data Found (A : Type 0) : Type 0 where
  found : A → Found A
  route_not_found : Found A
  route_bad_method : Found A

-- pseg[0] = method, for the segments of "*" + path
abbrev pub with_method : Text → List Text → List Text
with_method m [] = m ∷ []
with_method m (s ∷ ss) = m ∷ ss

module _ {H : Type 0} where
  abbrev pub no_links : Links H → Bool
  no_links nil = true
  no_links (cons n ls) = false

  -- The first link whose expression matches; links that end before the path does are passed over.
  unfoldable pub match_links : Cache → Text → ℕ → Links H → Option (Node H × Regexp × List Text)
  unfolding whole_match cached
  match_links cache s slen nil = none
  match_links cache s slen (cons n ls) =
      let later = match_links cache s slen ls in
      elim (cached (pseg n) cache) [
        | none ↦ later
        | some rx ↦
            if ltb (depth n) slen && no_links (links n)
            then later
            else elim (whole_match rx s) [ none ↦ later | some m ↦ some (n, rx, m) ]
      ]

  unfoldable pub match_segment :
      Cache → Node H → Text → ℕ → Option (Option Values) → Option (Node H) × Option (Option Values)
  unfolding match_links find_link store_match
  match_segment cache n s slen vs =
      if num_exp n == 0
      then (find_link s (links n), vs)
      else elim (match_links cache s slen (links n)) [
        | some (n', rx, m) ↦ (some n', store_match rx m vs)
        | none ↦ (find_link s (links n), vs)
      ]

  abbrev pub handler_of : Option (Node H) → Option H
  handler_of none = none
  handler_of (some n) = handler n

  abbrev pub as_found : Option H → Found H
  as_found none = route_not_found
  as_found (some h) = found h

  -- The loop of `FindHandler`: `i` counts the segments that are done.
  unfoldable pub find_from :
      Cache
      → ℕ
      → ℕ
      → List Text
      → Option (Node H)
      → Option (Option Values)
      → Found H × Option (Option Values)
  find_from cache slen i [] n vs = (as_found (handler_of n), vs)
  find_from cache slen i (s ∷ ss) none vs =
      (if leb i 1 then route_bad_method else route_not_found, vs)
  find_from cache slen i (s ∷ ss) (some n) vs =
      let (n', vs') = match_segment cache n s slen vs in find_from cache slen (suc i) ss n' vs'

  -- FindHandler: HEAD is served by GET.
  unfoldable pub find_handler :
      Router H → Text → Text → Option (Option Values) → Found H × Option (Option Values)
  unfolding codes text_eq
  find_handler r method path vs =
      let segs =
        route_segments (if text_eq method (codes "HEAD") then codes "GET" else method) path in
      find_from r.cache (length segs) 0 segs (some r.root) vs

  -- The walk of `PathMethods`; a missing node stays missing.
  unfoldable pub walk : Cache → ℕ → List Text → Option (Node H) → Option (Node H)
  walk cache slen [] n = n
  walk cache slen (s ∷ ss) none = none
  walk cache slen (s ∷ ss) (some n) = walk cache slen ss (match_segment cache n s slen none).0

  abbrev pub is_served : Option H → Bool
  is_served none = false
  is_served (some h) = true

  unfoldable pub serves : Router H → Text → Text → Bool
  unfolding codes
  serves r path m =
      let segs = with_method m (route_segments (codes "*") path) in
      is_served (handler_of (walk r.cache (length segs) segs (some r.root)))

  -- PathMethods
  unfoldable pub add_methods : Router H → Text → List Text → Text → Text
  unfolding codes
  add_methods r path [] out = out
  add_methods r path (m ∷ ms) out =
      add_methods r path ms (if serves r path m then out ++ codes ", " ++ m else out)

  unfoldable pub path_methods : Router H → Text → Text
  unfolding codes
  path_methods r path = add_methods r path r.methods (codes "HEAD")
