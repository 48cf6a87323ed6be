-- ===== src/Router/PathValues.antt =====
-- The values of a path that `FindHandler` of router.go stores.
use go_relax.Base.{
  ℕ, suc, ◌+◌, ◌/◌, Option, none, some, List, [], ◌∷◌, ◌++◌, ◌≡◌, refl, sym, subst, ap, ◌∙◌,
  append_assoc, append-nil, All, length, length-append, arith, ◌==◌, if◌then◌else◌, get_or, inl,
  inr, Bool-cases, Option-cases,
}
use go_relax.Text.{Text, codes, itoa, text_eq}
use go_relax.Context.{Values}
use go_relax.Router.Segment.{Regexp}
use go_relax.Router.Trie.{Node, Cache, Router, num_exp, links, find_link}
use go_relax.Router.Find.{
  rest_of, values_set, store_groups, store_match, match_links, match_segment, find_from,
  find_handler,
}
use go_relax.Router.Literal.{served_segments}
use go_relax.Router.Groups.Entries.{
  All-split, AreDistinct-append, entries-numbers, entries-AreApart, entries-append, entries-length,
}
use go_relax.Router.Groups.{index, entries, IsName, AreDistinct, store_groups-entries}

abbrev pub Match : Type 0
Match = Regexp × List Text

-- The names and the groups of matches, in their order, without those of the whole expressions.
unfoldable pub names_of : List Match → List Text
names_of [] = []
names_of ((rx, m) ∷ ms) = rest_of rx.names ++ names_of ms

unfoldable pub groups_of : List Match → List Text
groups_of [] = []
groups_of ((rx, m) ∷ ms) = rest_of m ++ groups_of ms

-- As many names as groups.
abbrev pub IsNamed : Match → Type 0
IsNamed (rx, m) = length (rest_of rx.names) ≡ length (rest_of m)

store_all : List Match → Option (Option Values) → Option (Option Values)
store_all [] vs = vs
store_all ((rx, m) ∷ ms) vs = store_all ms (store_match rx m vs)

-- The link that is taken for a segment, with the match of its expression, if it was taken by that.
unfoldable pub step_of : {H : Type 0} → Cache → ℕ → Node H → Text → Option (Node H) × List Match
step_of cache slen n t =
    if num_exp n == 0
    then (find_link t (links n), [])
    else elim (match_links cache t slen (links n)) [
      | none ↦ (find_link t (links n), [])
      | some (n', rx, m) ↦ (some n', (rx, m) ∷ [])
    ]

-- The matches of a search, in their order.
unfoldable pub trail_of : {H : Type 0} → Cache → ℕ → List Text → Option (Node H) → List Match
unfolding step_of
trail_of cache slen [] n = []
trail_of cache slen (t ∷ ts) none = []
trail_of cache slen (t ∷ ts) (some n) =
    let (n', ms) = step_of cache slen n t in ms ++ trail_of cache slen ts n'

store_all-append :
    (ms ns : List Match) (vs : Option (Option Values))
    → store_all (ms ++ ns) vs ≡ store_all ns (store_all ms vs)
unfolding store_all
store_all-append [] ns vs = refl
store_all-append ((rx, m) ∷ ms) ns vs = store_all-append ms ns (store_match rx m vs)

match_segment-step_of :
    {H : Type 0} (cache : Cache) (slen : ℕ) (n : Node H) (t : Text) (vs : Option (Option Values))
    → match_segment cache n t slen vs
      ≡ ((step_of cache slen n t).0, store_all (step_of cache slen n t).1 vs)
unfolding match_segment step_of store_all
match_segment-step_of cache slen n t vs = elim (Bool-cases (num_exp n == 0)) [
  | inl uncounted ↦ rw uncounted refl
  | inr counted ↦ elim (Option-cases (match_links cache t slen (links n))) [
    | inl missing ↦ rw (counted, missing) refl
    | inr ((n', rx, m), there) ↦ rw (counted, there) refl
  ]
]

find_from-store_all :
    {H : Type 0} (cache : Cache) (slen i : ℕ) (ts : List Text) (n : Option (Node H))
    (vs : Option (Option Values))
    → (find_from cache slen i ts n vs).1 ≡ store_all (trail_of cache slen ts n) vs
unfolding find_from trail_of
find_from-store_all cache slen i [] n vs = unfold store_all in refl
find_from-store_all cache slen i (t ∷ ts) none vs = unfold store_all in refl
find_from-store_all cache slen i (t ∷ ts) (some n) vs =
    let (n', ms) = step_of cache slen n t in
    ap
      (λ (x : Option (Node _) × Option (Option Values)).
        (find_from cache slen (suc i) ts x.0 x.1).1)
      (match_segment-step_of cache slen n t vs)
    ∙ find_from-store_all cache slen (suc i) ts n' (store_all ms vs)
    ∙ sym (store_all-append ms (trail_of cache slen ts n') vs)

store_match-entries :
    (rx : Regexp) (m gs ns : List Text) (o : Option Values)
    → IsNamed (rx, m)
    → length ns ≡ length gs
    → All IsName (ns ++ rest_of rx.names)
    → AreDistinct (ns ++ rest_of rx.names)
    → get_or o [] ≡ entries 1 gs ns
    → store_match rx m (some o) ≡ some (some (entries 1 (gs ++ rest_of m) (ns ++ rest_of rx.names)))
unfolding store_match
store_match-entries rx m gs ns o named len are_names distinct start =
    let names = rest_of rx.names in
    let (old_names, new_names) = All-split IsName ns names are_names in
    let (_, new_distinct, apart) = AreDistinct-append ns names distinct in
    let number : length (entries 1 gs ns) / 2 + 1 ≡ 1 + length gs =
      omega (arith, entries-length 1 gs ns len) in
    let stored =
      store_groups-entries (1 + length gs) (rest_of m) names (entries 1 gs ns) new_names
        new_distinct
        (record {
          numbers = λ j above. entries-numbers j 1 gs ns len old_names above;
          unused = entries-AreApart 1 gs ns names new_names apart;
        }) in
    rw (start, number)
      (ap (λ (v : Values). some (some v))
        (stored ∙ sym (entries-append 1 gs (rest_of m) ns names len)))

store_all-entries :
    (ms : List Match) (gs ns : List Text) (o : Option Values)
    → All IsNamed ms
    → length ns ≡ length gs
    → All IsName (ns ++ names_of ms)
    → AreDistinct (ns ++ names_of ms)
    → get_or o [] ≡ entries 1 gs ns
    → (o' : Option Values) × (store_all ms (some o) ≡ some o')
      × (get_or o' [] ≡ entries 1 (gs ++ groups_of ms) (ns ++ names_of ms))
unfolding store_all names_of groups_of
store_all-entries [] gs ns o named len are_names distinct start =
    (o, refl, rw (append-nil gs, append-nil ns) start)
store_all-entries ((rx, m) ∷ ms) gs ns o (named, all_named) len are_names distinct start =
    let names = rest_of rx.names in
    let regroup = sym (append_assoc ns names (names_of ms)) in
    let are_names' = subst (λ x. All IsName x) regroup are_names in
    let distinct' = subst (λ x. AreDistinct x) regroup distinct in
    let stored =
      store_match-entries rx m gs ns o named len
        (All-split IsName (ns ++ names) (names_of ms) are_names').0
        (AreDistinct-append (ns ++ names) (names_of ms) distinct').0 start in
    let (o', all_stored, result) =
      store_all-entries ms (gs ++ rest_of m) (ns ++ names)
        (some (entries 1 (gs ++ rest_of m) (ns ++ names))) all_named
        (omega (arith, length-append ns names, length-append gs (rest_of m))) are_names' distinct'
        refl in
    (
      o',
      rw stored all_stored,
      result
          ∙ ap (λ x. entries 1 x ((ns ++ names) ++ names_of ms))
              (append_assoc gs (rest_of m) (groups_of ms))
          ∙ ap (λ x. entries 1 (gs ++ (rest_of m ++ groups_of ms)) x)
              (append_assoc ns names (names_of ms)),
    )

-- The matches of the search for a request.
abbrev pub trail : {H : Type 0} → Router H → Text → Text → List Match
trail r method path =
    let ts = served_segments method path in trail_of r.cache (length ts) ts (some r.root)

-- If each group of the expressions that a search has matched has a name, none of which is empty or
-- begins with "_", and all of which differ, the values of a request that had none are these, in the
-- order of the path: each group under its number, counted from 1 over the whole path, and under its
-- name.
pub find_handler-entries :
    {H : Type 0} (r : Router H) (method path : Text)
    → All IsNamed (trail r method path)
    → All IsName (names_of (trail r method path))
    → AreDistinct (names_of (trail r method path))
    → (vs : Option Values) × ((find_handler r method path (some none)).1 ≡ some vs)
      × (get_or vs []
          ≡ entries 1 (groups_of (trail r method path)) (names_of (trail r method path)))
unfolding find_handler entries
find_handler-entries r method path named are_names distinct =
    let ts = served_segments method path in
    let (vs, stored, result) =
      store_all-entries (trail r method path) [] [] none named (omega arith) are_names distinct
        refl in
    (vs, find_from-store_all r.cache (length ts) 0 ts (some r.root) (some none) ∙ stored, result)

-- Where the one group of each of two expressions has no name, the number of the second one is that of
-- the first one, whose value is lost.
pub store_match_unnamed :
    (rx rx' : Regexp) (whole whole' t t' : Text)
    → rx.names ≡ [] ∷ [] ∷ []
    → rx'.names ≡ [] ∷ [] ∷ []
    → store_match rx' (whole' ∷ t' ∷ []) (store_match rx (whole ∷ t ∷ []) (some none))
      ≡ some (some ((index 1, t' ∷ []) ∷ []))
unfolding store_match store_groups values_set text_eq codes itoa
store_match_unnamed rx rx' whole whole' t t' unnamed unnamed' = rw (unnamed, unnamed') refl
