-- ===== src/Router/Sound.antt =====
-- What `FindHandler` of router.go returns: the handler at the end of a walk down the trie, and which
-- of its two errors.
use go_relax.Base.{
  subst, ◌==◌, ℕ, suc, ◌<◌, true, false, ◌&&◌, Option, none, some, List, [], ◌∷◌, ◌≡◌, ◌⊎◌, inl,
  inr, ap, ◌∙◌, Bool-cases, Option-cases, arith, length, ltb,
}
use go_relax.Text.{Text, text_eq}
use go_relax.Text.Laws.{text_eq_iff}
use go_relax.Context.{Values}
use go_relax.Router.Segment.{Regexp}
use go_relax.Router.Trie.{
  Node, Links, nil, cons, Cache, Router, pseg, depth, handler, num_exp, links, find_link, cached,
}
use go_relax.Router.Find.{
  head_of, found, whole_match, no_links, match_links, match_segment, find_from, find_handler,
}
use go_relax.Router.Literal.{served_segments}

-- A node is one of the links.
pub data Linked {H : Type 0} (n : Node H) : Links H → Type 0 where
  first : {ls : Links H} → Linked n (cons n ls)
  later : {m : Node H} {ls : Links H} → Linked n ls → Linked n (cons m ls)

-- A link is taken for a segment: it has the segment as its text, or its expression matches the
-- whole segment, and it does not end before the path does.
pub data Takes {H : Type 0} (cache : Cache) (slen : ℕ) (s : Text) (n : Node H) : Type 0 where
  by_text : pseg n ≡ s → Takes cache slen s n
  by_expression :
      (rx : Regexp) (groups : List Text)
      → cached (pseg n) cache ≡ some rx
      → rx.find s ≡ some (s ∷ groups)
      → 0 < length groups
      → (slen < suc (depth n)) ⊎ (no_links (links n) ≡ false)
      → Takes cache slen s n

-- A walk down the trie along a list of segments.
pub data Walk {H : Type 0} (cache : Cache) (slen : ℕ) : Node H → List Text → Node H → Type 0 where
  arrived : {n : Node H} → Walk cache slen n [] n
  down :
      {n n' m : Node H} {s : Text} {ss : List Text}
      → Linked n' (links n)
      → Takes cache slen s n'
      → Walk cache slen n' ss m
      → Walk cache slen n (s ∷ ss) m

head_test :
    (s : Text) (m : List Text)
    → (ltb 1 (length m) && text_eq (head_of m) s) ≡ true
    → (groups : List Text) × (m ≡ s ∷ groups) × (0 < length groups)
head_test s [] e = absurd (ground arith)
head_test s (x ∷ groups) e =
    (groups, ap (λ y. y ∷ groups) ((text_eq_iff x s).0 (ground arith)), ground arith)

whole_match-find :
    (rx : Regexp) (s : Text) (m : List Text)
    → whole_match rx s ≡ some m
    → (groups : List Text) × (rx.find s ≡ some (s ∷ groups)) × (0 < length groups)
unfolding whole_match
whole_match-find rx s m e = elim (Option-cases (rx.find s)) [
  | inl missing ↦ absurd (ground arith)
  | inr (m', there) ↦
      let (groups, same, some_group) = head_test s m' (ground arith) in
      (groups, there ∙ ap some same, some_group)
]

module _ {H : Type 0} where
  find_link-Linked :
      (s : Text) (ls : Links H) (n : Node H) → find_link s ls ≡ some n → Linked n ls × (pseg n ≡ s)
  unfolding find_link
  find_link-Linked s nil n e = cc
  find_link-Linked s (cons m ls) n e = elim (Bool-cases (text_eq (pseg m) s)) [
    | inl here ↦
        let same : m ≡ n = ground arith in rw (← same) (first, (text_eq_iff (pseg m) s).0 here)
    | inr there ↦ let (l, p) = find_link-Linked s ls n (ground arith) in (later l, p)
  ]

  pass_later :
      {cache : Cache} {s : Text} {slen : ℕ} {ls : Links H} {n : Node H} (k : Node H)
      → Linked n ls × Takes cache slen s n
      → Linked n (cons k ls) × Takes cache slen s n
  pass_later k (l, t) = (later l, t)

  match_links-Takes :
      (cache : Cache) (s : Text) (slen : ℕ) (ls : Links H) (n : Node H) (rx : Regexp)
      (m : List Text)
      → match_links cache s slen ls ≡ some (n, rx, m)
      → Linked n ls × Takes cache slen s n
  unfolding match_links
  match_links-Takes cache s slen nil n rx m e = cc
  match_links-Takes cache s slen (cons k ls) n rx m e =
      let pass = λ (f : match_links cache s slen ls ≡ some (n, rx, m)).
        pass_later k (match_links-Takes cache s slen ls n rx m f) in
      elim (Option-cases (cached (pseg k) cache)) [
        | inl missing ↦ pass (ground arith)
        | inr (rx', there) ↦ elim (Bool-cases (ltb (depth k) slen && no_links (links k))) [
          | inl ends ↦ pass (ground arith)
          | inr goes_on ↦ elim (Option-cases (whole_match rx' s)) [
            | inl missing ↦ pass (ground arith)
            | inr (m', matched) ↦
                let (groups, at, some_group) = whole_match-find rx' s m' matched in
                let same : k ≡ n = ground arith in
                rw (← same) (first, by_expression rx' groups there at some_group (ground arith))
          ]
        ]
      ]

  by_link :
      {cache : Cache} {slen : ℕ} {s : Text} {ls : Links H} (n : Node H)
      → Linked n ls × (pseg n ≡ s)
      → Linked n ls × Takes cache slen s n
  by_link n (l, p) = (l, by_text p)

  pub match_segment-Takes :
      (cache : Cache) (n : Node H) (s : Text) (slen : ℕ) (vs : Option (Option Values)) (n' : Node H)
      → (match_segment cache n s slen vs).0 ≡ some n'
      → Linked n' (links n) × Takes cache slen s n'
  unfolding match_segment
  match_segment-Takes cache n s slen vs n' e =
      let linked = λ (f : find_link s (links n) ≡ some n').
        by_link {cache = cache} {slen = slen} n' (find_link-Linked s (links n) n' f) in
      elim (Bool-cases (num_exp n == 0)) [
        | inl plain ↦ linked (ground arith)
        | inr counted ↦ elim (Option-cases (match_links cache s slen (links n))) [
          | inl missing ↦ linked (ground arith)
          | inr ((k, rx, m), there) ↦
              let same : k ≡ n' = ground arith in
              rw (← same) (match_links-Takes cache s slen (links n) k rx m there)
        ]
      ]

  find_from-none-ne-found :
      (cache : Cache) (slen i : ℕ) (ss : List Text) (vs : Option (Option Values)) (h : H)
      → (find_from cache slen i ss none vs).0 ≡ found h
      → ⊥
  unfolding find_from
  find_from-none-ne-found cache slen i [] vs h e = cc
  find_from-none-ne-found cache slen i (s ∷ ss) vs h e = ground arith

  find_from-Walk :
      (cache : Cache) (slen i : ℕ) (ss : List Text) (n : Node H) (vs : Option (Option Values))
      (h : H)
      → (find_from cache slen i ss (some n) vs).0 ≡ found h
      → (m : Node H) × Walk cache slen n ss m × (handler m ≡ some h)
  unfolding find_from
  find_from-Walk cache slen i [] n vs h e = (n, arrived, ground arith)
  find_from-Walk cache slen i (s ∷ ss) n vs h e =
      let vs' = (match_segment cache n s slen vs).1 in
      elim (Option-cases (match_segment cache n s slen vs).0) [
        | inl missing ↦ absurd (
            find_from-none-ne-found cache slen (suc i) ss vs' h
              (subst (λ x. (find_from cache slen (suc i) ss x vs').0 ≡ found h) missing e))
        | inr (n', there) ↦
            let (linked, takes) = match_segment-Takes cache n s slen vs n' there in
            let (m, walk, served) =
              find_from-Walk cache slen (suc i) ss n' vs' h
                (subst (λ x. (find_from cache slen (suc i) ss x vs').0 ≡ found h) there e) in
            (m, down linked takes walk, served)
      ]

  -- A handler that is found stands at the end of a walk from the root, one link for each segment of
  -- the request: the link has the segment as its text, or its cached expression has a group and
  -- matches the whole segment, and the link does not end before the path does.
  pub find_handler-Walk :
      (r : Router H) (method path : Text) (vs : Option (Option Values)) (h : H)
      → (find_handler r method path vs).0 ≡ found h
      → (m : Node H) × Walk r.cache
          (length (served_segments method path))
          r.root
          (served_segments method path)
          m
        × (handler m ≡ some h)
  unfolding find_handler
  find_handler-Walk r method path vs h e =
      find_from-Walk r.cache (length (served_segments method path)) 0 (served_segments method path)
        r.root vs h e
