-- ===== src/Router/Methods.antt =====
-- `PathMethods` of router.go against `FindHandler`.
use go_relax.Base.{
  ℕ, suc, Bool, false, Option, none, some, List, [], ◌∷◌, ◌++◌, ◌≡◌, refl, inl, inr, ap, sym, ◌∙◌,
  if◌then◌else◌, Bool-cases, Option-cases, arith, All, length, append_assoc, ◌==◌, append-nil,
}
use go_relax.Text.{Text, codes, text_eq, has_byte, split_first, trim_right, keep_cons}
use go_relax.Context.{Values}
use go_relax.Router.Trie.{Node, Cache, Router, links, route_segments}
use go_relax.Router.Find.{
  match_links, match_segment, find_from, find_handler, handler_of, is_served, walk, with_method,
  serves, add_methods, path_methods,
}
use go_relax.Router.Literal.{found_handler}

-- "HEAD", and ", " with each method that passes a test.
allow_from : (Text → Bool) → List Text → Text
allow_from test [] = []
allow_from test (m ∷ ms) = (if test m then codes ", " ++ m else []) ++ allow_from test ms

pub allow_list : (Text → Bool) → List Text → Text
allow_list test ms = codes "HEAD" ++ allow_from test ms

allow_from_same :
    (test other : Text → Bool) (ms : List Text)
    → All (λ m. test m ≡ other m) ms
    → allow_from test ms ≡ allow_from other ms
unfolding allow_from
allow_from_same test other [] _ = refl
allow_from_same test other (m ∷ ms) (same, all) = rw (same, allow_from_same test other ms all) refl

-- Tests that agree on the methods list the same ones.
pub allow_list_same :
    (test other : Text → Bool) (ms : List Text)
    → All (λ m. test m ≡ other m) ms
    → allow_list test ms ≡ allow_list other ms
unfolding allow_list
allow_list_same test other ms all = ap (λ t. codes "HEAD" ++ t) (allow_from_same test other ms all)

-- A method that a route can have: no slash, and not HEAD, which the search replaces by GET.
abbrev pub IsMethod : Text → Type 0
IsMethod m = (has_byte b'/' m ≡ false) × (text_eq m (codes "HEAD") ≡ false)

split_first-append :
    (b : ℕ) (m x : Text)
    → has_byte b m ≡ false
    → split_first b (m ++ x) ≡ (m ++ (split_first b x).0, (split_first b x).1)
unfolding split_first
split_first-append b [] x h = refl
split_first-append b (c ∷ m) x h = ground (arith, split_first-append b m x)

abbrev is_slash : ℕ → Bool
is_slash c = c == b'/'

-- What is left of a path with a slash in front is empty or has one.
split_first-keep : (t : Text) → (split_first b'/' (keep_cons is_slash b'/' t)).0 ≡ []
unfolding split_first
split_first-keep [] = refl
split_first-keep (d ∷ t) = refl

-- The segments of a path do not depend on the method that is written before it.
pub route_segments-method :
    (m p : Text)
    → has_byte b'/' m ≡ false
    → route_segments m (b'/' ∷ p) ≡ m ∷ (split_first b'/' (trim_right is_slash (b'/' ∷ p))).1
unfolding route_segments
route_segments-method m p h =
    let t = trim_right is_slash p in
    ground (
      arith,
      split_first-append b'/' m (keep_cons is_slash b'/' t) h,
      split_first-keep t,
      append-nil m,
    )

with_method-route_segments :
    (m p : Text)
    → has_byte b'/' m ≡ false
    → with_method m (route_segments (codes "*") (b'/' ∷ p)) ≡ route_segments m (b'/' ∷ p)
unfolding codes
with_method-route_segments m p h =
    rw (route_segments-method (codes "*") p refl, route_segments-method m p h)

module _ {H : Type 0} where
  -- The values that are stored do not change what is matched.
  pub match_segment-values :
      (cache : Cache) (n : Node H) (s : Text) (slen : ℕ) (vs : Option (Option Values))
      → (match_segment cache n s slen none).0 ≡ (match_segment cache n s slen vs).0
  unfolding match_segment
  match_segment-values cache n s slen vs =
      elim (Option-cases (match_links cache s slen (links n))) [
        | inl missing ↦ ground arith
        | inr ((n', rx, m), there) ↦ ground arith
      ]

  walk-none : (cache : Cache) (slen : ℕ) (ss : List Text) → walk {H = H} cache slen ss none ≡ none
  unfolding walk
  walk-none cache slen [] = refl
  walk-none cache slen (s ∷ ss) = refl

  walk-find_from :
      (cache : Cache) (slen i : ℕ) (ss : List Text) (n : Option (Node H))
      (vs : Option (Option Values))
      → handler_of (walk cache slen ss n) ≡ found_handler (find_from cache slen i ss n vs).0
  unfolding walk find_from
  walk-find_from cache slen i [] n vs = ground arith
  walk-find_from cache slen i (s ∷ ss) none vs = ground arith
  walk-find_from cache slen i (s ∷ ss) (some n) vs =
      let (n', vs') = match_segment cache n s slen vs in
      rw (match_segment-values cache n s slen vs) (walk-find_from cache slen (suc i) ss n' vs')

  serves-find_handler :
      (r : Router H) (m p : Text) (vs : Option (Option Values))
      → IsMethod m
      → serves r (b'/' ∷ p) m ≡ is_served (found_handler (find_handler r m (b'/' ∷ p) vs).0)
  unfolding serves find_handler
  serves-find_handler r m p vs (slash, head) =
      rw (with_method-route_segments m p slash, head)
        (ap is_served (
          walk-find_from r.cache (length (route_segments m (b'/' ∷ p))) 0
            (route_segments m (b'/' ∷ p)) (some r.root) vs))

  add_methods-allow_from :
      (r : Router H) (p : Text) (vs : Option (Option Values)) (ms : List Text) (out : Text)
      → All IsMethod ms
      → add_methods r (b'/' ∷ p) ms out
        ≡ out ++ allow_from (λ m. is_served (found_handler (find_handler r m (b'/' ∷ p) vs).0)) ms
  unfolding add_methods allow_from
  add_methods-allow_from r p vs [] out _ = sym (append-nil out)
  add_methods-allow_from r p vs (m ∷ ms) out (is, are) =
      let known = serves-find_handler r m p vs is in
      let later = λ (o : Text). add_methods-allow_from r p vs ms o are in
      elim (Bool-cases (serves r (b'/' ∷ p) m)) [
        | inl served ↦
            rw (served, ← known, served) (later (out ++ codes ", " ++ m) ∙ simp append_assoc)
        | inr not_served ↦ rw (not_served, ← known, not_served) (later out)
      ]

  -- For a path that begins with a slash, where no method of the router is HEAD or has a slash, the
  -- list of methods is HEAD, and of the methods of the router,
  -- in their order, exactly those with which the search finds a handler for the path.
  pub path_methods-find_handler :
      (r : Router H) (p : Text) (vs : Option (Option Values))
      → All IsMethod r.methods
      → path_methods r (b'/' ∷ p)
        ≡ allow_list (λ m. is_served (found_handler (find_handler r m (b'/' ∷ p) vs).0)) r.methods
  unfolding path_methods allow_list
  path_methods-find_handler r p vs are = add_methods-allow_from r p vs r.methods (codes "HEAD") are
