-- ===== src/Tests/RouterRuns.antt =====
-- The router on the routes of router_test.go, with a small engine in place of package regexp.
use go_relax.Base.{
  String, ℕ, Bool, true, ◌&&◌, ◌||◌, Option, none, some, [], ◌∷◌, ◌≡◌, refl, if◌then◌else◌,
}
use go_relax.Text.{Text, codes, contains, is_digit, is_upper, is_lower}
use go_relax.Router.Segment.{Regexp, segment_exp, is_pse}
use go_relax.Router.Trie.{
  Router, add_route, new_router, route_segments, cache_segment, add_link, ◌>>=◌,
}
use go_relax.Router.Find.{
  Found, found, route_not_found, route_bad_method, find_handler, find_from, match_segment,
  path_methods, add_methods, serves, walk,
}

-- One group for the whole segment: digits, or letters and digits.
abbrev pub all_bytes : (ℕ → Bool) → Text → Bool
all_bytes test [] = true
all_bytes test (c ∷ s) = test c && all_bytes test s

abbrev pub one_group : (ℕ → Bool) → Regexp
one_group test = record {
  names = [] ∷ codes "v" ∷ [];
  find = λ s. if all_bytes test s then some (s ∷ s ∷ []) else none;
}

abbrev pub engine : Text → Option Regexp
engine p = some (
    if contains p (codes "\\d")
    then one_group is_digit
    else one_group (λ c. is_digit c || is_upper c || is_lower c))

abbrev pub get_posts : String → ℕ → Option (Router ℕ) → Option (Router ℕ)
get_posts path h r = do r' ← r; add_route engine (codes "GET") (codes path) h r'

abbrev pub posts : Option (Router ℕ)
posts = get_posts "/posts/{word:tag}/{uint:uid}" 5 (
    get_posts "/posts/{word:tag}" 4 (
      get_posts "/posts/{uint:id}/links" 3
        (get_posts "/posts/{uint:id}" 2 (get_posts "/posts" 1 (some (new_router []))))))

abbrev ask : String → String → Option (Found ℕ)
ask method path = do r ← posts; some (find_handler r (codes method) (codes path) none).0

unfoldable pub router : Unit {0}
unfolding codes contains add_route cache_segment add_link new_router find_handler find_from
    match_segment route_segments segment_exp is_pse path_methods add_methods serves walk
router = tt

requests :
    (ask "GET" "/posts" ≡ some (found 1))
    × (ask "GET" "/posts/123" ≡ some (found 2))
    × (ask "GET" "/posts/444/links" ≡ some (found 3))
    × (ask "GET" "/posts/something" ≡ some (found 4))
    × (ask "GET" "/posts/tagged/666" ≡ some (found 5))
    × (ask "HEAD" "/posts/" ≡ some (found 1))
    × (ask "PUT" "/posts" ≡ some route_bad_method)
    × (ask "GET" "/users" ≡ some route_not_found)
unfolding router
requests = (refl, refl, refl, refl, refl, refl, refl, refl)

-- The search does not go back: the first link whose expression matches "444" has no link for "666".
no_backtracking : ask "GET" "/posts/444/666" ≡ some route_not_found
unfolding router
no_backtracking = refl
