-- ===== src/Tests/RouterLaws.antt =====
-- The theorems on the router of router.go at concrete routers and requests.
use go_relax.Base.{
  List, inl, inr, arith, ◌↔◌, ℕ, Option, none, some, [], ◌∷◌, ◌≡◌, refl, get_or, All, length,
  if◌then◌else◌,
}
use go_relax.Text.{Text, codes, is_digit}
use go_relax.Context.{Values}
use go_relax.Router.Trie.{
  Router, Node, node, handler, cached, add_method, cons, nil, add_route, new_router, route_segments,
}
use go_relax.Router.Find.{
  is_served, found, route_bad_method, find_handler, match_segment, path_methods,
}
use go_relax.Router.Lookup.{segments_eq}
use go_relax.Router.Literal.{
  found_handler, IsPlain, AreLiteral, served_segments, find_handler-add_route,
}
use go_relax.Router.Methods.{IsMethod, allow_list, path_methods-find_handler}
use go_relax.Router.Sound.{Walk, find_handler-Walk}
use go_relax.Router.BadMethod.{IsBadMethod, find_handler-IsBadMethod_iff}
use go_relax.Router.WellFormed.{IsWell, RouterIsWell}
use go_relax.Router.Insertion.{add_route-RouterIsWell}
use go_relax.Router.Complete.{IsForced, IsForced-nil, IsForced-cons}
use go_relax.Router.Reached.{AllFit, find_handler_fits}
use go_relax.Router.Shortcut.{match_unguarded, match_segment-match_unguarded}
use go_relax.Tests.RouterRuns.{engine, one_group, get_posts, posts, router}

abbrev pub empty : Router ℕ
empty = new_router []

abbrev served : Router ℕ
served = get_or posts empty

abbrev pub one_route : Router ℕ
one_route = get_or (get_posts "/posts/{uint:id}" 2 (some empty)) empty

empty-IsPlain : IsPlain empty.root
unfolding router IsPlain
empty-IsPlain = (refl, tt)

posts-AreLiteral : AreLiteral (route_segments (codes "GET") (codes "/posts"))
unfolding router
posts-AreLiteral = (refl, (refl, tt))

find_handler-add_route_example :
    (r' : Router ℕ) × (add_route engine (codes "GET") (codes "/posts") 1 empty ≡ some r')
    × IsPlain r'.root
    × ((m p : Text) (vs : Option (Option Values))
        → found_handler (find_handler r' m p vs).0 ≡ (
            if segments_eq (route_segments (codes "GET") (codes "/posts")) (served_segments m p)
            then some 1
            else found_handler (find_handler empty m p vs).0))
find_handler-add_route_example =
    find_handler-add_route engine (codes "GET") (codes "/posts") 1 empty empty-IsPlain
      posts-AreLiteral

served_found : (find_handler served (codes "GET") (codes "/posts/123") none).0 ≡ found 2
unfolding router
served_found = refl

find_handler-Walk_example :
    (m : Node ℕ) × Walk served.cache
      (length (served_segments (codes "GET") (codes "/posts/123")))
      served.root
      (served_segments (codes "GET") (codes "/posts/123"))
      m
    × (handler m ≡ some 2)
find_handler-Walk_example =
    find_handler-Walk served (codes "GET") (codes "/posts/123") none 2 served_found

find_handler-IsBadMethod_iff_example :
    ((find_handler served (codes "PUT") (codes "/posts") none).0 ≡ route_bad_method)
    ↔ IsBadMethod served (served_segments (codes "PUT") (codes "/posts"))
find_handler-IsBadMethod_iff_example =
    find_handler-IsBadMethod_iff served (codes "PUT") (codes "/posts") none

served_methods : All IsMethod served.methods
unfolding router add_method
served_methods = ((refl, refl), tt)

path_methods-find_handler_example :
    path_methods served (codes "/posts")
    ≡ allow_list
        (λ m. is_served (found_handler (find_handler served m (codes "/posts") none).0))
        served.methods
unfolding codes
path_methods-find_handler_example =
    path_methods-find_handler served (codes "posts") none served_methods

empty-RouterIsWell : RouterIsWell engine empty
unfolding router IsWell cached
empty-RouterIsWell = (λ s rx e. absurd cc, tt, refl)

one_route_made : add_route engine (codes "GET") (codes "/posts/{uint:id}") 2 empty ≡ some one_route
unfolding router
one_route_made = refl

pub one_route-RouterIsWell : RouterIsWell engine one_route
one_route-RouterIsWell =
    add_route-RouterIsWell engine 2 (codes "GET") (codes "/posts/{uint:id}") empty one_route
      empty-RouterIsWell one_route_made

add_route-RouterIsWell_example : RouterIsWell engine one_route
add_route-RouterIsWell_example =
    add_route-RouterIsWell engine 2 (codes "GET") (codes "/posts/{uint:id}") empty one_route
      empty-RouterIsWell one_route_made

abbrev posts_node : Node ℕ
posts_node = node (codes "posts") none 1 2 (cons (node (codes "{uint:id}") (some 2) 0 3 nil) nil)

posts_node-IsWell : IsWell one_route.cache posts_node
unfolding router IsWell cached
posts_node-IsWell =
    (record { deeper = refl; counted = λ e. omega arith; compiled = λ e. refl }, refl, tt, tt)

match_segment-match_unguarded_example :
    match_segment one_route.cache posts_node (codes "123") 3 none
    ≡ match_unguarded one_route.cache posts_node (codes "123") 3 none
match_segment-match_unguarded_example =
    match_segment-match_unguarded engine one_route.cache one_route-RouterIsWell.0 posts_node
      (codes "123") 3 none posts_node-IsWell

abbrev post_123 : List Text
post_123 = served_segments (codes "HEAD") (codes "/posts/123")

post_123_fits : AllFit engine (route_segments (codes "GET") (codes "/posts/{uint:id}")) post_123
unfolding router
post_123_fits = (
  inl refl,
  (inl refl, (inr (one_group is_digit, codes "123" ∷ [], refl, refl, refl, omega arith), tt)),
)

abbrev leaf : Node ℕ
leaf = node (codes "{uint:id}") (some 2) 0 3 nil

post_123-IsForced : IsForced one_route.cache (length post_123) one_route.root post_123
unfolding router
post_123-IsForced =
    IsForced-cons one_route.cache 3
      (node (codes "GET") none 0 1 (cons (node (codes "posts") none 1 2 (cons leaf nil)) nil)) []
      none 0 0 (codes "GET") _
      (IsForced-cons one_route.cache 3 (node (codes "posts") none 1 2 (cons leaf nil)) (codes "GET")
        none 0 1 (codes "posts") _
        (IsForced-cons one_route.cache 3 leaf (codes "posts") none 1 2 (codes "123") []
          (IsForced-nil one_route.cache 3 leaf)))

find_handler_fits_example :
    (find_handler one_route (codes "HEAD") (codes "/posts/123") none).0 ≡ found 2
find_handler_fits_example =
    find_handler_fits engine 2 (codes "GET") (codes "/posts/{uint:id}") empty one_route
      (codes "HEAD") (codes "/posts/123") none empty-RouterIsWell one_route_made post_123_fits
      post_123-IsForced
