-- ===== src/Tests/TableLaws.antt =====
-- Lists of routes, and routes of other methods, at concrete routers.
use go_relax.Base.{ℕ, false, Option, some, none, List, [], ◌∷◌, ◌≡◌, refl, get_or}
use go_relax.Text.{Text, codes, text_eq}
use go_relax.Context.{Values}
use go_relax.Router.Segment.{is_pse}
use go_relax.Router.Trie.{Router, add_route, new_router, route_segments}
use go_relax.Router.Find.{find_handler, is_served, path_methods, head_of}
use go_relax.Router.Literal.{found_handler, served_segments}
use go_relax.Router.Table.{Route, add_all, last_route, AllLiteral}
use go_relax.Router.Listed.{has_method}
use go_relax.Router.Methods.{allow_list}
use go_relax.Router.Allowed.{AllStandard, methods_of, path_methods-add_all}
use go_relax.Router.Others.{find_handler-other_method}
use go_relax.Tests.RouterRuns.{engine, router}
use go_relax.Tests.RouterLaws.{one_route, one_route-RouterIsWell}

abbrev pub routes : List (Route ℕ)
routes =
    (codes "GET", codes "/posts", 1)
    ∷ (codes "POST", codes "/posts/", 2)
    ∷ (codes "GET", codes "/posts/", 3)
    ∷ []

routes_literal : AllLiteral routes
unfolding router
routes_literal = ((refl, (refl, tt)), ((refl, (refl, tt)), ((refl, (refl, tt)), tt)))

routes_standard : AllStandard routes
unfolding router text_eq
routes_standard = (refl, (refl, (refl, tt)))

path_methods-add_all_example :
    (r : Router ℕ) × (add_all engine routes (new_router []) ≡ some r)
    × ((m p : Text) (vs : Option (Option Values))
        → found_handler (find_handler r m p vs).0 ≡ last_route routes (served_segments m p))
    × ((m : Text) → has_method m r.methods ≡ has_method m (methods_of routes))
    × ((p : Text)
        → path_methods r (b'/' ∷ p)
          ≡ allow_list (λ m. is_served (last_route routes (route_segments m (b'/' ∷ p)))) r.methods)
path_methods-add_all_example = path_methods-add_all engine routes [] routes_literal routes_standard

abbrev two_routes : Router ℕ
two_routes =
    get_or (add_route engine (codes "POST") (codes "/posts/{word:tag}") 4 one_route) one_route

two_routes_made :
    add_route engine (codes "POST") (codes "/posts/{word:tag}") 4 one_route ≡ some two_routes
unfolding router
two_routes_made = refl

post_is_text : is_pse (head_of (route_segments (codes "POST") (codes "/posts/{word:tag}"))) ≡ false
unfolding router
post_is_text = refl

get_is_another :
    text_eq
      (head_of (route_segments (codes "POST") (codes "/posts/{word:tag}")))
      (head_of (served_segments (codes "HEAD") (codes "/posts/123")))
    ≡ false
unfolding router text_eq
get_is_another = refl

find_handler-other_method_example :
    find_handler two_routes (codes "HEAD") (codes "/posts/123") none
    ≡ find_handler one_route (codes "HEAD") (codes "/posts/123") none
find_handler-other_method_example =
    find_handler-other_method engine 4 (codes "POST") (codes "/posts/{word:tag}") one_route
      two_routes (codes "HEAD") (codes "/posts/123") none one_route-RouterIsWell post_is_text
      get_is_another two_routes_made
