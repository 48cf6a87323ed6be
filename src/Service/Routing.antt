-- ===== src/Service/Routing.antt =====
-- A route that a resource adds, and the requests that `dispatch` of service.go sends to it.
use go_relax.Base.{
  ℕ, true, false, Option, none, some, List, [], ◌∷◌, ◌++◌, ◌≡◌, refl, ◌∙◌, arith, get_or,
}
use go_relax.Text.{Text, codes, text_eq, to_upper}
use go_relax.Text.Laws.{text_eq_refl}
use go_relax.Context.{Context, Values}
use go_relax.Router.Segment.{Regexp}
use go_relax.Router.Trie.{route_segments}
use go_relax.Router.Find.{Found, found, route_not_found, route_bad_method, find_handler}
use go_relax.Router.Lookup.{segments_eq}
use go_relax.Router.Literal.{
  found_handler, IsPlain, AreLiteral, served_segments, find_handler-add_route,
}
use go_relax.Encoder.{Encoder}
use go_relax.Service.{Service, Resource, Filter, RouteHandler}
use go_relax.Service.Resources.{route, relation_handler}
use go_relax.Service.Dispatch.{dispatch, dispatch_found, view_of}

segments_eq_refl : (ss : List Text) → segments_eq ss ss ≡ true
unfolding segments_eq
segments_eq_refl [] = refl
segments_eq_refl (s ∷ ss) = ground (arith, text_eq_refl s, segments_eq_refl ss)

found_of : {H : Type 0} (f : Found H) (h : H) → found_handler f ≡ some h → f ≡ found h
found_of (found h') h e = cc
found_of route_not_found h e = cc
found_of route_bad_method h e = cc

dispatch_served :
    (json : Encoder) (svc : Service) (h : RouteHandler) (c : Context)
    → (find_handler svc.router c.request.method c.request.path (some c.path_values)).0 ≡ found h
    → (vs : Option Values) × (dispatch json svc c
        ≡ h (view_of json svc) (record c { path_values = vs }))
unfolding dispatch dispatch_found
dispatch_served json svc h c e = (
  get_or (find_handler svc.router c.request.method c.request.path (some c.path_values)).1 none,
  rw e refl,
)

-- A resource can add a route without expressions to a service that has no expressions. The dispatch of
-- a request with the method of the route, which is not HEAD, and its path is then the call of its
-- handler, behind the one that adds the links of the resource; the values of the path may change.
pub dispatch-route :
    (compile : Text → Option Regexp) (json : Encoder) (i : ℕ) (r : Resource) (method path : Text)
    (h : RouteHandler) (filters : List Filter) (svc : Service)
    → IsPlain svc.router.root
    → AreLiteral (route_segments (to_upper method) (r.path ++ codes "/" ++ path))
    → text_eq (to_upper method) (codes "HEAD") ≡ false
    → (svc' : Service) × (route compile i r method path h filters svc ≡ some svc')
      × IsPlain svc'.router.root
      × ((c : Context)
          → c.request.method ≡ to_upper method
          → c.request.path ≡ r.path ++ codes "/" ++ path
          → (vs : Option Values) × (dispatch json svc' c
              ≡ relation_handler i h (view_of json svc') (record c { path_values = vs })))
unfolding route
dispatch-route compile json i r method path h filters svc plain literal not_head =
    let m = to_upper method in
    let p = r.path ++ codes "/" ++ path in
    let h' : RouteHandler = relation_handler i h in
    let (router, made, plain', law) =
      find_handler-add_route compile m p h' svc.router plain literal in
    let svc' : Service = record svc { router = router } in
    let served : served_segments m p ≡ route_segments m p = rw not_head refl in
    (
      svc',
      rw made refl,
      plain',
      λ c same_method same_path.
          let hit : found_handler (find_handler router m p (some c.path_values)).0 ≡ some h' =
            law m p (some c.path_values)
            ∙ rw (served, segments_eq_refl (route_segments m p)) refl in
          dispatch_served json svc' h' c (
            rw (same_method, same_path)
              (found_of (find_handler router m p (some c.path_values)).0 h' hit)),
    )
