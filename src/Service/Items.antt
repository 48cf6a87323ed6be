-- ===== src/Service/Items.antt =====
-- The routes that `CRUD` of resource.go adds, one router behind the other.
pub mod Served
use go_relax.Base.{
  ℕ, true, false, Option, none, some, List, [], ◌∷◌, ◌++◌, ◌≡◌, refl, sym, ap, ◌∙◌, subst,
  Option-cases, arith, length,
}
use go_relax.Text.{Text, codes, text_eq, has_byte, to_upper}
use go_relax.Context.{Values}
use go_relax.Router.Segment.{Regexp, is_pse}
use go_relax.Router.Trie.{Router, add_route, route_segments, ◌>>=◌}
use go_relax.Router.Find.{found, find_handler, head_of}
use go_relax.Router.Literal.{served_segments}
use go_relax.Router.Methods.{route_segments-method}
use go_relax.Router.WellFormed.{RouterIsWell}
use go_relax.Router.Insertion.{add_route-RouterIsWell}
use go_relax.Router.Complete.{IsForced}
use go_relax.Router.Reached.{AllFit}
use go_relax.Router.Lasting.{AddsOthers, none_added, one_added, find_handler_lasts}
use go_relax.Service.{Service, Resource, RouteHandler, Filter, Crud}
use go_relax.Service.Resources.{
  route, crud, relation_handler, method_not_allowed, item_pse, nth_resource,
}

bind-some :
    {A B : Type 0} (o : Option A) (k : A → Option B) (b : B)
    → (o >>= k) ≡ some b
    → (a : A) × (o ≡ some a) × (k a ≡ some b)
bind-some none k b h = absurd cc
bind-some (some a) k b h = (a, refl, h)

abbrev router_in : Service → Option Service → Router RouteHandler
router_in svc none = svc.router
router_in svc (some s) = s.router

bind-known :
    {A B : Type 0} (o : Option A) (k : A → Option B) (a : A) (b : B)
    → o ≡ some a
    → (o >>= k) ≡ some b
    → k a ≡ some b
bind-known none k a b known h = absurd cc
bind-known (some x) k a b known h = let same : x ≡ a = ground arith in rw (← same) h

module _ (compile : Text → Option Regexp) (i : ℕ) (r : Resource) where
  -- The path of a route.
  abbrev pub path_of : Text → Text
  path_of path = r.path ++ codes "/" ++ path

  -- The router that has the route.
  unfoldable pub Adds :
      Text → Text → RouteHandler → Router RouteHandler → Router RouteHandler → Type 0
  Adds method path h old new =
      add_route compile method (path_of path) (relation_handler i h) old ≡ some new

  route-router :
      (method path : Text) (h : RouteHandler) (svc svc' : Service)
      → route compile i r method path h [] svc ≡ some svc'
      → add_route compile
          (to_upper method)
          (r.path ++ codes "/" ++ path)
          (relation_handler i h)
          svc.router
        ≡ some svc'.router
  unfolding route
  route-router method path h svc svc' made =
      let (router, there, same) =
        bind-some
          (add_route compile (to_upper method) (r.path ++ codes "/" ++ path) (relation_handler i h)
            svc.router)
          _ svc' made in
      let e : router ≡ svc'.router = ground arith in there ∙ ap some e

module _ (compile : Text → Option Regexp) (i : ℕ) (r : Resource) where
  -- The steps of CRUD, one router behind the other.
  pub crud-routers :
      (pse : Text) (svc svc' : Service) (coll : Crud)
      → nth_resource svc.resources i ≡ some r
      → r.collection.crud ≡ some coll
      → crud compile i pse svc ≡ some svc'
      → (r1 r2 r3 r4 r5 : Router RouteHandler) × Adds compile i r
          (codes "GET")
          (item_pse r.name pse)
          (λ _. coll.read)
          svc.router
          r1
        × Adds compile i r (codes "POST") [] (λ _. coll.create) r1 r2
        × Adds compile i r (codes "PUT") [] method_not_allowed r2 r3
        × Adds compile i r (codes "PUT") (item_pse r.name pse) (λ _. coll.update) r3 r4
        × Adds compile i r (codes "DELETE") [] method_not_allowed r4 r5
        × Adds compile i r (codes "DELETE") (item_pse r.name pse) (λ _. coll.delete) r5 svc'.router
  unfolding crud Adds to_upper codes
  crud-routers pse svc svc' coll named crud_there made =
      let item = item_pse r.name pse in
      let m0 = bind-known (nth_resource svc.resources i) _ r svc' named made in
      let m1 = bind-known r.collection.crud _ coll svc' crud_there m0 in
      let read : RouteHandler = λ _. coll.read in
      let create : RouteHandler = λ _. coll.create in
      let update : RouteHandler = λ _. coll.update in
      let delete : RouteHandler = λ _. coll.delete in
      let (s1, e1, m2) = bind-some (route compile i r (codes "GET") item read [] svc) _ svc' m1 in
      let (s2, e2, m3) = bind-some (route compile i r (codes "POST") [] create [] s1) _ svc' m2 in
      let (s3, e3, m4) =
        bind-some (route compile i r (codes "PUT") [] method_not_allowed [] s2) _ svc' m3 in
      let (s4, e4, m5) = bind-some (route compile i r (codes "PUT") item update [] s3) _ svc' m4 in
      let (s5, e5, m6) =
        bind-some (route compile i r (codes "DELETE") [] method_not_allowed [] s4) _ svc' m5 in
      let (s6, e6, m7) =
        bind-some (route compile i r (codes "DELETE") item delete [] s5) _ svc' m6 in
      let last : s6.router ≡ svc'.router = ap (λ o. router_in s6 o) m7 in
      (
        s1.router,
        s2.router,
        s3.router,
        s4.router,
        s5.router,
        route-router compile i r (codes "GET") item read svc s1 e1,
        route-router compile i r (codes "POST") [] create s1 s2 e2,
        route-router compile i r (codes "PUT") [] method_not_allowed s2 s3 e3,
        route-router compile i r (codes "PUT") item update s3 s4 e4,
        route-router compile i r (codes "DELETE") [] method_not_allowed s4 s5 e5,
        route-router compile i r (codes "DELETE") item delete s5 s6 e6 ∙ ap some last,
      )
