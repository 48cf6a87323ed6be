-- ===== src/Service/Items/Served.antt =====
-- The requests that the routes of `CRUD` of resource.go serve.
use go_relax.Base.{ℕ, false, Option, some, [], ◌∷◌, ◌++◌, ◌≡◌, refl, sym, ap, ◌∙◌, subst, length}
use go_relax.Text.{Text, codes, text_eq, has_byte}
use go_relax.Context.{Values, HandlerFunc}
use go_relax.Router.Segment.{Regexp, is_pse}
use go_relax.Router.Trie.{Router, add_route, route_segments}
use go_relax.Router.Find.{found, find_handler, head_of}
use go_relax.Router.Literal.{served_segments}
use go_relax.Router.Methods.{route_segments-method}
use go_relax.Router.WellFormed.{RouterIsWell}
use go_relax.Router.Insertion.{add_route-RouterIsWell}
use go_relax.Router.Complete.{IsForced}
use go_relax.Router.Reached.{AllFit}
use go_relax.Router.Lasting.{AddsOthers, none_added, one_added, find_handler_lasts}
use go_relax.Service.{Service, Resource, RouteHandler, Crud}
use go_relax.Service.Resources.{crud, relation_handler, item_pse, nth_resource}
use go_relax.Service.Items.{path_of, Adds, crud-routers}

module _ {H : Type 0} (compile : Text → Option Regexp) where
  adds :
      (method t x : Text) (h : H) {r r1 r' : Router H}
      → has_byte b'/' method ≡ false
      → is_pse method ≡ false
      → text_eq method t ≡ false
      → add_route compile method (b'/' ∷ x) h r ≡ some r1
      → AddsOthers compile t r1 r'
      → AddsOthers compile t r r'
  adds method t x h slash literal other made rest =
      let first = ap head_of (route_segments-method method x slash) in
      one_added method (b'/' ∷ x) h (rw first literal) (rw first other) made rest

-- What a request with a method and a path that begins with a slash finds, if it fits the route.
abbrev pub IsServed :
    (Text → Option Regexp) → Router RouteHandler → Text → Text → RouteHandler → Type 0
IsServed compile router method path h =
    (p : Text) (vs : Option (Option Values))
    → AllFit compile (route_segments method path) (served_segments method (b'/' ∷ p))
    → IsForced router.cache (length (served_segments method (b'/' ∷ p))) router.root
        (served_segments method (b'/' ∷ p))
    → (find_handler router method (b'/' ∷ p) vs).0 ≡ found h

module _ (compile : Text → Option Regexp) (i : ℕ) (r : Resource) where
  -- A method is written as a text without a slash, and is not HEAD.
  abbrev IsVerb : Text → Type 0
  IsVerb m = (has_byte b'/' m ≡ false) × (is_pse m ≡ false) × (text_eq m (codes "HEAD") ≡ false)

  step :
      (t method path : Text) (h : RouteHandler) (a b c : Router RouteHandler) (q : Text)
      → r.path ≡ b'/' ∷ q
      → IsVerb method
      → text_eq method t ≡ false
      → Adds compile i r method path h a b
      → AddsOthers compile t b c
      → AddsOthers compile t a c
  unfolding Adds
  step t method path h a b c q root (slash, literal, head) other e rest =
      let path_same = ap (λ x. x ++ codes "/" ++ path) root in
      adds compile method t (q ++ codes "/" ++ path) (relation_handler i h) slash literal other
        (subst (λ x. add_route compile method x (relation_handler i h) a ≡ some b) path_same e) rest

  serve_lasts :
      (method path : Text) (h : RouteHandler) (a b c : Router RouteHandler)
      → IsVerb method
      → RouterIsWell compile a
      → Adds compile i r method path h a b
      → AddsOthers compile method b c
      → IsServed compile c method (path_of compile i r path) (relation_handler i h)
  unfolding Adds
  serve_lasts method path h a b c (slash, literal, head) well e others p vs fit forced =
      let segs : served_segments method (b'/' ∷ p) ≡ route_segments method (b'/' ∷ p) =
        rw head refl in
      let first : method ≡ head_of (served_segments method (b'/' ∷ p)) =
        sym (ap head_of (segs ∙ route_segments-method method p slash)) in
      find_handler_lasts compile (relation_handler i h) method (path_of compile i r path) a b c
        method (b'/' ∷ p) vs well e (subst (λ t. AddsOthers compile t b c) first others) fit forced

  get-IsVerb : IsVerb (codes "GET")
  unfolding is_pse text_eq codes
  get-IsVerb = (refl, refl, refl)

  post-IsVerb : IsVerb (codes "POST")
  unfolding is_pse text_eq codes
  post-IsVerb = (refl, refl, refl)

  put-IsVerb : IsVerb (codes "PUT")
  unfolding is_pse text_eq codes
  put-IsVerb = (refl, refl, refl)

  delete-IsVerb : IsVerb (codes "DELETE")
  unfolding is_pse text_eq codes
  delete-IsVerb = (refl, refl, refl)

  -- Each action is served by the last router.
  crud-IsServed :
      (pse : Text) (svc svc' : Service) (coll : Crud) (q : Text)
      → r.path ≡ b'/' ∷ q
      → RouterIsWell compile svc.router
      → nth_resource svc.resources i ≡ some r
      → r.collection.crud ≡ some coll
      → crud compile i pse svc ≡ some svc'
      → IsServed compile svc'.router
          (codes "GET")
          (path_of compile i r (item_pse r.name pse))
          (relation_handler i (λ _. coll.read))
        × IsServed compile svc'.router
            (codes "POST")
            (path_of compile i r [])
            (relation_handler i (λ _. coll.create))
        × IsServed compile svc'.router
            (codes "PUT")
            (path_of compile i r (item_pse r.name pse))
            (relation_handler i (λ _. coll.update))
        × IsServed compile svc'.router
            (codes "DELETE")
            (path_of compile i r (item_pse r.name pse))
            (relation_handler i (λ _. coll.delete))
  unfolding Adds text_eq codes
  crud-IsServed pse svc svc' coll q root well named crud_there made =
      let (r1, r2, r3, r4, r5, e1, e2, e3, e4, e5, e6) =
        crud-routers compile i r pse svc svc' coll named crud_there made in
      let next =
        λ (method path : Text) (h : RouteHandler) (a b : Router RouteHandler)
            (w : RouterIsWell compile a) (e : Adds compile i r method path h a b).
          add_route-RouterIsWell compile (relation_handler i h) method (path_of compile i r path) a
            b w e in
      let w1 = next (codes "GET") (item_pse r.name pse) _ svc.router r1 well e1 in
      let w2 = next (codes "POST") [] _ r1 r2 w1 e2 in
      let w3 = next (codes "PUT") [] _ r2 r3 w2 e3 in
      let w4 = next (codes "PUT") (item_pse r.name pse) _ r3 r4 w3 e4 in
      let w5 = next (codes "DELETE") [] _ r4 r5 w4 e5 in
      let other =
        λ (t method path : Text) (h : RouteHandler) (a b : Router RouteHandler) (is : IsVerb method)
            (differs : text_eq method t ≡ false) (e : Adds compile i r method path h a b)
            (rest : AddsOthers compile t b svc'.router).
          step t method path h a b svc'.router q root is differs e rest in
      let item = item_pse r.name pse in
      let deletes = λ (t : Text) (differs : text_eq (codes "DELETE") t ≡ false).
        other t (codes "DELETE") [] _ r4 r5 delete-IsVerb differs e5
          (other t (codes "DELETE") item _ r5 svc'.router delete-IsVerb differs e6 none_added) in
      let puts =
        λ (t : Text) (differs : text_eq (codes "DELETE") t ≡ false)
            (differs' : text_eq (codes "PUT") t ≡ false).
          other t (codes "PUT") [] _ r2 r3 put-IsVerb differs' e3
            (other t (codes "PUT") item _ r3 r4 put-IsVerb differs' e4 (deletes t differs)) in
      (
        serve_lasts (codes "GET") item _ svc.router r1 svc'.router get-IsVerb well e1 (
            other (codes "GET") (codes "POST") [] _ r1 r2 post-IsVerb refl e2
              (puts (codes "GET") refl refl)),
        serve_lasts (codes "POST") [] _ r1 r2 svc'.router post-IsVerb w1 e2
            (puts (codes "POST") refl refl),
        serve_lasts (codes "PUT") item _ r3 r4 svc'.router put-IsVerb w3 e4
            (deletes (codes "PUT") refl),
        serve_lasts (codes "DELETE") item _ r5 svc'.router svc'.router delete-IsVerb w5 e6
            none_added,
      )

-- What CRUD makes a route for, besides the methods that are not allowed.
pub data Action : Type 0 where
  reads creates updates deletes : Action

abbrev pub method_for : Action → Text
method_for reads = codes "GET"
method_for creates = codes "POST"
method_for updates = codes "PUT"
method_for deletes = codes "DELETE"

abbrev pub segment_for : Action → Text → Text
segment_for reads item = item
segment_for creates item = []
segment_for updates item = item
segment_for deletes item = item

abbrev pub handler_for : Action → Crud → HandlerFunc
handler_for reads coll = coll.read
handler_for creates coll = coll.create
handler_for updates coll = coll.update
handler_for deletes coll = coll.delete

-- After CRUD for a resource, a request finds the handler of the collection for its action, behind the
-- links of the resource: Read for GET, Update for PUT and Delete for DELETE of an item, Create for
-- POST. The router kept the invariant, the paths of the resource and of the request begin with a slash,
-- the segments of the request fit those of the route, and at no node that the search can come to more
-- than one link takes the next segment.
pub crud-find_handler :
    (compile : Text → Option Regexp) (i : ℕ) (r : Resource) (action : Action) (pse : Text)
    (svc svc' : Service) (coll : Crud) (q p : Text) (vs : Option (Option Values))
    → r.path ≡ b'/' ∷ q
    → RouterIsWell compile svc.router
    → nth_resource svc.resources i ≡ some r
    → r.collection.crud ≡ some coll
    → crud compile i pse svc ≡ some svc'
    → AllFit compile
        (route_segments
          (method_for action)
          (path_of compile i r (segment_for action (item_pse r.name pse))))
        (served_segments (method_for action) (b'/' ∷ p))
    → IsForced svc'.router.cache
        (length (served_segments (method_for action) (b'/' ∷ p)))
        svc'.router.root
        (served_segments (method_for action) (b'/' ∷ p))
    → (find_handler svc'.router (method_for action) (b'/' ∷ p) vs).0
      ≡ found (relation_handler i (λ _. handler_for action coll))
crud-find_handler compile i r reads pse svc svc' coll q p vs root well named there made =
    (crud-IsServed compile i r pse svc svc' coll q root well named there made).0 p vs
crud-find_handler compile i r creates pse svc svc' coll q p vs root well named there made =
    (crud-IsServed compile i r pse svc svc' coll q root well named there made).1 p vs
crud-find_handler compile i r updates pse svc svc' coll q p vs root well named there made =
    (crud-IsServed compile i r pse svc svc' coll q root well named there made).2 p vs
crud-find_handler compile i r deletes pse svc svc' coll q p vs root well named there made =
    (crud-IsServed compile i r pse svc svc' coll q root well named there made).3 p vs
