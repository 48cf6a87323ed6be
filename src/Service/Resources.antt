-- ===== src/Service/Resources.antt =====
-- resource.go: routes, resources and CRUD. `none` is a panic.
use go_relax.Base.{
  String, ℕ, zero, suc, true, false, Option, none, some, List, [], ◌∷◌, ◌++◌, ◌==◌, if◌then◌else◌,
  length,
}
use go_relax.Text.{
  Text, codes, text_eq, contains, cut_last, is_empty, to_lower, to_upper, trim_right,
}
use go_relax.Context.{
  Context, HandlerFunc, returned, panicked, text, get, set_header, add_header, write_header, error,
}
use go_relax.Router.Segment.{Regexp}
use go_relax.Router.Trie.{add_route, ◌>>=◌}
use go_relax.Linking.{Link, link_string, new_link}
use go_relax.Service.{
  ResourceView, View, RouteHandler, Filter, Resourcer, Resource, Service, a_resource, service_path,
  resource_path, attach_filters,
}

unfoldable pub not_implemented : HandlerFunc
unfolding error codes
not_implemented = error 501 (codes "That route is not implemented.") none

unfoldable pub method_not_allowed : RouteHandler
unfolding error codes set_header
method_not_allowed view c =
    error 405 (codes "The method " ++ c.request.method ++ codes " is not allowed.") none
      (set_header "Allow" (view.path_methods c.request.path) c)

abbrev finish_options : Option RouteHandler → RouteHandler
finish_options none view c = returned (write_header 204 c)
finish_options (some options) view c = options view c

-- OptionsHandler: the value of "content.encoding" is asserted to be a text where PATCH is listed.
unfoldable pub options_handler : Option RouteHandler → RouteHandler
unfolding contains codes set_header get write_header
options_handler options view c =
    let methods = view.path_methods c.request.path in
    let c1 = set_header "Allow" methods c in
    if contains methods (codes "PATCH")
    then elim (get (codes "content.encoding") c1) [
      | some (text t) ↦ finish_options options view (set_header "Accept-Patch" t c1)
      | _ ↦ panicked [] c1
    ]
    else finish_options options view c1

abbrev pub nth_links : List ResourceView → ℕ → List Link
nth_links [] i = []
nth_links (r ∷ rs) zero = r.links
nth_links (r ∷ rs) (suc i) = nth_links rs i

unfoldable pub add_links : List Link → Context → Context
unfolding add_header link_string
add_links [] c = c
add_links (l ∷ ls) c = add_links ls (add_header "Link" (link_string l) c)

-- relationHandler of resource `i`: the links that the resource has when the request is served.
unfoldable pub relation_handler : ℕ → RouteHandler → RouteHandler
unfolding add_links
relation_handler i next view c = next view (add_links (nth_links view.resources i) c)

-- Route for resource `i`. The handlers that `attachFilters` makes are in its own variable, and the
-- route gets the handler from before.
unfoldable pub route :
    (compile : Text → Option Regexp) (i : ℕ) (r : Resource) (method path : Text) (h : RouteHandler)
    (filters : List Filter)
    → Service
    → Option Service
unfolding relation_handler attach_filters to_upper codes
route compile i r method path h filters svc =
    let handler = relation_handler i h in
    let route_filters = λ (view : View). attach_filters filters (handler view) in
    let resource_filters = λ (view : View). attach_filters r.filters (handler view) in
    do
      router ← add_route compile (to_upper method) (r.path ++ codes "/" ++ path) handler svc.router
      some (record svc { router = router })

abbrev pub nth_resource : List Resource → ℕ → Option Resource
nth_resource [] i = none
nth_resource (r ∷ rs) zero = some r
nth_resource (r ∷ rs) (suc i) = nth_resource rs i

abbrev pub update_resource : (Resource → Resource) → ℕ → List Resource → List Resource
update_resource f i [] = []
update_resource f zero (r ∷ rs) = f r ∷ rs
update_resource f (suc i) (r ∷ rs) = r ∷ update_resource f i rs

abbrev link_to : Text → Text → Link
link_to uri rel = record {
  uri = uri;
  rel = rel;
  anchor = [];
  rev = [];
  href_lang = [];
  media = [];
  title = [];
  titlex = [];
  type = [];
  ext = [];
}

-- The segment for an item: the one that is given, or the name without the letters s at its end.
unfoldable pub item_pse : Text → Text → Text
unfolding trim_right codes
item_pse name pse =
    if is_empty pse
    then elim (trim_right (λ c. c == b's') name) [
      | [] ↦ codes "{item}"
      | c ∷ s ↦ codes "{" ++ (c ∷ s) ++ codes "}"
    ]
    else pse

-- CRUD for resource `i`; the type assertion is a panic.
unfoldable pub crud : (Text → Option Regexp) → ℕ → Text → Service → Option Service
unfolding route method_not_allowed item_pse new_link resource_path codes
crud compile i pse svc = do
  r ← nth_resource svc.resources i
  coll ← r.collection.crud
  let item = item_pse r.name pse
  let add = λ (method : String) (path : Text) (h : RouteHandler) (s : Service).
      route compile i r (codes method) path h [] s
  s1 ← add "GET" item (λ _. coll.read) svc
  s2 ← add "POST" [] (λ _. coll.create) s1
  s3 ← add "PUT" [] method_not_allowed s2
  s4 ← add "PUT" item (λ _. coll.update) s3
  s5 ← add "DELETE" [] method_not_allowed s4
  s6 ← add "DELETE" item (λ _. coll.delete) s5
  let link = link_to (resource_path s6 r true ++ codes "/" ++ item) (codes "item")
  some (record s6 {
    resources = update_resource (λ x. record x { links = new_link link x.links }) i s6.resources;
  })

-- The filters of a resource: limited ones only if they run in a resource.
unfoldable pub resource_filters : List Filter → List Filter
resource_filters [] = []
resource_filters (f ∷ fs) = elim f.run_in [
  | none ↦ f ∷ resource_filters fs
  | some allowed ↦ if allowed a_resource then f ∷ resource_filters fs else resource_filters fs
]

-- The part of a type's name behind its last dot, in lower case.
unfoldable pub resource_name : Text → Text
unfolding cut_last to_lower
resource_name cs = elim (cut_last b'.' cs) [
  | none ↦ to_lower cs
  | some (before, behind) ↦ to_lower behind
]

-- Service.Resource: the new service and the index of the resource.
unfoldable pub new_resource :
    (Text → Option Regexp) → Option Resourcer → List Filter → Service → Option (Service × ℕ)
unfolding text_eq codes resource_name resource_filters route options_handler new_link resource_path
    service_path
new_resource compile none filters svc = none
new_resource compile (some collection) filters svc =
    if text_eq collection.type_name (codes "*relax.Service")
    then some (svc, 0)
    else let name = resource_name collection.type_name in
      if is_empty name
      then none
      else let i = length svc.resources in
        let r : Resource = record {
          name = name;
          path = service_path svc false ++ name;
          collection = collection;
          links = [];
          filters = resource_filters filters;
        } in
        do
          s1 ← route compile i r (codes "OPTIONS") [] (options_handler collection.options) [] svc
          s2 ← route compile i r (codes "GET") [] collection.index [] s1
          let uri = resource_path s2 r true
          let index_link = link_to uri (service_path s2 true ++ codes "rel/" ++ name)
          let links = new_link (link_to uri (codes "collection")) (new_link index_link [])
          some (record s2 { resources = s2.resources ++ (record r { links = links }) ∷ [] }, i)
