-- ===== src/Service.antt =====
-- service.go and resource.go: the state of a service and of its resources, and the pieces by which
-- both are built. `Resources` has the operations of a resource, `Dispatch` the way of a request.
pub mod Resources
pub mod Verbs
pub mod Root
pub mod Dispatch
pub mod Laws
pub mod Begin
pub mod Pool
pub mod Items
pub mod Routing
pub mod Serving
pub mod Start
use go_relax.Base.{
  ℕ, zero, suc, ◌-◌, ◌+◌, Bool, true, false, not, ◌&&◌, ◌||◌, Option, none, some, List, [], ◌∷◌,
  ◌++◌, ◌==◌, if◌then◌else◌, length, drop,
}
use go_relax.Text.{Text, codes, text_eq, trim_prefix, trim_suffix}
use go_relax.Context.{HandlerFunc}
use go_relax.Router.Trie.{Router, new_router, Cache}
use go_relax.Linking.{Link}
use go_relax.Encoder.{Encoder}
use go_relax.Content.{Encoders}

-- What the handlers of a resource read of their service while they serve a request: the routes and
-- resources of that time.
pub record ResourceView : Type 0 where
  pub name : Text
  pub path : Text
  pub links : List Link

pub record View : Type 0 where
  pub path_methods : Text → Text
  pub resources : List ResourceView
  pub path : Text
  pub uri_string : Text
  pub json_accept : Text

abbrev pub RouteHandler : Type 0
RouteHandler = View → HandlerFunc

-- What `RunIn` is asked about. The method value `r.service.Router` is a function, and no Router.
pub data Target : Type 0 where
  a_service a_resource a_router a_function : Target

-- A Filter; `run_in` is there if it is a LimitedFilter too.
pub record Filter : Type 0 where
  pub run : HandlerFunc → HandlerFunc
  pub run_in : Option (Target → Bool)

pub record Crud : Type 0 where
  pub create : HandlerFunc
  pub read : HandlerFunc
  pub update : HandlerFunc
  pub delete : HandlerFunc

-- A Resourcer, with the name of its type and what else it implements.
pub record Resourcer : Type 0 where
  pub type_name : Text
  pub index : RouteHandler
  pub options : Option RouteHandler
  pub crud : Option Crud

pub record Resource : Type 0 where
  pub name : Text
  pub path : Text
  pub collection : Resourcer
  pub links : List Link
  pub filters : List Filter

-- `uptime` is the time at which the service was made, in nanoseconds; `logger` is the object that logs,
-- or none for the log of the standard library.
pub record Service : Type 0 where
  pub path : Text
  pub uri_string : Text
  pub router : Router RouteHandler
  pub encoders : Encoders
  pub filters : List Filter
  pub resources : List Resource
  pub host : Text
  pub uptime : ℕ
  pub logger : Option ℕ

-- Service.Path
unfoldable pub service_path : Service → Bool → Text
service_path svc absolute = if absolute then svc.uri_string else svc.path

-- Resource.Path: the part of the path behind the service's, on the service's.
unfoldable pub resource_path : Service → Resource → Bool → Text
unfolding service_path trim_prefix codes
resource_path svc r absolute =
    service_path svc absolute ++ trim_prefix (drop (length svc.path - 1) r.path) (codes "/")

-- attachFilters: from the last filter to the first, each is wrapped around the handler; a limited
-- filter only if it runs in what it is asked about. The result is the handler in the local variable.
unfoldable pub attach_filters : List Filter → HandlerFunc → HandlerFunc
attach_filters [] h = h
attach_filters (f ∷ fs) h =
    let inner = attach_filters fs h in
    elim f.run_in [
      | none ↦ f.run inner
      | some allowed ↦ if allowed a_function then f.run inner else inner
    ]

unfoldable pub set_encoder : Encoder → Encoders → Encoders
unfolding text_eq
set_encoder e [] = (e.accept, e) ∷ []
set_encoder e ((k, old) ∷ more) =
    if text_eq k e.accept then (k, e) ∷ more else (k, old) ∷ set_encoder e more

-- What `Use` takes.
pub data Entity : Type 0 where
  an_encoder : Encoder → Entity
  a_filter : Filter → Entity
  a_routing_engine : Router RouteHandler → Entity
  a_logger : ℕ → Entity
  an_unknown : Entity

-- One round of `Use`: the case of a limited filter comes first, and adds nothing.
abbrev use_filter : Filter → Option (Target → Bool) → Service → Service
use_filter f (some allowed) svc = svc
use_filter f none svc = record svc { filters = svc.filters ++ f ∷ [] }

unfoldable pub use_entity : Entity → Service → Service
unfolding set_encoder
use_entity (an_encoder e) svc = record svc { encoders = set_encoder e svc.encoders }
use_entity (a_filter f) svc = use_filter f f.run_in svc
use_entity (a_routing_engine r) svc = record svc { router = r }
use_entity (a_logger l) svc = record svc { logger = some l }
use_entity an_unknown svc = svc

unfoldable pub use_all : List Entity → Service → Service
unfolding use_entity
use_all [] svc = svc
use_all (e ∷ es) svc = use_all es (use_entity e svc)

-- The path of a service ends with a slash.
unfoldable pub with_slash : Text → Text
with_slash [] = b'/' ∷ []
with_slash (c ∷ []) = if c == b'/' then c ∷ [] else c ∷ b'/' ∷ []
with_slash (c ∷ d ∷ s) = c ∷ with_slash (d ∷ s)

-- The service before it has routes: the URI without user, query and fragment, and the JSON encoder.
unfoldable pub bare_service : Cache → Text → Text → (Text → Text) → ℕ → Encoder → Service
unfolding with_slash new_router use_entity
bare_service cache host path string_of now json = use_entity (an_encoder json) (record {
  path = with_slash path;
  uri_string = string_of (with_slash path);
  router = new_router cache;
  encoders = [];
  filters = [];
  resources = [];
  host = host;
  uptime = now;
  logger = none;
})
