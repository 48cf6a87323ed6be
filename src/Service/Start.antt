-- ===== src/Service/Start.antt =====
-- The start of a service in service.go, and its log. A line of the log goes to the logger of the
-- service, or to the log of the standard library where there is none. The server of net/http is outside:
-- what the service asks it for is a value.
use go_relax.Base.{
  map, length, ◌+◌, inl, inr, Option-cases, arith, ◌≡◌, refl, ℕ, ◌-◌, ◌/◌, Bool, Option, none, some,
  List, [], ◌∷◌, ◌++◌, if◌then◌else◌,
}
use go_relax.Text.{Text, codes, is_empty}
use go_relax.Http.Request.{Request}
use go_relax.Linking.{quote}
use go_relax.Context.{Context, Writer}
use go_relax.Util.{Quality, Prefs}
use go_relax.Content.{Defaults, Mime}
use go_relax.Service.{
  Service, Filter, Target, a_service, a_resource, Entity, an_encoder, a_filter, a_routing_engine,
  a_logger, an_unknown, use_entity, use_all,
}
use go_relax.Service.Resources.{resource_filters}
use go_relax.Service.Dispatch.{Arrival, adapter}

pub record LogLine : Type 0 where
  pub logger : Option ℕ
  pub text : Text

-- Logf
unfoldable pub logf : Service → Text → LogLine
logf svc text = record { logger = svc.logger; text = text }

-- What `Use` logs for one entity, whose type is printed as `name`.
abbrev log_filter : Service → Text → Option (Target → Bool) → List LogLine
log_filter svc name none = []
log_filter svc name (some allowed) =
    if allowed a_service
    then []
    else logf svc (codes "relax: Filter not usable for service: " ++ name) ∷ []

unfoldable pub log_entity : Service → Entity × Text → List LogLine
unfolding logf codes
log_entity svc (a_filter f, name) = log_filter svc name f.run_in
log_entity svc (an_unknown, name) = logf svc (codes "relax: Unknown entity to use: " ++ name) ∷ []
log_entity svc (an_encoder e, name) = []
log_entity svc (a_routing_engine r, name) = []
log_entity svc (a_logger l, name) = []

-- Use, with its log: a logger that is given takes the lines behind it.
unfoldable pub use_logged : List (Entity × Text) → Service → Service × List LogLine
unfolding log_entity
use_logged [] svc = (svc, [])
use_logged ((e, name) ∷ es) svc =
    let (svc', lines) = use_logged es (use_entity e svc) in
    (svc', log_entity svc (e, name) ++ lines)

-- What `Resource` logs for the filters that are given to it.
unfoldable pub log_unusable : List (Filter × Text) → Service → List LogLine
unfolding logf codes
log_unusable [] svc = []
log_unusable ((f, name) ∷ fs) svc =
    let rest = log_unusable fs svc in
    elim f.run_in [
      | none ↦ rest
      | some allowed ↦
          if allowed a_resource
          then rest
          else logf svc (codes "relax: Filter not usable for resource: " ++ name) ∷ rest
    ]

-- There are as many filters as the resource keeps and the log names together.
length-log_unusable :
    (fs : List (Filter × Text)) (svc : Service)
    → length (resource_filters (map (λ x. x.0) fs)) + length (log_unusable fs svc) ≡ length fs
unfolding log_unusable resource_filters
length-log_unusable [] svc = refl
length-log_unusable ((f, name) ∷ fs) svc = elim (Option-cases f.run_in) [
  | inl unlimited ↦ ground (arith, length-log_unusable fs svc)
  | inr (allowed, limited) ↦ ground (arith, length-log_unusable fs svc)
]

use_logged-use_all :
    (es : List (Entity × Text)) (svc : Service)
    → (use_logged es svc).0 ≡ use_all (map (λ e. e.0) es) svc
unfolding use_logged use_all
use_logged-use_all [] svc = refl
use_logged-use_all ((e, name) ∷ es) svc = use_logged-use_all es (use_entity e svc)

-- Uptime, in seconds
unfoldable pub uptime : ℕ → Service → ℕ
uptime now svc = (now - svc.uptime) / 1000000000

-- The pattern that `Handler` returns next to the adapter.
unfoldable pub handler_pattern : Service → Text
handler_pattern svc = svc.host ++ svc.path

unfoldable pub handler_log : Service → List LogLine
unfolding logf quote codes
handler_log svc =
    if is_empty svc.host
    then []
    else logf svc (codes "relax: Matching requests to host " ++ quote svc.host) ∷ []

-- ServeHTTP is the adapter.
unfoldable pub serve_http :
    (q : Quality) (d : Defaults) (mime : Mime) (order : Prefs q → Prefs q)
    → Service
    → Arrival
    → Writer
    → Request
    → Writer × Context
serve_http q d mime order svc a w r = adapter q d mime order svc a w r

-- What `Run` asks the server for.
pub data Listening : Type 0 where
  listen : Text → Listening
  listen_tls : Text → Text → Text → Listening

-- The address and the files of the arguments; `none` for the arguments is a call without any, and for
-- the result the panic of `args[0]`.
unfoldable pub listening : Option (List Text) → Option Listening
unfolding codes
listening none = some (listen (codes ":8000"))
listening (some []) = none
listening (some (addr ∷ cert ∷ key ∷ [])) = some (listen_tls addr cert key)
listening (some (addr ∷ more)) = some (listen addr)

abbrev listening_text : Listening → Text
listening_text (listen addr) = codes "relax: Listening on " ++ quote addr
listening_text (listen_tls addr cert key) =
    codes "relax: Listening on " ++ quote addr ++ codes " (TLS)"

-- Run: the pattern that is handled, what is listened to, and the log; a failure of the server ends the
-- program.
unfoldable pub run : Option (List Text) → Service → Option (Text × Listening × List LogLine)
unfolding listening handler_pattern handler_log logf quote codes
run args svc = elim (listening args) [
  | none ↦ none
  | some l ↦ some (handler_pattern svc, l, handler_log svc ++ logf svc (listening_text l) ∷ [])
]
