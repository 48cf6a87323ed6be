-- ===== src/Service/Laws.antt =====
-- What `Use` of service.go makes of filters, and what becomes of a panic.
use go_relax.Base.{
  ℕ, get_or, Option, none, some, List, [], ◌∷◌, ◌++◌, ◌≡◌, refl, inl, inr, Option-cases, arith,
  append_assoc, append-nil, ap, sym, ◌∙◌, Bool,
}
use go_relax.Text.{Text}
use go_relax.Http.Header.{Header}
use go_relax.Http.Response.{Response}
use go_relax.Http.Response
use go_relax.Context.{
  HandlerFunc, free, Context, Writer, net, buffered, closed, panicked, writer_header,
  with_writer_header, writer_write_header, writer_write,
}
use go_relax.Service.{
  Service, Resource, RouteHandler, Filter, Target, Entity, an_encoder, a_filter, a_routing_engine,
  a_logger, an_unknown, use_entity, use_all,
}
use go_relax.Router.Segment.{Regexp}
use go_relax.Service.Resources.{route}
use go_relax.Service.Dispatch.{chain, finish, internal_server_error}

abbrev pub first_of : Option (ℕ × Header) → Option ℕ
first_of none = none
first_of (some (code, h)) = some code

-- The status that a writer of the server has sent.
abbrev pub status_sent : Writer → Option ℕ
status_sent (net r) = first_of r.sent
status_sent (buffered rb) = none
status_sent closed = none

abbrev unless_limited : Filter → Option (Target → Bool) → List Filter → List Filter
unless_limited f none fs = f ∷ fs
unless_limited f (some allowed) fs = fs

-- The filters among the arguments of `Use` that are not limited to some targets.
unfoldable pub unlimited : List Entity → List Filter
unlimited [] = []
unlimited (a_filter f ∷ es) = unless_limited f f.run_in (unlimited es)
unlimited (an_encoder e ∷ es) = unlimited es
unlimited (a_routing_engine r ∷ es) = unlimited es
unlimited (a_logger l ∷ es) = unlimited es
unlimited (an_unknown ∷ es) = unlimited es

use_all-filters :
    (es : List Entity) (svc : Service) → (use_all es svc).filters ≡ svc.filters ++ unlimited es
unfolding use_all use_entity unlimited
use_all-filters [] svc = sym (append-nil svc.filters)
use_all-filters (a_filter f ∷ es) svc = elim (Option-cases f.run_in) [
  | inl free_of ↦ ground (
    arith,
    use_all-filters es (record svc { filters = svc.filters ++ f ∷ [] }),
    append_assoc svc.filters (f ∷ []) (unlimited es),
  )
  | inr (allowed, limited) ↦ ground (arith, use_all-filters es svc)
]
use_all-filters (an_encoder e ∷ es) svc = use_all-filters es (use_entity (an_encoder e) svc)
use_all-filters (a_routing_engine r ∷ es) svc =
    use_all-filters es (use_entity (a_routing_engine r) svc)
use_all-filters (a_logger l ∷ es) svc = use_all-filters es (use_entity (a_logger l) svc)
use_all-filters (an_unknown ∷ es) svc = use_all-filters es svc

chain-append : (fs gs : List Filter) (h : HandlerFunc) → chain (fs ++ gs) h ≡ chain fs (chain gs h)
unfolding chain
chain-append [] gs h = refl
chain-append (f ∷ fs) gs h = ap f.run (chain-append fs gs h)

-- The filters given to `Use` run inside those of the service, the first one outermost; a filter that
-- is limited to some targets never runs.
pub chain-use_all :
    (es : List Entity) (svc : Service) (h : HandlerFunc)
    → chain (use_all es svc).filters h ≡ chain svc.filters (chain (unlimited es) h)
chain-use_all es svc h =
    ap (λ fs. chain fs h) (use_all-filters es svc) ∙ chain-append svc.filters (unlimited es) h

internal_server_error-status_sent :
    (r : Response)
    → status_sent (internal_server_error (net r)) ≡ some (get_or (first_of r.sent) 500)
unfolding internal_server_error writer_header with_writer_header writer_write_header writer_write
    Response.write_header Response.write
internal_server_error-status_sent r = ground arith

-- After a handler that has panicked, the status that the client gets is the one that the handler had
-- sent, or 500 if it had sent none, and the context that goes back to the pool is a freed one.
pub finish-panicked :
    (m : Text) (c : Context) (r : Response)
    → c.writer ≡ net r
    → (status_sent (finish (panicked m c)).0 ≡ some (get_or (status_sent c.writer) 500))
      × ((finish (panicked m c)).1 ≡ free c)
unfolding finish
finish-panicked m c r h = (rw h (internal_server_error-status_sent r), refl)

-- The route that a resource adds has the handler that it is given, without any filter: neither those
-- of the route nor those of the resource have an effect.
pub route-unfiltered :
    (compile : Text → Option Regexp) (i : ℕ) (r : Resource) (method path : Text) (h : RouteHandler)
    (filters : List Filter) (svc : Service)
    → route compile i r method path h filters svc
      ≡ route compile i (record r { filters = [] }) method path h [] svc
unfolding route
route-unfiltered compile i r method path h filters svc = refl
