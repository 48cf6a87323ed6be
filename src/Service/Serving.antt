-- ===== src/Service/Serving.antt =====
-- The way of a request from the server to the handler of a route, through `Adapter` of service.go.
use go_relax.Base.{
  ℕ, false, Option, none, some, List, [], ◌++◌, ◌≡◌, refl, subst, ap, ◌∙◌, inl, inr, Option-cases,
  arith,
}
use go_relax.Text.{Text, codes, text_eq, to_upper}
use go_relax.Http.Header
use go_relax.Http.Request.{Request}
use go_relax.Http.Response.{Response}
use go_relax.Context.{
  Context, Values, HandlerFunc, Outcome, net, set, set_header, with_header, writer_header,
  with_writer_header, new_context,
}
use go_relax.Router.Segment.{Regexp}
use go_relax.Router.Trie.{add_route, route_segments}
use go_relax.Router.Literal.{IsPlain, AreLiteral}
use go_relax.Util.{Quality, Prefs}
use go_relax.Encoder.{Encoder}
use go_relax.Content.{Defaults, Mime, Encoders, find_encoder, content}
use go_relax.Content.Endings.{
  Ends, handled, unreadable, unacceptable, bad_payload, unsupported, panics,
}
use go_relax.Content.Outcomes.{wanted, requested, requested_method, content-Ends}
use go_relax.Service.{Service, Resource, Filter, RouteHandler}
use go_relax.Service.Resources.{route, relation_handler}
use go_relax.Service.Dispatch.{Arrival, view_of, dispatch, chain, begin, serve, finish, adapter}
use go_relax.Service.Routing.{dispatch-route}

-- A handler that is the same for the request ends in the same way.
retarget :
    (d : Defaults) (mime : Mime) (encoders : Encoders) (json : Encoder) (accept : Text)
    (q : Request) (next : HandlerFunc) (served : Option Values → HandlerFunc) (out : Outcome)
    → ((c : Context) → c.request ≡ q → (vs : Option Values) × (next c ≡ served vs c))
    → Ends d mime encoders json accept q next out
    → (vs : Option Values) × Ends d mime encoders json accept q (served vs) out
retarget d mime encoders json accept q next served out law (handled e c ch an de h) =
    let (vs, same) = law c an.asks in (vs, handled e c ch an de (h ∙ same))
retarget d mime encoders json accept q next served out law (unreadable err c v bad an h) =
    (none, unreadable err c v bad an h)
retarget d mime encoders json accept q next served out law (unacceptable sub c has missing an h) =
    (none, unacceptable sub c has missing an h)
retarget d mime encoders json accept q next served out law (bad_payload err e c ch an po bad h) =
    (none, bad_payload err e c ch an po bad h)
retarget d mime encoders json accept q next served out law
      (unsupported ct op e c ch an po parsed missing h) =
    (none, unsupported ct op e c ch an po parsed missing h)
retarget d mime encoders json accept q next served out law (panics e c ch empty h) =
    (none, panics e c ch empty h)

serve_unfiltered :
    (q : Quality) (d : Defaults) (mime : Mime) (order : Prefs q → Prefs q) (json : Encoder)
    (svc : Service) (c : Context)
    → svc.filters ≡ []
    → find_encoder (codes "application/json") svc.encoders ≡ some json
    → serve q d mime order svc c ≡ content q d mime order svc.encoders json (dispatch json svc) c
unfolding serve chain
serve_unfiltered q d mime order json svc c unfiltered json_there =
    rw (json_there, serve)
      (ap (λ fs. content q d mime order svc.encoders json (chain fs (dispatch json svc)) c)
        unfiltered)

module _ (compile : Text → Option Regexp) (i : ℕ) (r : Resource) (method path : Text)
    (h : RouteHandler) (filters : List Filter) where
  route_keeps :
      (svc svc' : Service)
      → route compile i r method path h filters svc ≡ some svc'
      → (svc'.filters ≡ svc.filters) × (svc'.encoders ≡ svc.encoders)
  unfolding route
  route_keeps svc svc' added =
      let p = r.path ++ codes "/" ++ path in
      elim (Option-cases
        (add_route compile (to_upper method) p (relation_handler i h) svc.router)) [
          | inl bad ↦ absurd (ground arith)
          | inr (router, made) ↦ (ground arith, ground arith)
        ]

  dispatch_routed :
      (json : Encoder) (svc svc' : Service) (c : Context)
      → IsPlain svc.router.root
      → AreLiteral (route_segments (to_upper method) (r.path ++ codes "/" ++ path))
      → text_eq (to_upper method) (codes "HEAD") ≡ false
      → route compile i r method path h filters svc ≡ some svc'
      → c.request.method ≡ to_upper method
      → c.request.path ≡ r.path ++ codes "/" ++ path
      → (vs : Option Values) × (dispatch json svc' c
          ≡ relation_handler i h (view_of json svc') (record c { path_values = vs }))
  dispatch_routed json svc svc' c plain literal not_head added same_method same_path =
      let (svc2, made, plain', law) =
        dispatch-route compile json i r method path h filters svc plain literal not_head in
      let same : svc2 ≡ svc' = cc in
      subst
        (λ x.
          (vs : Option Values) × (dispatch json x c
            ≡ relation_handler i h (view_of json x) (record c { path_values = vs })))
        same (law c same_method same_path)

  -- A request with the method of a route without expressions, and its path, perhaps with an extension
  -- that chooses the type: if the route was added by a resource of a service without expressions and
  -- without filters, the response is what the recovery of panics makes of an outcome of the content
  -- negotiation; and where that calls a handler, it is the one of the route, behind the one that adds
  -- the links of the resource, in a context for this request. The method is not HEAD, the service has
  -- an encoder for JSON, and the writer is that of a server.
  pub adapter-route :
      (q : Quality) (d : Defaults) (mime : Mime) (order : Prefs q → Prefs q) (json : Encoder)
      (svc svc' : Service) (a : Arrival) (response : Response) (request : Request)
      → IsPlain svc.router.root
      → AreLiteral (route_segments (to_upper method) (r.path ++ codes "/" ++ path))
      → text_eq (to_upper method) (codes "HEAD") ≡ false
      → svc.filters ≡ []
      → find_encoder (codes "application/json") svc.encoders ≡ some json
      → route compile i r method path h filters svc ≡ some svc'
      → request.method ≡ to_upper method
      → (requested (Header.get request.header (codes "Accept")) request).path
        ≡ r.path ++ codes "/" ++ path
      → (out : Outcome) × (vs : Option Values) × Ends d mime svc.encoders json
          (wanted d (Header.get request.header (codes "Accept")) request)
          (requested (Header.get request.header (codes "Accept")) request)
          (λ c. relation_handler i h (view_of json svc') (record c { path_values = vs }))
          out
        × (adapter q d mime order svc' a (net response) request ≡ finish out)
  unfolding adapter begin new_context set set_header with_header writer_header with_writer_header
  adapter-route q d mime order json svc svc' a response request plain literal not_head unfiltered
        json_there added same_method same_path =
      let accept = Header.get request.header (codes "Accept") in
      let target = requested accept request in
      let (filters_kept, encoders_kept) = route_keeps svc svc' added in
      let c = begin a (net response) request in
      let out = content q d mime order svc.encoders json (dispatch json svc') c in
      let ends : Ends d mime svc.encoders json (wanted d accept request) target (dispatch json svc')
          out =
        content-Ends q d mime order svc.encoders json (dispatch json svc') c _ refl in
      let (vs, served) =
        retarget d mime svc.encoders json (wanted d accept request) target (dispatch json svc')
          (λ vs c. relation_handler i h (view_of json svc') (record c { path_values = vs })) out
          (λ c' asks.
            dispatch_routed json svc svc' c' plain literal not_head added
              (ap (λ (x : Request). x.method) asks ∙ requested_method accept request ∙ same_method)
              (ap (λ (x : Request). x.path) asks ∙ same_path))
          ends in
      (
        out,
        vs,
        served,
        ap finish (
              serve_unfiltered q d mime order json svc' c (filters_kept ∙ unfiltered)
                (ap (λ e. find_encoder (codes "application/json") e) encoders_kept ∙ json_there))
            ∙ ap (λ e. finish (content q d mime order e json (dispatch json svc') c)) encoders_kept,
      )
