-- ===== src/Service/Dispatch.antt =====
-- `dispatch` and `Adapter` of service.go: the way of a request through the filters to its handler.
use go_relax.Base.{ℕ, true, none, some, List, [], ◌∷◌, ◌++◌, map, get_or}
use go_relax.Text.{Text, codes}
use go_relax.Http.Header
use go_relax.Http.Request.{Request}
use go_relax.Context.{
  Context, Writer, Value, Outcome, HandlerFunc, returned, panicked, text, time, new_context, free,
  set, set_header, error, writer_header, with_writer_header, writer_write_header, writer_write,
}
use go_relax.Router.Find.{
  Found, found, route_not_found, route_bad_method, find_handler, path_methods,
}
use go_relax.Util.{Quality, Prefs, new_request_id}
use go_relax.Encoder.{Encoder}
use go_relax.Content.{Defaults, Mime, content, find_encoder}
use go_relax.Service.{View, RouteHandler, Filter, Resource, Service, resource_path}

-- What handlers see of the service while they serve a request.
unfoldable pub view_of : Encoder → Service → View
unfolding resource_path path_methods
view_of json svc = record {
  path_methods = path_methods svc.router;
  resources =
      map
        (λ (r : Resource). record {
          name = r.name;
          path = resource_path svc r true;
          links = r.links;
        })
        svc.resources;
  path = svc.path;
  uri_string = svc.uri_string;
  json_accept = json.accept;
}

abbrev cache_control : Context → Context
cache_control = set_header "Cache-Control" (codes "max-age=300, stale-if-error=600")

unfoldable pub dispatch_found : View → Found RouteHandler → HandlerFunc
unfolding set_header codes error
dispatch_found view (found h) c = h view c
dispatch_found view route_not_found c =
    error 404 (codes "That route was not found.") none (cache_control c)
dispatch_found view route_bad_method c =
    error 405 (codes "That method is not supported") none
      (set_header "Allow" (view.path_methods c.request.path) (cache_control c))

unfoldable pub dispatch : Encoder → Service → HandlerFunc
unfolding view_of find_handler dispatch_found
dispatch json svc c =
    let (f, vs) = find_handler svc.router c.request.method c.request.path (some c.path_values) in
    dispatch_found (view_of json svc) f (record c { path_values = get_or vs none })

-- The filters of the service around a handler, the first one outermost.
unfoldable pub chain : List Filter → HandlerFunc → HandlerFunc
chain [] h = h
chain (f ∷ fs) h = f.run (chain fs h)

-- `http.Error` on the writer of the server, with status 500: the recovery of a panic.
unfoldable pub internal_server_error : Writer → Writer
unfolding codes writer_header with_writer_header writer_write_header writer_write Header.set
internal_server_error w =
    let h1 =
      Header.set (codes "Content-Type") (codes "text/plain; charset=utf-8") (writer_header w) in
    let h2 = Header.set (codes "X-Content-Type-Options") (codes "nosniff") h1 in
    let w' = writer_write_header 500 (with_writer_header h2 w) in
    (writer_write (codes "Internal Server Error" ++ 10 ∷ []) w').0

-- A panic is recovered on the writer as the handlers have left it. The context is freed either way.
unfoldable pub finish : Outcome → Writer × Context
unfolding internal_server_error free
finish (returned c) = (c.writer, free c)
finish (panicked m c) = (internal_server_error c.writer, free c)

-- What a request meets besides the service: the clock, a new UUID, a pooled context and the parent's
-- values.
pub record Arrival : Type 0 where
  pub now : ℕ
  pub uuid : Text
  pub pooled : Context
  pub parent : List (Text × Value)

-- serverVersion of service.go, with Version of doc.go
abbrev server_version : Text
server_version = codes "Go-Relax/1.0.0"

-- The context of a request, with its identifier and the default headers.
unfoldable pub begin : Arrival → Writer → Request → Context
unfolding new_context new_request_id Header.get set set_header codes
begin a w r =
    let id = new_request_id a.uuid (Header.get r.header (codes "Request-Id")) in
    let c1 = set (codes "request.start_time") (time a.now) (new_context a.pooled a.parent w r) in
    let c2 = set (codes "request.id") (text id) c1 in
    set_header "Request-Id" id (set_header "Server" server_version c2)

-- The handler of a service: its filters around the dispatch, behind content negotiation. A service
-- without an encoder for JSON panics at each request.
unfoldable pub serve :
    (q : Quality) (d : Defaults) (mime : Mime) (order : Prefs q → Prefs q) → Service → HandlerFunc
serve q d mime order svc c = elim (find_encoder (codes "application/json") svc.encoders) [
  | none ↦ panicked [] c
  | some json ↦ content q d mime order svc.encoders json (chain svc.filters (dispatch json svc)) c
]

-- Adapter: the response to a request, and the context that goes back to the pool.
unfoldable pub adapter :
    (q : Quality) (d : Defaults) (mime : Mime) (order : Prefs q → Prefs q)
    → Service
    → Arrival
    → Writer
    → Request
    → Writer × Context
adapter q d mime order svc a w r = finish (serve q d mime order svc (begin a w r))
