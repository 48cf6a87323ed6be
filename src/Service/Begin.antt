-- ===== src/Service/Begin.antt =====
-- The identifier of a request in `Adapter` of service.go.
use go_relax.Base.{some, ◌≡◌, refl}
use go_relax.Text.{codes, text_eq}
use go_relax.Http.Header
use go_relax.Http.Request.{Request}
use go_relax.Http.Response.{Response}
use go_relax.Context.{
  net, text, get, find_value, set, header, writer_header, with_writer_header, set_header,
  with_header, new_context,
}
use go_relax.Util.{new_request_id}
use go_relax.Service.Dispatch.{Arrival, begin}

-- A response of the server starts with the identifier of the request in its headers, and handlers find
-- the same one in the context: it is that of the request's header, if that is accepted, or the new one.
pub begin-new_request_id :
    (a : Arrival) (r : Response) (q : Request)
    → (Header.get (header (begin a (net r) q)) (codes "Request-Id")
        ≡ new_request_id a.uuid (Header.get q.header (codes "Request-Id")))
      × (get (codes "request.id") (begin a (net r) q)
          ≡ some (text (new_request_id a.uuid (Header.get q.header (codes "Request-Id")))))
unfolding begin header set_header with_header new_context set get find_value writer_header
    with_writer_header text_eq
begin-new_request_id a r q = (refl, refl)
