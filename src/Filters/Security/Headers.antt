-- ===== src/Filters/Security/Headers.antt =====
-- The headers that the filter security sets.
use go_relax.Base.{
  String, ◌⊎◌, not, ◌&&◌, ◌||◌, none, if◌then◌else◌, ◌≡◌, refl, arith, inl, inr, Bool-cases, true,
  false,
}
use go_relax.Text.{Text, codes, text_eq}
use go_relax.Http.Header
use go_relax.Http.Response.{Response}
use go_relax.Context.{
  Context, HandlerFunc, net, header, set_header, with_header, writer_header, with_writer_header,
  error,
}
use go_relax.Util.{is_request_ssl}
use go_relax.Filters.Security.{Security, with_defaults, is_refused_agent, secure_headers, run}

-- The value of a header in a context.
abbrev pub value_of : String → Context → Text
value_of key c = Header.get (header c) (codes key)

-- Each header is set unless it is disabled; the one for transport only over TLS, and Pragma only next
-- to Cache-Control.
pub record IsSecured (f : Security) (c c' : Context) : Type 0 where
  pub request : c'.request ≡ c.request
  pub sniffing :
      value_of "X-Content-Type-Options" c'
      ≡ (if f.xcto_disable then value_of "X-Content-Type-Options" c else codes "nosniff")
  pub frames :
      value_of "X-Frame-Options" c'
      ≡ (if f.x_frame_disable then value_of "X-Frame-Options" c else f.x_frame_options)
  pub transport : value_of "Strict-Transport-Security" c' ≡ (
      if not f.hsts_disable && is_request_ssl c.request
      then f.hsts_options
      else value_of "Strict-Transport-Security" c)
  pub caching :
      value_of "Cache-Control" c'
      ≡ (if f.cache_disable then value_of "Cache-Control" c else f.cache_options)
  pub pragma :
      value_of "Pragma" c'
      ≡ (if f.cache_disable || f.pragma_disable then value_of "Pragma" c else codes "no-cache")

secure_headers-IsSecured :
    (f : Security) (c : Context) (r : Response)
    → c.writer ≡ net r
    → IsSecured f c (secure_headers f c)
unfolding secure_headers set_header header with_header writer_header with_writer_header Header.get
    Header.set Header.canonical codes text_eq
secure_headers-IsSecured f c r w = record {
  request = ground (arith, w);
  sniffing = ground (arith, w);
  frames = ground (arith, w);
  transport = ground (arith, w);
  caching = ground (arith, w);
  pragma = ground (arith, w);
}

-- A request without a user agent, or with the default one of Go, is refused with 403, unless the check is
-- disabled; any other one is given to the handler in a context with the request and the headers of the
-- filter, where its defaults stand for what is not set. The writer is that of a server.
pub run-IsSecured :
    (f : Security) (next : HandlerFunc) (c : Context) (r : Response)
    → c.writer ≡ net r
    → ((not f.ua_check_disable && is_refused_agent c.request ≡ true)
        × (run f next c ≡ error 403 (with_defaults f).ua_check_err_msg none c))
      ⊎ ((not f.ua_check_disable && is_refused_agent c.request ≡ false)
          × (c' : Context) × IsSecured (with_defaults f) c c'
          × (run f next c ≡ next c'))
unfolding run
run-IsSecured f next c r w =
    elim (Bool-cases (not f.ua_check_disable && is_refused_agent c.request)) [
      | inl refused ↦ inl (refused, rw (refused, run) refl)
      | inr allowed ↦ inr (
        allowed,
        secure_headers (with_defaults f) c,
        secure_headers-IsSecured (with_defaults f) c r w,
        rw (allowed, run) refl,
      )
    ]
