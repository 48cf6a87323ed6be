-- ===== src/Http/Request.antt =====
-- `http.Request`, with the parts of its `url.URL` and of its query that are read. What the server
-- has parsed (the query, the remote address, the state of TLS) is data of the request.
use go_relax.Base.{ℕ, Bool, Option}
use go_relax.Text.{Text}
use go_relax.Http.Header.{Header}

pub record Request : Type 0 where
  pub method : Text
  pub path : Text
  pub raw_query : Text
  pub request_uri : Text
  pub query : Text → Text
  pub user : Option Text
  pub scheme : Text
  pub tls : Bool
  pub header : Header
  pub host : Text
  pub remote_addr : Text
  pub proto : Text
  pub content_length : ℕ
  pub body : Text
