-- ===== src/Filters/Security.antt =====
-- filter/security/security.go: headers that tell clients how to treat a response, and a check of the
-- user agent.
pub mod Headers
use go_relax.Base.{Bool, not, ◌&&◌, ◌||◌, none, if◌then◌else◌}
use go_relax.Text.{Text, codes, text_eq, is_empty}
use go_relax.Http.Header
use go_relax.Http.Request.{Request}
use go_relax.Context.{Context, HandlerFunc, set_header, error}
use go_relax.Util.{is_request_ssl}
use go_relax.Filters.Override.{or_text}

pub record Security : Type 0 where
  pub ua_check_disable : Bool
  pub ua_check_err_msg : Text
  pub x_frame_disable : Bool
  pub x_frame_options : Text
  pub xcto_disable : Bool
  pub hsts_disable : Bool
  pub hsts_options : Text
  pub cache_disable : Bool
  pub cache_options : Text
  pub pragma_disable : Bool

-- The first lines of Run
unfoldable pub with_defaults : Security → Security
unfolding codes
with_defaults f = record f {
  ua_check_err_msg =
      or_text f.ua_check_err_msg
        "Request forbidden by security rules.\nPlease make sure your request has an User-Agent header.";
  x_frame_options = or_text f.x_frame_options "SAMEORIGIN";
  hsts_options = or_text f.hsts_options "max-age=31536000; includeSubDomains";
  cache_options = or_text f.cache_options "no-store, must-revalidate";
}

-- A user agent that is refused: none, or the default one of Go.
unfoldable pub is_refused_agent : Request → Bool
unfolding Header.get codes text_eq
is_refused_agent r =
    let ua = Header.get r.header (codes "User-Agent") in
    is_empty ua || text_eq ua (codes "Go 1.1 package http")

-- The headers that are set, each unless it is disabled.
unfoldable pub secure_headers : Security → Context → Context
unfolding set_header is_request_ssl codes
secure_headers f c =
    let c1 =
      if f.xcto_disable then c else set_header "X-Content-Type-Options" (codes "nosniff") c in
    let c2 = if f.x_frame_disable then c1 else set_header "X-Frame-Options" f.x_frame_options c1 in
    let c3 =
      if not f.hsts_disable && is_request_ssl c2.request
      then set_header "Strict-Transport-Security" f.hsts_options c2
      else c2 in
    if f.cache_disable
    then c3
    else let c4 = set_header "Cache-Control" f.cache_options c3 in
      if f.pragma_disable then c4 else set_header "Pragma" (codes "no-cache") c4

-- Run
unfoldable pub run : Security → HandlerFunc → HandlerFunc
unfolding with_defaults
run f next c =
    let g = with_defaults f in
    if not g.ua_check_disable && is_refused_agent c.request
    then error 403 g.ua_check_err_msg none c
    else next (secure_headers g c)
