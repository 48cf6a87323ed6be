-- ===== src/Filters/Cors.antt =====
-- filter/cors/cors.go: cross-origin requests. The package regexp, `url.ParseRequestURI` and the
-- library go-strarr are parameters; the global list of compiled origins is an argument.
pub mod Origin
pub mod Access
pub mod Shared
use go_relax.Base.{
  ℕ, suc, ℤ, pos, is_zero, Bool, true, not, ◌&&◌, ◌||◌, Option, none, some, String, List, [], ◌∷◌,
  ◌++◌, ◌==◌, if◌then◌else◌, length, any, get_or,
}
use go_relax.Text.{
  Text, codes, text_eq, is_empty, has_prefix, has_byte, split, join, to_lower, to_upper, trim_space,
  itoa,
}
use go_relax.Http.Header
use go_relax.Http.Header.{Header, canonical, no_header, copy_into}
use go_relax.Context.{
  Context, HandlerFunc, returned, text, flag, set, with_header, set_header, write_header, error,
}

-- What is used of go-strarr
pub record Strarr : Type 0 where
  pub contains : List Text → Text → Bool
  pub diff : List Text → List Text → List Text
  pub map : (Text → Text) → List Text → List Text

-- The host, the path and the scheme of a URI, or an error.
pub data ParsedUri : Type 0 where
  parsed_uri : Text → Text → Text → ParsedUri
  bad_uri : Text → ParsedUri

pub record Web : Type 0 where
  pub strarr : Strarr
  pub compile : Text → Option (Text → Bool)
  pub parse_request_uri : Text → ParsedUri

-- The lists are `none` where the source has nil.
pub record Cors : Type 0 where
  pub allow_origin : Option (List Text)
  pub allow_any_origin : Bool
  pub allow_methods : Option (List Text)
  pub allow_headers : Option (List Text)
  pub allow_credentials : Bool
  pub expose_headers : Option (List Text)
  pub max_age : ℤ
  pub strict : Bool

abbrev texts_of : List String → List Text
texts_of [] = []
texts_of (s ∷ ss) = codes s ∷ texts_of ss

abbrev pub simple_methods : List Text
simple_methods = texts_of ("GET" ∷ "HEAD" ∷ "POST" ∷ [])

abbrev simple_headers : List Text
simple_headers = texts_of (
    "Cache-Control" ∷ "Content-Language" ∷ "Content-Type" ∷ "Expires" ∷ "Last-Modified" ∷ "Pragma"
    ∷ [])

abbrev allow_methods_default : List Text
allow_methods_default = texts_of ("GET" ∷ "POST" ∷ "PATCH" ∷ "PUT" ∷ "DELETE" ∷ [])

abbrev allow_headers_default : List Text
allow_headers_default = texts_of (
    "Authorization" ∷ "Content-Type" ∷ "If-Match" ∷ "If-Modified-Since" ∷ "If-None-Match"
    ∷ "If-Unmodified-Since" ∷ "X-Requested-With" ∷ [])

abbrev expose_headers_default : List Text
expose_headers_default = texts_of (
    "Etag" ∷ "Link" ∷ "RateLimit-Limit" ∷ "RateLimit-Remaining" ∷ "RateLimit-Reset"
    ∷ "X-Poll-Interval" ∷ [])

-- The first part of Run: defaults, and the spelling of methods and headers.
unfoldable pub with_defaults : Strarr → Cors → Cors
unfolding codes to_upper canonical
with_defaults a f = record f {
  allow_methods = some (a.map to_upper (get_or f.allow_methods allow_methods_default));
  allow_headers = some (a.map canonical (get_or f.allow_headers allow_headers_default));
  expose_headers =
      some
        (a.map canonical (a.diff (get_or f.expose_headers expose_headers_default) simple_headers));
  max_age = if is_zero f.max_age then pos 86400 else f.max_age;
}

-- regexp.QuoteMeta
quote_meta : Text → Text
unfolding codes
quote_meta [] = []
quote_meta (c ∷ s) =
    if has_byte c (codes "\\.+*?()|[]{}^$") then b'\\' ∷ c ∷ quote_meta s else c ∷ quote_meta s

-- strings.Replace s "xy" new -1
replace_pair : ℕ → ℕ → Text → Text → Text
replace_pair x y new [] = []
replace_pair x y new (c ∷ []) = c ∷ []
replace_pair x y new (c ∷ d ∷ s) =
    let done = new ++ replace_pair x y new s in
    let kept = c ∷ replace_pair x y new (d ∷ s) in if c == x && d == y then done else kept

-- strings.Replace s "x" new -1
replace_byte : ℕ → Text → Text → Text
replace_byte x new [] = []
replace_byte x new (c ∷ s) =
    if c == x then new ++ replace_byte x new s else c ∷ replace_byte x new s

-- The expression for an origin with wildcards.
unfoldable pub origin_pattern : Text → Text
unfolding quote_meta replace_pair replace_byte to_lower codes
origin_pattern v =
    let s0 = quote_meta (to_lower v) in
    let s1 = replace_pair b'\\' b'+' (codes ".+") s0 in
    let s2 = replace_pair b'\\' b'*' (codes ".*") s1 in
    let s3 = replace_pair b'\\' b'?' (codes ".") s2 in replace_byte b'_' (codes ".?") s3

-- The loop that appends to the global list; `none` is the panic of MustCompile.
unfoldable pub compile_origins :
    (Text → Option (Text → Bool)) → List Text → List (Text → Bool) → Option (List (Text → Bool))
unfolding origin_pattern
compile_origins compile [] known = some known
compile_origins compile (v ∷ vs) known = elim (compile (origin_pattern v)) [
  | none ↦ none
  | some re ↦ compile_origins compile vs (known ++ re ∷ [])
]

unfoldable pub is_origin_allowed : List (Text → Bool) → Text → Bool
is_origin_allowed known origin = any (λ re. re origin) known

unfoldable pub cors_headers : Cors → Text → Header
unfolding Header.set Header.add codes
cors_headers f origin =
    let allow = codes "Access-Control-Allow-Origin" in
    if f.allow_credentials
    then Header.add (codes "Vary") (codes "Origin") (
        Header.set (codes "Access-Control-Allow-Credentials") (codes "true")
          (Header.set allow origin no_header))
    else if f.strict
    then elim f.allow_origin [
      | none ↦ Header.set allow (codes "null") no_header
      | some origins ↦
          Header.add (codes "Vary") (codes "Origin") (Header.set allow origin no_header)
    ]
    else Header.set allow (codes "*") no_header

abbrev set_max_age : ℤ → Header → Header
set_max_age (pos (suc n)) h = Header.set (codes "Access-Control-Max-Age") (itoa (suc n)) h
set_max_age _ h = h

abbrev set_list : String → Option (List Text) → Header → Header
set_list key none h = h
set_list key (some vs) h = Header.set (codes key) (join vs (codes ", ")) h

-- The headers of the answer to a preflight request, or the status and the message of an error.
pub data Preflight : Type 0 where
  granted : Header → Preflight
  denied : ℕ → Text → Preflight

-- The test of the headers that are asked for
unfoldable pub headers_denied : Strarr → List Text → Text → Bool
unfolding split trim_space
headers_denied a allowed rheaders =
    not (is_empty rheaders) && length (a.diff (a.map trim_space (split rheaders b',')) allowed) == 0

unfoldable pub handle_preflight_request : Strarr → Cors → Text → Text → Text → Preflight
unfolding headers_denied cors_headers Header.set codes join itoa
handle_preflight_request a f origin rmethod rheaders =
    if not (a.contains simple_methods rmethod)
      && not (a.contains (get_or f.allow_methods []) rmethod)
    then denied 405 (codes "Invalid method in preflight")
    else if headers_denied a (get_or f.allow_headers []) rheaders
    then denied 403 (codes "Invalid header in preflight")
    else let h1 = set_max_age f.max_age (cors_headers f origin) in
      let h2 = set_list "Access-Control-Allow-Methods" f.allow_methods h1 in
      let h3 = set_list "Access-Control-Allow-Headers" f.allow_headers h2 in
      granted (Header.set (codes "Content-Length") (codes "0") h3)

abbrev set_exposed : List Text → Header → Header
set_exposed [] h = h
set_exposed (v ∷ vs) h =
    Header.set (codes "Access-Control-Expose-Headers") (join (v ∷ vs) (codes ", ")) h

unfoldable pub handle_simple_request : Cors → Text → Header
unfolding cors_headers Header.set codes join
handle_simple_request f origin = set_exposed (get_or f.expose_headers []) (cors_headers f origin)

abbrev copy_headers : Header → Context → Context
copy_headers h c = with_header (λ to. copy_into to h) c

abbrev preflight_answer : Cors → Preflight → HandlerFunc
preflight_answer f (granted h) c = returned (write_header 204 (copy_headers h c))
preflight_answer f (denied code message) c = error code message none (
    if code == 405 then set_header "Allow" (join (get_or f.allow_methods []) (codes ", ")) c else c)

-- A request from an origin that is allowed and sane.
unfoldable pub cross_origin : Strarr → Cors → Text → HandlerFunc → HandlerFunc
unfolding handle_preflight_request handle_simple_request with_header copy_into write_header error
    set_header set Header.get text_eq codes join
cross_origin a f origin next c =
    let request_header = λ (key : String). Header.get c.request.header (codes key) in
    let rmethod = request_header "Access-Control-Request-Method" in
    if text_eq c.request.method (codes "OPTIONS") && not (is_empty rmethod)
    then preflight_answer f
        (handle_preflight_request a f origin rmethod
          (request_header "Access-Control-Request-Headers"))
        c
    else next (
        set (codes "cors.origin") (text origin) (
          set (codes "cors.request") (flag true) (copy_headers (handle_simple_request f origin) c)))

-- The checks of a strict filter on an origin: the message of the error.
unfoldable pub strict_error : (Text → ParsedUri) → Text → Text → Option Text
unfolding text_eq codes has_prefix
strict_error parse host origin = elim (parse origin) [
  | bad_uri err ↦ some err
  | parsed_uri u_host u_path u_scheme ↦
      if text_eq host u_host || not (is_empty u_path) || not (has_prefix u_scheme (codes "http"))
      then some (codes "Invalid CORS origin syntax")
      else none
]

abbrev strict_checks : Web → Cors → Text → HandlerFunc → HandlerFunc
strict_checks w f origin go c = elim (strict_error w.parse_request_uri c.request.host origin) [
  | some err ↦ error 400 err none c
  | none ↦ go c
]

-- Run, for the global list as it is when the request is served.
unfoldable pub run : Web → List (Text → Bool) → Cors → HandlerFunc → HandlerFunc
unfolding with_defaults is_origin_allowed cross_origin strict_error error Header.get codes
run w known f next c =
    let g = with_defaults w.strarr f in
    let origin = Header.get c.request.header (codes "Origin") in
    let go = cross_origin w.strarr g origin next in
    if is_empty origin
    then next c
    else if not g.allow_any_origin && not (is_origin_allowed known origin)
    then (if g.strict then error 403 (codes "Invalid CORS origin") none c else next c)
    else if g.strict
    then strict_checks w g origin go c
    else go c
