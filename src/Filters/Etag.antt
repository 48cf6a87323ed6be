-- ===== src/Filters/Etag.antt =====
-- filter/etag/etag.go: entity tags and conditional requests. SHA-1 in hexadecimal and the parser of
-- HTTP dates are parameters; a date that does not parse is the zero time, `none`.
pub mod Body
pub mod Conditions
use go_relax.Base.{
  ℕ, Bool, false, not, ◌&&◌, ◌||◌, Option, none, some, String, [], ◌∷◌, ◌++◌, ltb, leb, ◌==◌,
  if◌then◌else◌, any,
}
use go_relax.Text.{Text, codes, text_eq, is_empty, has_prefix, contains, split, trim, trim_space}
use go_relax.Http.Header
use go_relax.Http.Request.{Request}
use go_relax.ResponseBuffer
use go_relax.ResponseBuffer.{
  ResponseBuffer, zero_buffer, new_response_buffer, status_of, reset, free, flush,
}
use go_relax.Context.{
  Context, Writer, net, buffered, closed, Outcome, HandlerFunc, returned, panicked, header,
  write_header, clone, context_sink,
}

pub record Tagging : Type 0 where
  pub sha1_hex : Text → Text
  pub parse_time : Text → Option ℕ

unfoldable pub etag_strong_cmp : Text → Text → Bool
unfolding has_prefix codes split trim_space text_eq
etag_strong_cmp etags etag =
    if is_empty etag || has_prefix etag (codes "W/")
    then false
    else any (λ v. text_eq (trim_space v) etag) (split etags b',')

unfoldable pub etag_weak_cmp : Text → Text → Bool
unfolding contains trim
etag_weak_cmp etags etag =
    if is_empty etag then false else contains etags (trim (λ c. c == b'"') etag)

unfoldable pub is_etag_method : Text → Bool
unfolding text_eq codes
is_etag_method m = text_eq m (codes "GET") || text_eq m (codes "HEAD")

abbrev buffer_header : ResponseBuffer → String → Text
buffer_header rb key = Header.get rb.header (codes key)

abbrev set_buffer_header : String → Text → ResponseBuffer → ResponseBuffer
set_buffer_header key v rb = record rb { header = Header.set (codes key) v rb.header }

abbrev add_buffer_header : String → String → ResponseBuffer → ResponseBuffer
add_buffer_header key v rb = record rb { header = Header.add (codes key) (codes v) rb.header }

abbrev pub request_header : Request → String → Text
request_header r key = Header.get r.header (codes key)

-- The responses that are left alone
unfoldable pub is_passed_over : Request → ResponseBuffer → Bool
unfolding status_of contains codes
is_passed_over r rb =
    ltb (status_of rb) 200
    || status_of rb == 204
    || (ltb 299 (status_of rb) && not (status_of rb == 412))
    || not (contains (codes "DELETE GET HEAD PATCH POST PUT") r.method)

-- The tag of a response: the one that it has, or one made of its content.
unfoldable pub entity_tag : Tagging → Request → ResponseBuffer → Text
unfolding is_etag_method status_of Header.get codes
entity_tag t r rb =
    let etag = buffer_header rb "ETag" in
    let ce = buffer_header rb "Content-Encoding" in
    let alter = if is_empty ce then [] else b'-' ∷ ce in
    if is_etag_method r.method && status_of rb == 200 && is_empty etag
    then b'"' ∷ t.sha1_hex rb.buffer ++ alter ++ b'"' ∷ []
    else etag

-- What the conditions of a request come to.
pub data Verdict : Type 0 where
  proceed : Verdict
  failed : Verdict
  not_modified : Verdict
  not_modified_since : Verdict

unfoldable pub if_match_fails : Request → Text → Bool
unfolding etag_strong_cmp text_eq Header.get codes
if_match_fails r etag =
    let ifmatch = request_header r "If-Match" in
    not (is_empty ifmatch)
    && ((text_eq ifmatch (codes "*") && is_empty etag) || not (etag_strong_cmp ifmatch etag))

-- A test on the dates of a request header and of Last-Modified, where both are there.
abbrev dates : (ℕ → ℕ → Bool) → Option ℕ → Option ℕ → Bool
dates test none lastmod = false
dates test (some modtime) none = false
dates test (some modtime) (some lastmod) = test modtime lastmod

unfoldable pub if_unmodified_fails : Tagging → Request → ResponseBuffer → Bool
unfolding Header.get codes
if_unmodified_fails t r rb =
    is_empty (request_header r "If-Match")
    && not (is_empty (request_header r "If-Unmodified-Since"))
    && dates ltb (t.parse_time (request_header r "If-Unmodified-Since"))
        (t.parse_time (buffer_header rb "Last-Modified"))

unfoldable pub if_none_match_holds : Request → Text → Bool
unfolding etag_weak_cmp text_eq Header.get codes
if_none_match_holds r etag =
    let ifnone = request_header r "If-None-Match" in
    not (is_empty ifnone)
    && ((text_eq ifnone (codes "*") && not (is_empty etag)) || etag_weak_cmp ifnone etag)

-- Before or equal
unfoldable pub if_modified_holds : Tagging → Request → ResponseBuffer → Bool
unfolding is_etag_method Header.get codes
if_modified_holds t r rb =
    is_empty (request_header r "If-None-Match")
    && not (is_empty (request_header r "If-Modified-Since"))
    && not (is_etag_method r.method)
    && dates (λ modtime lastmod. leb lastmod modtime)
        (t.parse_time (request_header r "If-Modified-Since"))
        (t.parse_time (buffer_header rb "Last-Modified"))

-- The conditions in the order of the source
unfoldable pub verdict : Tagging → Bool → Request → ResponseBuffer → Text → Verdict
unfolding if_match_fails if_unmodified_fails if_none_match_holds if_modified_holds is_etag_method
verdict t disabled r rb etag =
    if disabled
    then proceed
    else if if_match_fails r etag
    then failed
    else if if_unmodified_fails t r rb
    then failed
    else if if_none_match_holds r etag
    then (if is_etag_method r.method then not_modified else failed)
    else if if_modified_holds t r rb
    then not_modified_since
    else proceed

abbrev tag_buffer : Text → ResponseBuffer → ResponseBuffer
tag_buffer etag rb = add_buffer_header "Vary" "If-None-Match" (set_buffer_header "ETag" etag rb)

abbrev tag_if_any : Text → ResponseBuffer → ResponseBuffer
tag_if_any [] rb = rb
tag_if_any (c ∷ s) rb = tag_buffer (c ∷ s) rb

abbrev send_buffer : ResponseBuffer → Context → Context
send_buffer rb c = (flush context_sink rb c).1

-- What is sent: the deferred flush comes last on every way out, behind a `Free` where the
-- precondition has failed.
unfoldable pub conclude : Verdict → Text → ResponseBuffer → Context → Context
unfolding Header.set Header.add codes flush context_sink write_header free reset
    ResponseBuffer.write_header
conclude proceed etag rb c = send_buffer (tag_if_any etag rb) c
conclude failed etag rb c = send_buffer (free rb) (write_header 412 c)
conclude not_modified etag rb c =
    send_buffer (reset (ResponseBuffer.write_header 304 (tag_buffer etag rb))) c
conclude not_modified_since etag rb c =
    send_buffer
      (reset (
        ResponseBuffer.write_header 304
          (add_buffer_header "Vary" "If-Modified-Since" (tag_if_any etag rb))))
      c

unfoldable pub tag_response : Tagging → Bool → ResponseBuffer → Context → Context
unfolding is_passed_over entity_tag verdict conclude
tag_response t disabled rb c =
    let etag = entity_tag t c.request rb in
    if is_passed_over c.request rb
    then conclude proceed [] rb c
    else conclude (verdict t disabled c.request rb etag) etag rb c

-- The buffer that a handler has written to.
abbrev pub buffer_of : Writer → ResponseBuffer
buffer_of (net r) = zero_buffer
buffer_of (buffered rb) = rb
buffer_of closed = zero_buffer

-- A handler that is called with a buffer in place of the writer; the request is shared.
abbrev pub after_buffered : (ResponseBuffer → Context → Outcome) → Context → Outcome → Outcome
after_buffered go c (returned c') = go (buffer_of c'.writer) (record c { request = c'.request })
after_buffered go c (panicked m c') = panicked m (record c { request = c'.request })

-- Run: `pooled` is what the pool of contexts hands out.
unfoldable pub run : Tagging → Bool → Context → HandlerFunc → HandlerFunc
unfolding tag_response clone new_response_buffer header
run t disabled pooled next c =
    after_buffered (λ rb c'. returned (tag_response t disabled rb c')) c
      (next (clone pooled (buffered (new_response_buffer zero_buffer (header c))) c))
