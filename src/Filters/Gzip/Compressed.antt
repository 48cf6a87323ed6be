-- ===== src/Filters/Gzip/Compressed.antt =====
-- What filter/gzip/gzip.go sends where it compresses a response.
use go_relax.Base.{
  ℕ, true, false, none, some, [], ◌∷◌, ◌++◌, ◌==◌, ◌||◌, ◌≡◌, refl, inl, inr, Bool-cases, arith, ap,
  ◌∙◌,
}
use go_relax.Text.{Text, codes, text_eq, is_empty, contains}
use go_relax.Http.Header
use go_relax.Http.Header.{Header}
use go_relax.Http.Response.{Response}
use go_relax.Http.Response
use go_relax.ResponseBuffer.{ResponseBuffer, status_of, flush, flush_header, write_to, free}
use go_relax.Context.{
  Context, flag, header, with_header, writer_header, with_writer_header, net, context_sink,
  writer_sink, set, writer_write,
}
use go_relax.Filters.Gzip.{
  Gzip, compress, action, is_valid_level, gzip_tag, send_compressed, conclude,
}

-- Only a response with a status from 200 to 299, and not 204, is compressed.
action-status :
    (f : Gzip) (rb : ResponseBuffer)
    → action f rb ≡ compress
    → (status_of rb == 204 || status_of rb == 304) ≡ false
unfolding action
action-status f rb h = ground arith

-- The result of the compression: the content, with a header that says so.
pub record IsCompressed (deflate : Text → Text) (rb : ResponseBuffer) (r r' : Response)
    : Type 0 where
  pub content : r'.body ≡ r.body ++ deflate rb.buffer
  pub header : Header
  pub sent : r'.sent ≡ some (status_of rb, header)
  pub encoded :
      Header.values header (codes "Content-Encoding")
      ≡ Header.values rb.header (codes "Content-Encoding") ++ codes "gzip" ∷ []

abbrev encoding : Text
encoding = Header.canonical (codes "Content-Encoding")

-- The tag is another header.
gzip_tag-encoding : (rb : ResponseBuffer) → (gzip_tag rb).header encoding ≡ rb.header encoding
unfolding gzip_tag Header.set Header.canonical text_eq codes
gzip_tag-encoding rb =
    let etag = Header.get rb.header (codes "ETag") in
    elim (Bool-cases (is_empty etag || contains etag (codes "gzip"))) [
      | inl kept ↦ rw kept refl
      | inr changed ↦ rw changed refl
    ]

abbrev marked : ResponseBuffer → ResponseBuffer
marked rb = record rb { header = Header.add (codes "Content-Encoding") (codes "gzip") rb.header }

-- The headers that are sent.
abbrev sent_header : ResponseBuffer → Response → Header
sent_header rb r = Header.copy_into r.header (gzip_tag (marked rb)).header

gzip_tag-wrote_header : (rb : ResponseBuffer) → (gzip_tag rb).wrote_header ≡ rb.wrote_header
unfolding gzip_tag
gzip_tag-wrote_header rb = ground arith

gzip_tag-status : (rb : ResponseBuffer) → (gzip_tag rb).status ≡ rb.status
unfolding gzip_tag
gzip_tag-status rb = ground arith

-- A buffer whose headers are flushed to a new response, and a text that is written behind them.
abbrev delivered : Header → ℕ → Text → Response → Response
delivered h code z r = record { header = h; sent = some (code, h); body = r.body ++ z }

write-flush_header :
    (rb : ResponseBuffer) (z : Text) (r : Response)
    → r.sent ≡ none
    → (status_of rb == 204 || status_of rb == 304) ≡ false
    → (writer_write z (flush_header writer_sink rb (net r))).0
      ≡ net (delivered (Header.copy_into r.header rb.header) (status_of rb) z r)
unfolding flush_header writer_sink writer_write Response.write Response.write_header status_of
write-flush_header rb z r unsent allows = elim (Bool-cases rb.wrote_header) [
  | inl given ↦
      let ok : (rb.status == 204 || rb.status == 304) ≡ false = rw given at allows in
      rw (given, unsent, ok) refl
  | inr default ↦ rw (default, unsent) refl
]

status_of-gzip_tag : (rb : ResponseBuffer) → status_of (gzip_tag (marked rb)) ≡ status_of rb
unfolding status_of
status_of-gzip_tag rb =
    ground (arith, gzip_tag-wrote_header (marked rb), gzip_tag-status (marked rb))

send_compressed-writer :
    (deflate : Text → Text) (rb : ResponseBuffer) (c : Context) (r : Response)
    → c.writer ≡ net r
    → r.sent ≡ none
    → (status_of rb == 204 || status_of rb == 304) ≡ false
    → (send_compressed deflate rb c).writer
      ≡ net (delivered (sent_header rb r) (status_of rb) (deflate rb.buffer) r)
unfolding send_compressed
send_compressed-writer deflate rb c r w unsent allows =
    let same = status_of-gzip_tag rb in
    let law =
      write-flush_header (gzip_tag (marked rb)) (deflate rb.buffer) r unsent (rw same allows) in
    rw w (law ∙ ap (λ n. net (delivered (sent_header rb r) n (deflate rb.buffer) r)) same)

send_compressed-bytes :
    (deflate : Text → Text) (rb : ResponseBuffer) (c : Context)
    → (send_compressed deflate rb c).bytes ≡ c.bytes
unfolding send_compressed
send_compressed-bytes deflate rb c = refl

sent_header-values :
    (rb : ResponseBuffer) (r : Response)
    → Header.values (sent_header rb r) (codes "Content-Encoding")
      ≡ Header.values rb.header (codes "Content-Encoding") ++ codes "gzip" ∷ []
unfolding Header.values Header.copy_into Header.add Header.canonical text_eq codes
sent_header-values rb r = rw (gzip_tag-encoding (marked rb)) refl

-- Where the filter compresses a response of a server that has sent nothing, the body is the compressed
-- content, the status is that of the handler, and the headers that are sent have the encoding gzip
-- behind the encodings that the handler has set. The bytes are not counted in the context.
pub conclude-IsCompressed :
    (deflate : Text → Text) (f : Gzip) (rb : ResponseBuffer) (c : Context) (r : Response)
    → c.writer ≡ net r
    → r.sent ≡ none
    → action f rb ≡ compress
    → is_valid_level f.compression_level ≡ true
    → (r' : Response) × ((conclude deflate f compress rb c).writer ≡ net r')
      × IsCompressed deflate rb r r'
      × ((conclude deflate f compress rb c).bytes ≡ c.bytes)
unfolding conclude flush flush_header write_to free context_sink set with_header writer_header
    with_writer_header header
conclude-IsCompressed deflate f rb c r w unsent acts valid =
    let c1 = set (codes "content.gzip") (flag true) c in
    let law = send_compressed-writer deflate rb c1 r w unsent (action-status f rb acts) in
    (
      delivered (sent_header rb r) (status_of rb) (deflate rb.buffer) r,
      rw (valid, law) refl,
      record {
        content = refl;
        header = sent_header rb r;
        sent = refl;
        encoded = sent_header-values rb r;
      },
      rw valid (send_compressed-bytes deflate rb c1),
    )
