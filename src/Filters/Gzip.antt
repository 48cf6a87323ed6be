-- ===== src/Filters/Gzip.antt =====
-- filter/gzip/gzip.go: compression of a response. The compressor is a parameter.
pub mod Compressed
use go_relax.Base.{
  ℕ, ℤ, pos, negsuc, Bool, true, false, not, ◌&&◌, ◌||◌, Option, none, some, ◌++◌, ltb, leb, ◌==◌,
  if◌then◌else◌, length, any, get_or, is_zero,
}
use go_relax.Http.Header
use go_relax.Text.{Text, codes, text_eq, is_empty, contains, trim_suffix}
use go_relax.Http.Request.{Request}
use go_relax.ResponseBuffer.{
  ResponseBuffer, zero_buffer, new_response_buffer, status_of, free, flush, flush_header,
}
use go_relax.Context.{
  Context, buffered, HandlerFunc, returned, flag, header, add_header, write_header, clone, set,
  context_sink, writer_sink, writer_write,
}
use go_relax.Util.{Quality, Prefs, pref, set_pref, parse_preferences}
use go_relax.Filters.Etag.{after_buffered}

pub record Gzip : Type 0 where
  pub compression_level : ℤ
  pub min_length : ℤ

-- Greater than gzip.BestCompression, which is 9
abbrev is_too_high : ℤ → Bool
is_too_high (pos n) = ltb 9 n
is_too_high (negsuc n) = false

-- The first lines of Run: gzip.BestSpeed is 1.
unfoldable pub with_defaults : Gzip → Gzip
with_defaults f = record {
  compression_level =
      if is_zero f.compression_level || is_too_high f.compression_level
      then pos 1
      else f.compression_level;
  min_length = if is_zero f.min_length then pos 100 else f.min_length;
}

-- gzip.NewWriterLevel accepts the levels from -2 to 9.
unfoldable pub is_valid_level : ℤ → Bool
is_valid_level (pos n) = leb n 9
is_valid_level (negsuc n) = leb n 1

abbrev shorter_than : ℕ → ℤ → Bool
shorter_than n (pos m) = ltb n m
shorter_than n (negsuc m) = false

module _ (q : Quality) where
  open q use {Q, zero_q, gt}

  abbrev with_x_gzip : Option Q → Prefs q → Prefs q
  with_x_gzip none prefs = prefs
  with_x_gzip (some x) prefs = set_pref q (codes "gzip") x prefs

  -- An encoding that the client likes better than gzip, where it lists more than one.
  unfoldable pub prefers_another : Text → Bool
  unfolding parse_preferences pref set_pref codes
  prefers_another encodings = elim (parse_preferences q encodings) [
    | none ↦ false
    | some prefs ↦
        let prefs' = with_x_gzip (pref q (codes "x-gzip") prefs) prefs in
        ltb 1 (length prefs)
        && any (λ e. gt e.1 (get_or (pref q (codes "gzip") prefs') zero_q)) prefs'
  ]

  -- The requests that are passed on as they are.
  unfoldable pub is_passed_on : Gzip → Request → Bool
  unfolding prefers_another contains codes text_eq Header.get
  is_passed_on f r =
      let encodings = Header.get r.header (codes "Accept-Encoding") in
      is_zero f.compression_level
      || not (contains encodings (codes "gzip") || text_eq encodings (codes "*"))
      || not (is_empty (Header.get r.header (codes "If-Range")))
      || prefers_another encodings

-- The cases of the switch
pub data Action : Type 0 where
  answer_not_modified : Action
  leave : Action
  compress : Action

unfoldable pub action : Gzip → ResponseBuffer → Action
unfolding status_of Header.get contains codes
action f rb =
    let s = status_of rb in
    if s == 304
    then answer_not_modified
    else if s == 204 || ltb 299 s || ltb s 200
    then leave
    else if not (is_empty (Header.get rb.header (codes "Content-Range")))
    then leave
    else if contains (Header.get rb.header (codes "Content-Encoding")) (codes "gzip")
    then leave
    else if shorter_than (length rb.buffer) f.min_length
    then leave
    else compress

-- The tag of a compressed response: the quote at the end goes behind "-gzip".
unfoldable pub gzip_tag : ResponseBuffer → ResponseBuffer
unfolding Header.get Header.set contains trim_suffix codes
gzip_tag rb =
    let etag = Header.get rb.header (codes "ETag") in
    if is_empty etag || contains etag (codes "gzip") then rb else record rb {
      header =
          Header.set (codes "ETag") (trim_suffix etag (codes "\"") ++ codes "-gzip\"") rb.header;
    }

-- The headers and the compressed content go to the writer itself, past the context.
unfoldable pub send_compressed : (Text → Text) → ResponseBuffer → Context → Context
unfolding Header.add flush_header writer_sink writer_write codes
send_compressed deflate rb c =
    let rb1 = record rb {
      header = Header.add (codes "Content-Encoding") (codes "gzip") rb.header;
    } in
    let w = flush_header writer_sink (gzip_tag rb1) c.writer in
    record c { writer = (writer_write (deflate rb.buffer) w).0 }

abbrev flush_to : ResponseBuffer → Context → Context
flush_to rb c = (flush context_sink rb c).1

-- The switch and the deferred flush. A writer that cannot be made leaves the response as it is.
unfoldable pub conclude : (Text → Text) → Gzip → Action → ResponseBuffer → Context → Context
unfolding flush context_sink write_header free is_valid_level set codes
conclude deflate f answer_not_modified rb c = flush_to rb (write_header 304 c)
conclude deflate f leave rb c = flush_to rb c
conclude deflate f compress rb c =
    if is_valid_level f.compression_level
    then flush_to (free rb) (send_compressed deflate rb (set (codes "content.gzip") (flag true) c))
    else flush_to rb c

-- Run
unfoldable pub run : Quality → (Text → Text) → Gzip → Context → HandlerFunc → HandlerFunc
unfolding with_defaults is_passed_on action conclude clone new_response_buffer header add_header
    codes
run q deflate f pooled next c0 =
    let g = with_defaults f in
    let c = add_header "Vary" (codes "Accept-Encoding") c0 in
    if is_passed_on q g c.request
    then next c
    else after_buffered (λ rb c'. returned (conclude deflate g (action g rb) rb c')) c
        (next (clone pooled (buffered (new_response_buffer zero_buffer (header c))) c))
