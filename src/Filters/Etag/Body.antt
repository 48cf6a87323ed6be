-- ===== src/Filters/Etag/Body.antt =====
-- What filter/etag/etag.go sends for each outcome of the conditions of a request.
use go_relax.Base.{◌&&◌, not, ℕ, Bool, true, false, [], ◌∷◌, ◌≡◌, if◌then◌else◌, arith}
use go_relax.Text.{Text}
use go_relax.ResponseBuffer.{ResponseBuffer, flush, flush_header, write_to, free, reset}
use go_relax.ResponseBuffer
use go_relax.Context.{Context, context_sink, write_header, write, status_of}
use go_relax.Filters.Etag.{Verdict, proceed, failed, not_modified, not_modified_since, conclude}

abbrev pub goes_on : Verdict → Bool
goes_on proceed = true
goes_on failed = false
goes_on not_modified = false
goes_on not_modified_since = false

abbrev pub is_failed : Verdict → Bool
is_failed proceed = false
is_failed failed = true
is_failed not_modified = false
is_failed not_modified_since = false

-- The status that an outcome is about, where the handler has set none.
abbrev pub status_for : Verdict → ℕ
status_for proceed = 200
status_for failed = 412
status_for not_modified = 304
status_for not_modified_since = 304

-- Where a condition stops a response, none of the content that the handler has written is sent.
pub conclude-bytes :
    (v : Verdict) (etag : Text) (rb : ResponseBuffer) (c : Context)
    → goes_on v ≡ false
    → (conclude v etag rb c).bytes ≡ c.bytes
unfolding conclude flush flush_header write_to write_header free reset context_sink
conclude-bytes proceed etag rb c h = absurd cc
conclude-bytes failed etag rb c h = ground arith
conclude-bytes not_modified etag rb c h = ground arith
conclude-bytes not_modified_since etag rb c h = ground arith

-- The status is that which was sent before, if one was; else 412 if the precondition has failed; else
-- the one that the handler has set, if it has set one, even where a 304 was wanted.
pub conclude-status_of :
    (v : Verdict) (etag : Text) (rb : ResponseBuffer) (c : Context)
    → status_of (conclude v etag rb c) ≡ (
        if c.wrote_header
        then c.status
        else if rb.wrote_header && not (is_failed v)
        then rb.status
        else status_for v)
unfolding conclude flush flush_header write_to write_header free reset context_sink status_of write
    ResponseBuffer.write_header
conclude-status_of proceed [] rb c = ground arith
conclude-status_of proceed (b ∷ s) rb c = ground arith
conclude-status_of failed etag rb c = ground arith
conclude-status_of not_modified etag rb c = ground arith
conclude-status_of not_modified_since [] rb c = ground arith
conclude-status_of not_modified_since (b ∷ s) rb c = ground arith
