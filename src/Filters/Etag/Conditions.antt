-- ===== src/Filters/Etag/Conditions.antt =====
-- What the comparisons of filter/etag/etag.go make of the headers If-Match and If-None-Match.
use go_relax.Base.{ℕ, Bool, true, false, if◌then◌else◌, [], ◌∷◌, ◌++◌, ◌≡◌, refl, ◌==◌, arith}
use go_relax.Text.{
  Text, codes, text_eq, is_empty, has_prefix, has_byte, contains, trim, trim_left, trim_right,
  split, trim_space,
}
use go_relax.Text.Laws.{text_eq_sym}
use go_relax.Http.Request.{Request}
use go_relax.ResponseBuffer.{ResponseBuffer}
use go_relax.Context.{Context, status_of}
use go_relax.Filters.Etag.{
  Tagging, request_header, is_etag_method, is_passed_over, entity_tag, etag_strong_cmp,
  etag_weak_cmp, if_match_fails, if_unmodified_fails, if_none_match_holds, verdict, failed,
  not_modified, tag_response,
}
use go_relax.Filters.Etag.Body.{conclude-bytes, conclude-status_of}

-- A star is an entry of the list of tags as any other text.
etag_strong_cmp-star :
    (etag : Text) → text_eq etag (codes "*") ≡ false → etag_strong_cmp (codes "*") etag ≡ false
unfolding etag_strong_cmp split trim_space codes
etag_strong_cmp-star etag h = ground (arith, text_eq_sym etag (codes "*"))

if_match_fails-star :
    (r : Request) (etag : Text)
    → request_header r "If-Match" ≡ codes "*"
    → text_eq etag (codes "*") ≡ false
    → if_match_fails r etag ≡ true
unfolding if_match_fails
if_match_fails-star r etag star h = ground (arith, etag_strong_cmp-star etag h)

-- The header "If-Match: *" stops every response with 412 that the filter does not pass over, and none
-- of its content is sent, whatever tag it has but a star; nothing was sent before.
pub tag_response-star :
    (t : Tagging) (rb : ResponseBuffer) (c : Context)
    → request_header c.request "If-Match" ≡ codes "*"
    → is_passed_over c.request rb ≡ false
    → text_eq (entity_tag t c.request rb) (codes "*") ≡ false
    → c.wrote_header ≡ false
    → (status_of (tag_response t false rb c) ≡ 412) × ((tag_response t false rb c).bytes ≡ c.bytes)
unfolding tag_response verdict
tag_response-star t rb c star looked_at named unsent =
    let etag = entity_tag t c.request rb in
    let fails = if_match_fails-star c.request etag star named in
    (
      ground (arith, fails, conclude-status_of failed etag rb c),
      ground (arith, fails, conclude-bytes failed etag rb c refl),
    )

has_prefix-append : (x s : Text) → has_prefix (x ++ s) x ≡ true
unfolding has_prefix
has_prefix-append [] s = refl
has_prefix-append (c ∷ x) s = ground (arith, has_prefix-append x s)

contains-append : (p x s : Text) → contains (p ++ x ++ s) x ≡ true
unfolding contains
contains-append [] [] [] = refl
contains-append [] [] (c ∷ s) = ground arith
contains-append [] (d ∷ x) s = ground (arith, has_prefix-append (d ∷ x) s)
contains-append (c ∷ p) x s = ground (arith, contains-append p x s)

abbrev is_quote : ℕ → Bool
is_quote c = c == b'"'

trim_right-quoted : (x : Text) → has_byte b'"' x ≡ false → trim_right is_quote (x ++ b'"' ∷ []) ≡ x
unfolding trim_right
trim_right-quoted [] h = refl
trim_right-quoted (c ∷ []) h = ground arith
trim_right-quoted (c ∷ d ∷ x) h = ground (arith, trim_right-quoted (d ∷ x))

trim-quoted : (x : Text) → has_byte b'"' x ≡ false → trim is_quote (b'"' ∷ x ++ b'"' ∷ []) ≡ x
unfolding trim trim_left
trim-quoted [] h = refl
trim-quoted (c ∷ x) h = ground (arith, trim_right-quoted (c ∷ x))

abbrev pub quoted : Text → Text
quoted x = b'"' ∷ x ++ b'"' ∷ []

append-is_empty : (p x s : Text) → is_empty x ≡ false → is_empty (p ++ x ++ s) ≡ false
append-is_empty [] [] s h = absurd cc
append-is_empty [] (c ∷ x) s h = refl
append-is_empty (c ∷ p) x s h = refl

if_none_match_holds-part :
    (r : Request) (p x s : Text)
    → request_header r "If-None-Match" ≡ p ++ x ++ s
    → is_empty x ≡ false
    → has_byte b'"' x ≡ false
    → if_none_match_holds r (quoted x) ≡ true
unfolding if_none_match_holds etag_weak_cmp
if_none_match_holds-part r p x s there some_text plain =
    ground (arith, append-is_empty p x s some_text, trim-quoted x plain, contains-append p x s)

-- If the text of the tag, without its quotes, stands anywhere in If-None-Match, even as a part of
-- another tag, a request with GET or HEAD gets none of the content, and the status 304 unless the
-- handler has set one. The filter does not pass the response over, nothing was sent before, and the
-- request has no If-Match and no If-Unmodified-Since.
pub tag_response-part :
    (t : Tagging) (rb : ResponseBuffer) (c : Context) (p x s : Text)
    → request_header c.request "If-None-Match" ≡ p ++ x ++ s
    → request_header c.request "If-Match" ≡ []
    → request_header c.request "If-Unmodified-Since" ≡ []
    → is_etag_method c.request.method ≡ true
    → is_passed_over c.request rb ≡ false
    → entity_tag t c.request rb ≡ quoted x
    → is_empty x ≡ false
    → has_byte b'"' x ≡ false
    → c.wrote_header ≡ false
    → (status_of (tag_response t false rb c) ≡ (if rb.wrote_header then rb.status else 304))
      × ((tag_response t false rb c).bytes ≡ c.bytes)
unfolding tag_response verdict if_match_fails if_unmodified_fails
tag_response-part t rb c p x s there no_match no_date get looked_at tag some_text plain unsent =
    let holds = if_none_match_holds-part c.request p x s there some_text plain in
    (
      ground (arith, holds, conclude-status_of not_modified (quoted x) rb c),
      ground (arith, holds, conclude-bytes not_modified (quoted x) rb c refl),
    )
