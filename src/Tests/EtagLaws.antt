-- ===== src/Tests/EtagLaws.antt =====
-- The comparisons of the filter etag at concrete requests.
use go_relax.Base.{none, false, true, if◌then◌else◌, [], ◌++◌, ◌≡◌, refl, String}
use go_relax.Text.{codes, text_eq, is_empty, has_byte}
use go_relax.Http.Header
use go_relax.Http.Request.{Request}
use go_relax.Context.{Context, status_of}
use go_relax.Filters.Etag.{
  Tagging, request_header, is_passed_over, entity_tag, is_etag_method, tag_response,
}
use go_relax.Filters.Etag.Conditions.{quoted, tag_response-star, tag_response-part}
use go_relax.Tests.CoreLaws.{get_request, new_one}
use go_relax.Tests.FilterLaws.{sent_page}

abbrev tagging : Tagging
tagging = record { sha1_hex = λ s. codes "ab"; parse_time = λ s. none }

abbrev asking : String → String → Context
asking key v = record new_one {
  request = record get_request { header = Header.set (codes key) (codes v) Header.no_header };
}

abbrev anything : Context
anything = asking "If-Match" "*"

abbrev part : Context
part = asking "If-None-Match" "\"cabs\""

star_asked : request_header anything.request "If-Match" ≡ codes "*"
unfolding Header.set Header.get codes
star_asked = refl

looked_at : (r : Request) → r.method ≡ codes "GET" → is_passed_over r sent_page ≡ false
unfolding is_passed_over
looked_at r get = rw get refl

tag_there :
    (r : Request) → r.method ≡ codes "GET" → entity_tag tagging r sent_page ≡ quoted (codes "ab")
unfolding entity_tag is_etag_method codes Header.get
tag_there r get = rw get refl

not_star : text_eq (entity_tag tagging anything.request sent_page) (codes "*") ≡ false
unfolding entity_tag is_etag_method codes Header.get text_eq
not_star = refl

tag_response-star_example :
    (status_of (tag_response tagging false sent_page anything) ≡ 412)
    × ((tag_response tagging false sent_page anything).bytes ≡ 0)
tag_response-star_example =
    tag_response-star tagging sent_page anything star_asked (looked_at anything.request refl)
      not_star refl

part_asked : request_header part.request "If-None-Match" ≡ codes "\"c" ++ codes "ab" ++ codes "s\""
unfolding Header.set Header.get codes
part_asked = refl

nothing_asked :
    (request_header part.request "If-Match" ≡ [])
    × (request_header part.request "If-Unmodified-Since" ≡ [])
    × (is_etag_method part.request.method ≡ true)
unfolding Header.set Header.get codes is_etag_method text_eq
nothing_asked = (refl, refl, refl)

tag_text : has_byte b'"' (codes "ab") ≡ false
unfolding codes
tag_text = refl

tag_text_there : is_empty (codes "ab") ≡ false
unfolding codes
tag_text_there = refl

tag_response-part_example :
    (status_of (tag_response tagging false sent_page part)
      ≡ (if sent_page.wrote_header then sent_page.status else 304))
    × ((tag_response tagging false sent_page part).bytes ≡ 0)
tag_response-part_example =
    tag_response-part tagging sent_page part (codes "\"c") (codes "ab") (codes "s\"") part_asked
      nothing_asked.0 nothing_asked.1 nothing_asked.2 (looked_at part.request refl)
      (tag_there part.request refl) tag_text_there tag_text refl
