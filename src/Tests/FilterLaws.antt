-- ===== src/Tests/FilterLaws.antt =====
-- The theorems on filters at concrete filters and requests.
use go_relax.Base.{
  map, ◌⊎◌, String, Bool, true, false, none, some, List, [], ◌∷◌, ◌≡◌, refl, if◌then◌else◌, ◌&&◌,
  ◌||◌, pos,
}
use go_relax.Text.{contains, Text, codes, text_eq, is_empty}
use go_relax.Http.Header.{Header, no_header, set, get, canonical}
use go_relax.Http.Header
use go_relax.ResponseBuffer.{ResponseBuffer}
use go_relax.Context.{net, Context, Outcome, returned, panicked, status_of}
use go_relax.Context
use go_relax.Filters.Override.{Override}
use go_relax.Filters.Override
use go_relax.Filters.Override.Method.{IsAllowed, run-IsAllowed}
use go_relax.Filters.AuthBasic.{AuthBasic, Decoded, decoded, get_user_pass}
use go_relax.Filters.AuthBasic
use go_relax.Filters.AuthBasic.Access.{IsAccepted, run-IsAccepted}
use go_relax.Context.Laws.{left}
use go_relax.Filters.Cors
use go_relax.Filters.Cors.Access.{IsCrossOrigin, run-IsCrossOrigin}
use go_relax.Filters.Cors.{Web, parsed_uri, is_origin_allowed, Cors, Strarr, cors_headers}
use go_relax.Http.Response.{Response, fresh}
use go_relax.Filters.Gzip
use go_relax.Filters.Gzip.{Gzip, action, compress, is_valid_level}
use go_relax.Filters.Gzip.Compressed.{IsCompressed, conclude-IsCompressed}
use go_relax.Tests.CoreLaws.{new_one}

abbrev with_request_header : String → String → String → Context → Context
with_request_header method key v c = record c {
  request = record c.request {
    method = codes method;
    header = set (codes key) (codes v) no_header;
  };
}

abbrev reached : Outcome → Context
reached (returned c) = c
reached (panicked m c) = c

abbrev override : Override
override = record { header = []; query_var = []; methods = none }

abbrev overridden : Context
overridden = with_request_header "POST" "X-Http-Method-Override" "PUT" new_one

abbrev put : Context
put = reached (Override.run override returned overridden)

overridden-put : Override.run override returned overridden ≡ returned put
unfolding Override.run Override.with_defaults Override.take_query Override.override_method
    Override.method_for get set canonical text_eq codes Context.set Header.del
overridden-put = refl

run-IsAllowed_example : IsAllowed override (codes "POST") put.request.method
run-IsAllowed_example = run-IsAllowed override overridden put overridden-put

abbrev one_user : AuthBasic
one_user = record {
  realm = [];
  authenticate = some (λ user pass. text_eq user (codes "ann") && text_eq pass (codes "pw"));
}

abbrev decode : Text → Decoded
decode s = decoded (codes "ann:pw")

abbrev with_credentials : Context
with_credentials = with_request_header "GET" "Authorization" "Basic YW5uOnB3" new_one

abbrev let_in : Context
let_in = reached (AuthBasic.run decode one_user (panicked []) with_credentials)

was_let_in : AuthBasic.run decode one_user (panicked []) with_credentials ≡ panicked [] let_in
unfolding AuthBasic.run AuthBasic.authorize AuthBasic.check AuthBasic.get_user_pass
    AuthBasic.with_defaults get set canonical text_eq codes Context.set
was_let_in = refl

run-IsAccepted_example :
    IsAccepted one_user
      (get_user_pass decode (get with_credentials.request.header (codes "Authorization")))
      let_in
run-IsAccepted_example = run-IsAccepted decode one_user [] with_credentials let_in was_let_in

abbrev cors : Cors
cors = record {
  allow_origin = none;
  allow_any_origin = true;
  allow_methods = some (codes "PUT" ∷ []);
  allow_headers = some (codes "Authorization" ∷ []);
  allow_credentials = true;
  expose_headers = none;
  max_age = pos 0;
  strict = false;
}

abbrev member : List Text → Text → Bool
member [] s = false
member (x ∷ xs) s = text_eq x s || member xs s

abbrev without : List Text → List Text → List Text
without [] ys = []
without (x ∷ xs) ys = if member ys x then without xs ys else x ∷ without xs ys

abbrev strarr : Strarr
strarr = record { contains = member; diff = without; map = λ f xs. map f xs }

abbrev pub sent_page : ResponseBuffer
sent_page = record { buffer = codes "page"; wrote_header = true; status = 200; header = no_header }

abbrev pub web : Web
web = record {
  strarr = strarr;
  compile = λ s. some (text_eq s);
  parse_request_uri = λ s. parsed_uri s [] (codes "http");
}

abbrev pub one_origin : List (Text → Bool)
one_origin = text_eq (codes "http://a.org") ∷ []

abbrev pub some_cors : Cors
some_cors = record cors {
  allow_any_origin = false;
  allow_origin = some (codes "http://a.org" ∷ []);
}

abbrev pub from_a : Context
from_a = with_request_header "GET" "Origin" "http://a.org" new_one

from_a-unmarked : Context.get (codes "cors.request") from_a ≡ none
unfolding Context.get Context.find_value
from_a-unmarked = refl

from_a-IsCrossOrigin : IsCrossOrigin (left (Cors.run web one_origin some_cors returned from_a))
unfolding Cors.run Cors.with_defaults Cors.is_origin_allowed Cors.cross_origin Context.set
    Context.get Context.find_value get set canonical text_eq codes
from_a-IsCrossOrigin = refl

run-IsCrossOrigin_example :
    (is_empty (get from_a.request.header (codes "Origin")) ≡ false)
    × ((some_cors.allow_any_origin ≡ true)
        ⊎ (is_origin_allowed one_origin (get from_a.request.header (codes "Origin")) ≡ true))
run-IsCrossOrigin_example =
    run-IsCrossOrigin web one_origin some_cors from_a from_a-unmarked from_a-IsCrossOrigin

abbrev gzip : Gzip
gzip = record { compression_level = pos 6; min_length = pos 2 }

abbrev small_page : ResponseBuffer
small_page = record { buffer = codes "page"; wrote_header = true; status = 200; header = no_header }

small_page-compress : action gzip small_page ≡ compress
unfolding action get canonical codes contains
small_page-compress = refl

gzip_level : is_valid_level (pos 6) ≡ true
unfolding is_valid_level
gzip_level = refl

conclude-IsCompressed_example :
    (r : Response) × ((Gzip.conclude (λ s. codes "z") gzip compress small_page new_one).writer
      ≡ net r)
    × IsCompressed (λ s. codes "z") small_page fresh r
    × ((Gzip.conclude (λ s. codes "z") gzip compress small_page new_one).bytes ≡ 0)
conclude-IsCompressed_example =
    conclude-IsCompressed (λ s. codes "z") gzip small_page new_one fresh refl refl
      small_page-compress gzip_level
