-- ===== src/Tests/RouteLaws.antt =====
-- The theorems on the routes of resources and on content negotiation at concrete services.
use go_relax.Base.{ℕ, Option, none, some, List, [], ◌∷◌, ◌++◌, ◌≡◌, refl, is_some, false, get_or}
use go_relax.Text.{Text, codes, text_eq, to_upper}
use go_relax.Http.Response.{fresh}
use go_relax.Context.{Values, Outcome, net, returned}
use go_relax.Router.Trie.{add_route, add_link, cache_segment, cached, new_router, route_segments}
use go_relax.Router.Segment.{is_pse}
use go_relax.Router.Literal.{IsPlain, AreLiteral}
use go_relax.Router.WellFormed.{CacheIsWell}
use go_relax.Router.Panics.{all_compile, add_route-all_compile}
use go_relax.Encoder.{Encoder, json_encoder, new_json}
use go_relax.Content.{Mime, media_type, init_content, find_encoder}
use go_relax.Content.Endings.{Ends}
use go_relax.Content.Outcomes.{wanted, requested}
use go_relax.Service.{Service, RouteHandler}
use go_relax.Service.Resources.{route, relation_handler}
use go_relax.Service.Dispatch.{Arrival, adapter, finish, view_of}
use go_relax.Service.Serving.{adapter-route}
use go_relax.Http.Header
use go_relax.Http.Request.{Request}
use go_relax.Tests.RouterRuns.{engine, router}
use go_relax.Tests.CoreLaws.{new_one, get_request, plain_service}
use go_relax.Tests.ServiceLaws.{raw, naturals, posts_resource}

nothing_cached : CacheIsWell engine []
unfolding cached
nothing_cached s rx e = absurd cc

add_route-all_compile_example :
    is_some (add_route {H = ℕ} engine (codes "GET") (codes "/posts/{uint:id}") 2 (new_router []))
    ≡ all_compile engine (route_segments (codes "GET") (codes "/posts/{uint:id}"))
unfolding new_router
add_route-all_compile_example =
    add_route-all_compile engine (codes "GET") (codes "/posts/{uint:id}") 2 (new_router [])
      nothing_cached

abbrev json : Encoder
json = json_encoder raw new_json

no_expressions : IsPlain plain_service.router.root
unfolding new_router IsPlain
no_expressions = (refl, tt)

abbrev recent : List Text
recent =
    route_segments (to_upper (codes "get")) (posts_resource.path ++ codes "/" ++ codes "recent")

recent-AreLiteral : AreLiteral recent
unfolding router to_upper
recent-AreLiteral = (refl, (refl, (refl, tt)))

get_not_head : text_eq (to_upper (codes "get")) (codes "HEAD") ≡ false
unfolding router to_upper
get_not_head = refl

abbrev index : RouteHandler
index view = returned

abbrev pub mime : Mime
mime = record {
  parse_media_type = λ s. media_type s (λ key. none);
  type_by_extension = λ s. codes "application/json";
}

abbrev with_json : Service
with_json = record plain_service { encoders = (codes "application/json", json) ∷ [] }

json_there : find_encoder (codes "application/json") with_json.encoders ≡ some json
unfolding find_encoder text_eq codes
json_there = refl

abbrev pub routed : Service
routed =
    get_or (route engine 0 posts_resource (codes "get") (codes "recent") index [] with_json)
      with_json

routed_added :
    route engine 0 posts_resource (codes "get") (codes "recent") index [] with_json ≡ some routed
unfolding route add_route add_link cache_segment route_segments is_pse new_router to_upper codes
routed_added = refl

abbrev pub recent_request : Request
recent_request = record get_request { path = codes "/posts/recent" }

abbrev arrival : Arrival
arrival = record { now = 5; uuid = codes "new"; pooled = new_one; parent = [] }

abbrev target : Request
target = requested (Header.get recent_request.header (codes "Accept")) recent_request

target_there : target.path ≡ posts_resource.path ++ codes "/" ++ codes "recent"
unfolding requested Header.get text_eq
target_there = refl

adapter-route_example :
    (out : Outcome) × (vs : Option Values) × Ends init_content mime with_json.encoders json
      (wanted init_content (Header.get recent_request.header (codes "Accept")) recent_request)
      target
      (λ c. relation_handler 0 index (view_of json routed) (record c { path_values = vs }))
      out
    × (adapter naturals init_content mime (λ prefs. prefs) routed arrival (net fresh) recent_request
        ≡ finish out)
unfolding to_upper codes
adapter-route_example =
    adapter-route engine 0 posts_resource (codes "get") (codes "recent") index [] naturals
      init_content mime (λ prefs. prefs) json with_json routed arrival fresh recent_request
      no_expressions recent-AreLiteral get_not_head refl json_there routed_added refl target_there
