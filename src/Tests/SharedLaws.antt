-- ===== src/Tests/SharedLaws.antt =====
-- Filters of one program beside each other: the shared origins of the filter cors, and the filter
-- multipart among others.
use go_relax.Base.{Bool, true, false, some, List, [], ◌∷◌, ◌≡◌, refl, get_or}
use go_relax.Text.{Text, codes, text_eq, is_empty}
use go_relax.Http.Header
use go_relax.Context.{returned}
use go_relax.Service.{a_filter, a_logger, use_all, attach_filters}
use go_relax.Service.Resources.{resource_filters}
use go_relax.Filters.Cors
use go_relax.Filters.Cors.{with_defaults, compile_origins, is_origin_allowed, cross_origin}
use go_relax.Filters.Cors.Shared.{run-compile_origins}
use go_relax.Filters.Multipart.{filter}
use go_relax.Filters.Multipart.Limited.{filter_lost}
use go_relax.Tests.CoreLaws.{naming, plain_service}
use go_relax.Tests.FilterLaws.{web, one_origin, some_cors, from_a}
use go_relax.Tests.SecurityLaws.{uploads}

abbrev others : Cors.Cors
others = record some_cors { allow_origin = some (codes "http://b.org" ∷ []) }

abbrev both_origins : List (Text → Bool)
both_origins = get_or (compile_origins web.compile (codes "http://b.org" ∷ []) one_origin) []

both_compiled :
    compile_origins web.compile (codes "http://b.org" ∷ []) one_origin ≡ some both_origins
unfolding compile_origins
both_compiled = refl

a_is_allowed :
    is_origin_allowed one_origin (Header.get from_a.request.header (codes "Origin")) ≡ true
unfolding is_origin_allowed Header.get Header.set codes text_eq Header.canonical
a_is_allowed = refl

a_is_named : is_empty (Header.get from_a.request.header (codes "Origin")) ≡ false
unfolding Header.get Header.set codes text_eq Header.canonical
a_is_named = refl

run-compile_origins_example :
    Cors.run web both_origins others returned from_a
    ≡ cross_origin web.strarr
        (with_defaults web.strarr others)
        (Header.get from_a.request.header (codes "Origin"))
        returned
        from_a
run-compile_origins_example =
    run-compile_origins web one_origin both_origins others (codes "http://b.org" ∷ []) returned
      from_a both_compiled a_is_allowed a_is_named refl

filter_lost_example :
    (use_all (a_logger 1 ∷ a_filter (filter uploads 0) ∷ []) plain_service
      ≡ use_all (a_logger 1 ∷ []) plain_service)
    × (resource_filters (naming "a" ∷ filter uploads 0 ∷ naming "b" ∷ [])
        ≡ resource_filters (naming "a" ∷ naming "b" ∷ []))
    × (attach_filters (naming "a" ∷ filter uploads 0 ∷ naming "b" ∷ []) returned
        ≡ attach_filters (naming "a" ∷ naming "b" ∷ []) returned)
filter_lost_example =
    filter_lost uploads 0 (a_logger 1 ∷ []) [] plain_service (naming "a" ∷ []) (naming "b" ∷ [])
      returned
