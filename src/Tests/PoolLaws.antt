-- ===== src/Tests/PoolLaws.antt =====
-- Two requests of one service that share a context from the pool.
use mathlib.Core.List.{Memᴰ}
use go_relax.Base.{[], ◌∷◌, ◌≡◌, refl, map, List}
use go_relax.Text.{codes}
use go_relax.Http.Response.{fresh}
use go_relax.Context.{Context, net}
use go_relax.Content.{init_content}
use go_relax.Service.Pool.{
  Exchange, Run, answer, renewed, zero_context, answers-renewed, idle, starts, kept, made,
}
use go_relax.Tests.RouteLaws.{mime, routed, recent_request}
use go_relax.Tests.ServiceLaws.{naturals}

abbrev served_with : Context → Exchange
served_with c =
    (record { now = 5; uuid = codes "new"; pooled = c; parent = [] }, net fresh, recent_request)

abbrev first : Exchange
first = served_with (zero_context recent_request)

abbrev freed : Context
freed = (answer naturals init_content mime (λ prefs. prefs) routed first).1

abbrev both : List Exchange
both = first ∷ served_with freed ∷ []

both-Run : Run naturals init_content mime (λ prefs. prefs) routed [] both
both-Run = starts (made recent_request) (starts (kept freed (Memᴰ.head refl)) idle)

answers-renewed_example :
    map (answer naturals init_content mime (λ prefs. prefs) routed) both
    ≡ map (λ x. answer naturals init_content mime (λ prefs. prefs) routed (renewed x)) both
answers-renewed_example =
    answers-renewed naturals init_content mime (λ prefs. prefs) routed both both-Run
