-- ===== src/Tests/CrudLaws.antt =====
-- The routes of `CRUD` at a concrete resource.
use go_relax.Base.{none, some, List, [], ◌∷◌, ◌++◌, ◌≡◌, refl, inl, inr, get_or, arith}
use go_relax.Text.{Text, codes, to_upper, is_digit}
use go_relax.Context.{returned}
use go_relax.Router.Trie.{Node, Cache, node, cons, nil, links, cached, route_segments}
use go_relax.Router.Find.{found, find_handler}
use go_relax.Router.Literal.{served_segments}
use go_relax.Router.WellFormed.{RouterIsWell, IsWell}
use go_relax.Router.Sound.{Linked, first, later, Takes, by_text, by_expression}
use go_relax.Router.Complete.{IsForced, IsForced-nil, IsForced-cons, IsForced-only}
use go_relax.Router.Reached.{AllFit}
use go_relax.Service.{Service, Resource, RouteHandler, Crud}
use go_relax.Service.Resources.{item_pse, crud, route, relation_handler, method_not_allowed}
use go_relax.Service.Items.Served.{updates, crud-find_handler}
use go_relax.Tests.RouterRuns.{engine, one_group, router}
use go_relax.Tests.CoreLaws.{plain_service}
use go_relax.Tests.ServiceLaws.{posts_resource}

abbrev posts_crud : Crud
posts_crud = record { create = returned; read = returned; update = returned; delete = returned }

abbrev with_crud : Resource
with_crud = record posts_resource {
  collection = record posts_resource.collection { crud = some posts_crud };
}

abbrev before : Service
before = record plain_service { resources = with_crud ∷ [] }

abbrev after : Service
after = get_or (crud engine 0 (codes "{uint:id}") before) before

made : crud engine 0 (codes "{uint:id}") before ≡ some after
unfolding router crud route to_upper
made = refl

before-RouterIsWell : RouterIsWell engine before.router
unfolding router IsWell cached
before-RouterIsWell = (λ s rx e. absurd cc, tt, refl)

abbrev put_123 : List Text
put_123 = served_segments (codes "PUT") (codes "/posts/123")

posts_path : with_crud.path ≡ b'/' ∷ codes "posts"
unfolding codes
posts_path = refl

put_123_fits :
    AllFit engine
      (route_segments (codes "PUT") (with_crud.path ++ codes "/" ++ codes "{uint:id}"))
      put_123
unfolding router
put_123_fits = (
  inl refl,
  (inl refl, (inr (one_group is_digit, codes "123" ∷ [], refl, refl, refl, omega arith), tt)),
)

abbrev leaf : RouteHandler → Node RouteHandler
leaf h = node (codes "{uint:id}") (some (relation_handler 0 h)) 0 3 nil

abbrev not_allowed : RouteHandler
not_allowed = relation_handler 0 method_not_allowed

abbrev handler_of : RouteHandler
handler_of _ = returned

abbrev get_node : Node RouteHandler
get_node =
    node (codes "GET") none 0 1
      (cons (node (codes "posts") none 1 2 (cons (leaf handler_of) nil)) nil)

abbrev post_node : Node RouteHandler
post_node =
    node (codes "POST") none 0 1
      (cons (node (codes "posts") (some (relation_handler 0 handler_of)) 0 2 nil) nil)

abbrev item_node : Node RouteHandler
item_node = node (codes "posts") (some not_allowed) 1 2 (cons (leaf handler_of) nil)

abbrev put_node : Node RouteHandler
put_node = node (codes "PUT") none 0 1 (cons item_node nil)

abbrev delete_node : Node RouteHandler
delete_node = node (codes "DELETE") none 0 1 (cons item_node nil)

abbrev root_node : Node RouteHandler
root_node = node [] none 0 0 (cons get_node (cons post_node (cons put_node (cons delete_node nil))))

abbrev expressions : Cache
expressions = (codes "{uint:id}", one_group is_digit) ∷ []

after_root : (after.router.root ≡ root_node) × (after.router.cache ≡ expressions)
unfolding router crud route to_upper
after_root = (refl, refl)

only_put :
    (k : Node RouteHandler)
    → Linked k (links root_node)
    → Takes expressions 3 (codes "PUT") k
    → k ≡ put_node
unfolding cached codes
only_put _ first (by_text e) = absurd (ground arith)
only_put _ first (by_expression rx groups there at n goes_on) = absurd (ground arith)
only_put _ (later first) (by_text e) = absurd (ground arith)
only_put _ (later first) (by_expression rx groups there at n goes_on) = absurd (ground arith)
only_put _ (later (later first)) takes = refl
only_put _ (later (later (later first))) (by_text e) = absurd (ground arith)
only_put _ (later (later (later first))) (by_expression rx groups there at n goes_on) =
    absurd (ground arith)
only_put k (later (later (later (later l)))) takes = elim l [ ]

put_123-IsForced : IsForced expressions 3 root_node put_123
unfolding router
put_123-IsForced = IsForced-only expressions 3 root_node put_node (codes "PUT") _ only_put (
    IsForced-cons expressions 3 item_node (codes "PUT") none 0 1 (codes "posts") _ (
      IsForced-cons expressions 3 (leaf handler_of) (codes "posts") (some not_allowed) 1 2
        (codes "123") [] (IsForced-nil expressions 3 (leaf handler_of))))

crud-find_handler_example :
    (find_handler after.router (codes "PUT") (codes "/posts/123") none).0
    ≡ found (relation_handler 0 (λ view. posts_crud.update))
unfolding router crud route to_upper item_pse
crud-find_handler_example =
    crud-find_handler engine 0 with_crud updates (codes "{uint:id}") before after posts_crud
      (codes "posts") (codes "posts/123") none posts_path before-RouterIsWell refl refl made
      put_123_fits put_123-IsForced
