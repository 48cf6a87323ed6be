-- ===== src/Tests/ValueLaws.antt =====
-- The theorems on the values of a path at a route with an expression.
use go_relax.Base.{Option, none, some, [], ◌∷◌, ◌≡◌, refl, All, get_or}
use go_relax.Text.{codes}
use go_relax.Context.{Values}
use go_relax.Router.Find.{find_handler}
use go_relax.Router.Groups.{entries, IsName, AreDistinct, mem_text}
use go_relax.Router.PathValues.{IsNamed, names_of, groups_of, trail, trail_of, find_handler-entries}
use go_relax.Tests.RouterRuns.{router}
use go_relax.Tests.RouterLaws.{one_route}

names_there : All IsNamed (trail one_route (codes "GET") (codes "/posts/123"))
unfolding router trail_of
names_there = (refl, tt)

names-AreNames : All IsName (names_of (trail one_route (codes "GET") (codes "/posts/123")))
unfolding router trail_of names_of mem_text
names-AreNames = (refl, tt)

names-AreDistinct : AreDistinct (names_of (trail one_route (codes "GET") (codes "/posts/123")))
unfolding router trail_of names_of mem_text
names-AreDistinct = (refl, tt)

find_handler-entries_example :
    (vs : Option Values) × ((find_handler one_route
        (codes "GET")
        (codes "/posts/123")
        (some none)).1
      ≡ some vs)
    × (get_or vs []
        ≡ entries 1
            (groups_of (trail one_route (codes "GET") (codes "/posts/123")))
            (names_of (trail one_route (codes "GET") (codes "/posts/123"))))
find_handler-entries_example =
    find_handler-entries one_route (codes "GET") (codes "/posts/123") names_there names-AreNames
      names-AreDistinct

-- The one group is 123.
values_stored :
    entries 1
      (groups_of (trail one_route (codes "GET") (codes "/posts/123")))
      (names_of (trail one_route (codes "GET") (codes "/posts/123")))
    ≡ (codes "_1", codes "123" ∷ []) ∷ (codes "v", codes "123" ∷ []) ∷ []
unfolding router trail_of names_of groups_of entries
values_stored = refl
