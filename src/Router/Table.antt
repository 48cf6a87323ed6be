-- ===== src/Router/Table.antt =====
-- A router of router.go that is made by adding a list of routes without expressions.
use go_relax.Base.{
  Option, none, some, List, [], ◌∷◌, ◌≡◌, refl, inl, inr, if◌then◌else◌, Option-cases, arith, All,
  ◌∙◌, ap,
}
use go_relax.Text.{Text}
use go_relax.Context.{Values}
use go_relax.Router.Segment.{Regexp}
use go_relax.Router.Trie.{Cache, Router, add_route, new_router, route_segments, ◌>>=◌}
use go_relax.Router.Find.{find_handler}
use go_relax.Router.Lookup.{segments_eq, lookup-fresh}
use go_relax.Router.Literal.{
  found_handler, IsPlain, AreLiteral, served_segments, find_handler-add_route, find_handler-lookup,
}

-- A method, a path and a handler.
abbrev pub Route : Type 0 → Type 0
Route H = Text × Text × H

module _ {H : Type 0} where
  -- Routes are added from first to last.
  unfoldable pub add_all : (Text → Option Regexp) → List (Route H) → Router H → Option (Router H)
  add_all compile [] r = some r
  add_all compile ((method, path, h) ∷ more) r = do
    r' ← add_route compile method path h r
    add_all compile more r'

  -- The handler of the last route with these segments.
  unfoldable pub last_route : List (Route H) → List Text → Option H
  unfolding segments_eq
  last_route [] segs = none
  last_route ((method, path, h) ∷ more) segs = elim (last_route more segs) [
    | some h' ↦ some h'
    | none ↦ if segments_eq (route_segments method path) segs then some h else none
  ]

  abbrev pub AllLiteral : List (Route H) → Type 0
  AllLiteral routes = All (λ (x : Route H). AreLiteral (route_segments x.0 x.1)) routes

  abbrev or_else : Option H → Option H → Option H
  or_else (some h) old = some h
  or_else none old = old

  add_all-last_route :
      (compile : Text → Option Regexp) (routes : List (Route H)) (r : Router H)
      → IsPlain r.root
      → AllLiteral routes
      → (r' : Router H) × (add_all compile routes r ≡ some r')
        × ((m p : Text) (vs : Option (Option Values))
            → found_handler (find_handler r' m p vs).0
              ≡ or_else
                  (last_route routes (served_segments m p))
                  (found_handler (find_handler r m p vs).0))
  unfolding add_all last_route
  add_all-last_route compile [] r plain lit = (r, refl, λ m p vs. refl)
  add_all-last_route compile ((method, path, h) ∷ more) r plain (one, lit) =
      let (r1, made, plain1, law1) = find_handler-add_route compile method path h r plain one in
      let (r', rest, law) = add_all-last_route compile more r1 plain1 lit in
      (
        r',
        rw made rest,
        λ m p vs.
            let first = law1 m p vs in
            let later = law m p vs in
            elim (Option-cases (last_route more (served_segments m p))) [
              | inl missing ↦ ground arith
              | inr (h', there) ↦ ground arith
            ],
      )

  or_else_empty : (o : Option H) → or_else o none ≡ o
  or_else_empty none = refl
  or_else_empty (some h) = refl

  find_handler-new_router :
      (cache : Cache) (m p : Text) (vs : Option (Option Values))
      → found_handler (find_handler (new_router {H = H} cache) m p vs).0 ≡ none
  unfolding new_router IsPlain
  find_handler-new_router cache m p vs =
      find_handler-lookup (new_router cache) m p vs (refl, tt)
      ∙ lookup-fresh [] 0 (served_segments m p)

  -- A router can be made of any list of routes without expressions. A search then finds the handler of
  -- the last route in the list with the segments of the request, and none if there is no such route.
  pub find_handler-add_all :
      (compile : Text → Option Regexp) (routes : List (Route H)) (cache : Cache)
      → AllLiteral routes
      → (r : Router H) × (add_all compile routes (new_router cache) ≡ some r)
        × ((m p : Text) (vs : Option (Option Values))
            → found_handler (find_handler r m p vs).0 ≡ last_route routes (served_segments m p))
  unfolding new_router IsPlain
  find_handler-add_all compile routes cache lit =
      let (r, made, law) = add_all-last_route compile routes (new_router cache) (refl, tt) lit in
      (
        r,
        made,
        λ m p vs.
            law m p vs
            ∙ ap (or_else (last_route routes (served_segments m p)))
                (find_handler-new_router cache m p vs)
            ∙ or_else_empty (last_route routes (served_segments m p)),
      )
