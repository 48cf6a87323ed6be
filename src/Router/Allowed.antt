-- ===== src/Router/Allowed.antt =====
-- `PathMethods` of router.go for a list of routes with the methods of resource.go.
use go_relax.Base.{
  true, false, ◌||◌, Option, none, some, List, [], ◌∷◌, ◌≡◌, refl, ap, ◌∙◌, map, subst,
  Option-cases, Bool-cases, arith, All, All-append, inl, inr,
}
use go_relax.Text.{Text, codes, text_eq, is_empty, has_prefix, has_byte, contains, join}
use go_relax.Text.Laws.{text_eq_iff}
use go_relax.Context.{Values}
use go_relax.Router.Segment.{Regexp}
use go_relax.Router.Trie.{Cache, Router, add_at, add_method, add_route, new_router, route_segments}
use go_relax.Router.Find.{find_handler, is_served, path_methods}
use go_relax.Router.Literal.{found_handler, served_segments}
use go_relax.Router.Methods.{IsMethod, allow_list, allow_list_same, path_methods-find_handler}
use go_relax.Router.Table.{Route, AllLiteral, add_all, last_route, find_handler-add_all}
use go_relax.Router.Listed.{has_method, IsSeparate, has_method-add_method}

-- The methods that resource.go has an alias for.
abbrev pub standard : List Text
standard =
    codes "GET" ∷ codes "POST" ∷ codes "PUT" ∷ codes "PATCH" ∷ codes "DELETE" ∷ codes "OPTIONS" ∷ []

abbrev pub IsStandard : Text → Type 0
IsStandard m = has_method m standard ≡ true

All-has_method :
    (P : Text → Type 0) (ms : List Text) (m : Text) → All P ms → has_method m ms ≡ true → P m
All-has_method P [] m _ h = absurd cc
All-has_method P (x ∷ ms) m (px, all) h = elim (Bool-cases (text_eq x m)) [
  | inl here ↦ subst P ((text_eq_iff x m).0 here) px
  | inr there ↦ All-has_method P ms m all (ground arith)
]

-- None of these methods is a part of another one.
standard-IsSeparate : All (λ y. IsSeparate y standard) standard
unfolding contains has_prefix text_eq codes
standard-IsSeparate = (
  (refl, (refl, (refl, (refl, (refl, (refl, tt)))))),
  (
    (refl, (refl, (refl, (refl, (refl, (refl, tt)))))),
    (
      (refl, (refl, (refl, (refl, (refl, (refl, tt)))))),
      (
        (refl, (refl, (refl, (refl, (refl, (refl, tt)))))),
        (
          (refl, (refl, (refl, (refl, (refl, (refl, tt)))))),
          ((refl, (refl, (refl, (refl, (refl, (refl, tt)))))), tt),
        ),
      ),
    ),
  ),
)

-- They are written without a comma and a slash, and none of them is HEAD.
standard-IsMethod :
    All (λ m. (has_byte b',' m ≡ false) × (is_empty m ≡ false) × IsMethod m) standard
unfolding text_eq codes
standard-IsMethod = (
  (refl, refl, (refl, refl)),
  (
    (refl, refl, (refl, refl)),
    (
      (refl, refl, (refl, refl)),
      ((refl, refl, (refl, refl)), ((refl, refl, (refl, refl)), ((refl, refl, (refl, refl)), tt))),
    ),
  ),
)

All-map : (P Q : Text → Type 0) (ms : List Text) → ((m : Text) → P m → Q m) → All P ms → All Q ms
All-map P Q [] f _ = tt
All-map P Q (m ∷ ms) f (p, all) = (f m p, All-map P Q ms f all)

IsStandard-IsMethod : (m : Text) → IsStandard m → IsMethod m
IsStandard-IsMethod m is =
    let all = λ (t : Text). (has_byte b',' t ≡ false) × (is_empty t ≡ false) × IsMethod t in
    (All-has_method all standard m standard-IsMethod is).2

IsStandard-IsSeparate :
    (x : Text) (ms : List Text) → IsStandard x → All IsStandard ms → IsSeparate x ms
IsStandard-IsSeparate x [] h _ = tt
IsStandard-IsSeparate x (m ∷ ms) h (is, are) =
    let all = All-has_method (λ y. IsSeparate y standard) standard x standard-IsSeparate h in
    (
      All-has_method (λ y. contains y x ≡ text_eq y x) standard m all is,
      IsStandard-IsSeparate x ms h are,
    )

add_method-IsStandard :
    (x : Text) (ms : List Text)
    → IsStandard x
    → All IsStandard ms
    → All IsStandard (add_method x ms)
unfolding add_method
add_method-IsStandard x ms h all = elim (Bool-cases (contains (join ms (codes ",")) x)) [
  | inl there ↦ rw there all
  | inr new ↦ rw new (All-append IsStandard ms (x ∷ []) all (h, tt))
]

module _ {H : Type 0} where
  abbrev pub AllStandard : List (Route H) → Type 0
  AllStandard routes = All (λ (x : Route H). IsStandard x.0) routes

  abbrev pub methods_of : List (Route H) → List Text
  methods_of routes = map (λ (x : Route H). x.0) routes

module _ {H : Type 0} (compile : Text → Option Regexp) where
  add_route-methods :
      (method path : Text) (h : H) (r r' : Router H)
      → add_route compile method path h r ≡ some r'
      → r'.methods ≡ add_method method r.methods
  unfolding add_route
  add_route-methods method path h r r' made =
      elim (Option-cases (add_at compile h (route_segments method path) r.cache r.root)) [
        | inl bad ↦ absurd (ground arith)
        | inr ((c, n), there) ↦ ground arith
      ]

  add_all-methods :
      (routes : List (Route H)) (r r' : Router H)
      → add_all compile routes r ≡ some r'
      → All IsStandard r.methods
      → AllStandard routes
      → All IsStandard r'.methods
        × ((m : Text)
            → has_method m r'.methods
              ≡ (has_method m r.methods || has_method m (methods_of routes)))
  unfolding add_all
  add_all-methods [] r r' made all _ =
      let same : r ≡ r' = ground arith in rw (← same) (all, λ m. ground arith)
  add_all-methods ((method, path, h) ∷ more) r r' made all (is, are) =
      elim (Option-cases (add_route compile method path h r)) [
        | inl bad ↦ absurd (ground arith)
        | inr (r1, there) ↦
            let known = add_route-methods method path h r r1 there in
            let all1 : All IsStandard r1.methods =
              rw known (add_method-IsStandard method r.methods is all) in
            let (all', law) = add_all-methods more r1 r' (ground arith) all1 are in
            let (comma, some_text, _) =
              All-has_method (λ m. (has_byte b',' m ≡ false) × (is_empty m ≡ false) × IsMethod m)
                standard method standard-IsMethod is in
            (
              all',
              λ m.
                  let one =
                    has_method-add_method method m r.methods comma some_text
                      (IsStandard-IsSeparate method r.methods is all) in
                  ground (arith, law m, one, known),
            )
      ]

  -- A router can be made of any list of routes without expressions whose methods are those of
  -- resource.go. A search then finds the handler of the last route in the list with the segments of
  -- the request, and none if there is no such route. The methods of the router are those of its
  -- routes; and for a path that begins with a slash, PathMethods lists HEAD and exactly those of them
  -- that have a route with this path.
  pub path_methods-add_all :
      (routes : List (Route H)) (cache : Cache)
      → AllLiteral routes
      → AllStandard routes
      → (r : Router H) × (add_all compile routes (new_router cache) ≡ some r)
        × ((m p : Text) (vs : Option (Option Values))
            → found_handler (find_handler r m p vs).0 ≡ last_route routes (served_segments m p))
        × ((m : Text) → has_method m r.methods ≡ has_method m (methods_of routes))
        × ((p : Text)
            → path_methods r (b'/' ∷ p)
              ≡ allow_list
                  (λ m. is_served (last_route routes (route_segments m (b'/' ∷ p))))
                  r.methods)
  unfolding new_router
  path_methods-add_all routes cache lit std =
      let (r, made, law) = find_handler-add_all compile routes cache lit in
      let (all, listed) = add_all-methods routes (new_router cache) r made tt std in
      (
        r,
        made,
        law,
        listed,
        λ p.
            path_methods-find_handler r p none
              (All-map IsStandard IsMethod r.methods IsStandard-IsMethod all)
            ∙ allow_list_same (λ m. is_served (found_handler (find_handler r m (b'/' ∷ p) none).0))
                (λ m. is_served (last_route routes (route_segments m (b'/' ∷ p)))) r.methods
                (All-map IsStandard _ r.methods
                  (λ m is.
                    let (slash, head) = IsStandard-IsMethod m is in
                    let served : served_segments m (b'/' ∷ p) ≡ route_segments m (b'/' ∷ p) =
                      rw head refl in
                    ap is_served (law m (b'/' ∷ p) none ∙ ap (last_route routes) served))
                  all),
      )
