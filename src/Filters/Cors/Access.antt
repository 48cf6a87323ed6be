-- ===== src/Filters/Cors/Access.antt =====
-- For which requests filter/cors/cors.go speaks of a cross-origin request.
use go_relax.Base.{Bool, true, false, ◌⊎◌, none, some, List, ◌≡◌, inl, inr, Bool-cases, arith, ap}
use go_relax.Text.{Text, codes, is_empty}
use go_relax.Http.Header
use go_relax.Context.{Context, returned, flag, get, find_value, error}
use go_relax.Context.Laws.{left, error-store}
use go_relax.Filters.Cors.{Web, Cors, with_defaults, is_origin_allowed, run}

-- A context that says that its request is a cross-origin one.
abbrev pub IsCrossOrigin : Context → Type 0
IsCrossOrigin c = get (codes "cors.request") c ≡ some (flag true)

error-get : (key : Text) (m : Text) (c : Context) → get key (left (error 403 m none c)) ≡ get key c
unfolding get
error-get key m c = ap (find_value key) (error-store 403 m none c)

-- The filter marks a request as a cross-origin one only if the request names an origin, and that
-- matches one of the expressions, where the filter does not allow any origin. The request was not
-- marked before.
pub run-IsCrossOrigin :
    (w : Web) (known : List (Text → Bool)) (f : Cors) (c : Context)
    → get (codes "cors.request") c ≡ none
    → IsCrossOrigin (left (run w known f returned c))
    → (is_empty (Header.get c.request.header (codes "Origin")) ≡ false)
      × ((f.allow_any_origin ≡ true)
          ⊎ (is_origin_allowed known (Header.get c.request.header (codes "Origin")) ≡ true))
unfolding run with_defaults
run-IsCrossOrigin w known f c unmarked marked =
    let origin = Header.get c.request.header (codes "Origin") in
    elim (Bool-cases (is_empty origin)) [
      | inl local ↦ absurd (ground arith)
      | inr foreign ↦ (
        foreign,
        elim (Bool-cases f.allow_any_origin) [
          | inl any ↦ inl any
          | inr listed ↦ elim (Bool-cases (is_origin_allowed known origin)) [
            | inl allowed ↦ inr allowed
            | inr refused ↦ elim (Bool-cases f.strict) [
              | inl strict ↦
                  absurd (
                    ground
                      (arith, error-get (codes "cors.request") (codes "Invalid CORS origin") c))
              | inr lax ↦ absurd (ground arith)
            ]
          ]
        ],
      )
    ]
