-- ===== src/Filters/Cors/Origin.antt =====
-- What filter/cors/cors.go tells a client about origins and credentials, and its test of headers.
use go_relax.Base.{
  Bool, not, map, All, true, false, ◌&&◌, ◌||◌, List, [], ◌∷◌, ◌≡◌, refl, inl, inr, if◌then◌else◌,
  Option-cases, Bool-cases, is_some,
}
use go_relax.Text.{Text, codes, text_eq}
use go_relax.Http.Header.{get, set, add, canonical}
use go_relax.Filters.Cors.{Cors, Strarr, cors_headers}

-- An origin is echoed to a client that may send credentials, and by a strict filter with a list of
-- origins; a strict filter without a list answers "null", and any other filter "*". The header for
-- credentials is there exactly if they are allowed.
pub cors_headers_lem :
    (f : Cors) (origin : Text)
    → (get (cors_headers f origin) (codes "Access-Control-Allow-Origin") ≡ (
        if f.allow_credentials || (f.strict && is_some f.allow_origin)
        then origin
        else if f.strict
        then codes "null"
        else codes "*"))
      × (get (cors_headers f origin) (codes "Access-Control-Allow-Credentials")
          ≡ (if f.allow_credentials then codes "true" else []))
unfolding cors_headers get set add canonical text_eq codes
cors_headers_lem f origin = elim (Bool-cases f.allow_credentials) [
  | inl with_them ↦ rw with_them (refl, refl)
  | inr without ↦ rw without (elim (Bool-cases f.strict) [
    | inr lax ↦ rw lax (refl, refl)
    | inl strictly ↦ rw strictly (elim (Option-cases f.allow_origin) [
      | inl any ↦ rw any (refl, refl)
      | inr (os, listed) ↦ rw listed (refl, refl)
    ])
  ])
]

abbrev pub is_listed : List Text → Text → Bool
is_listed [] s = false
is_listed (x ∷ xs) s = text_eq x s || is_listed xs s

-- What go-strarr promises: `Contains` looks for a text, `Diff` keeps the texts of its first list that
-- are not in the second, and `Map` applies a function to each text.
pub record IsStrarr (a : Strarr) : Type 0 where
  pub contains_lem : (xs : List Text) (s : Text) → a.contains xs s ≡ is_listed xs s
  pub listed-diff :
      (xs ys : List Text) (s : Text)
      → is_listed (a.diff xs ys) s ≡ is_listed xs s && not (is_listed ys s)
  pub map_lem : (f : Text → Text) (xs : List Text) → a.map f xs ≡ map f xs

abbrev pub AreListed : List Text → List Text → Type 0
AreListed ys xs = All (λ x. is_listed ys x ≡ true) xs
