-- ===== src/Filters/Cors/Shared.antt =====
-- The list of expressions of filter/cors/cors.go, which all filters of a program share.
use go_relax.Base.{
  Bool, true, false, ◌||◌, Option, some, List, [], ◌∷◌, ◌++◌, ◌≡◌, refl, inl, inr, Option-cases,
  arith,
}
use go_relax.Text.{Text, codes, is_empty}
use go_relax.Http.Header
use go_relax.Context.{Context, HandlerFunc}
use go_relax.Filters.Cors.{
  Web, Cors, with_defaults, origin_pattern, compile_origins, is_origin_allowed, cross_origin, run,
}

is_origin_allowed-append :
    (known more : List (Text → Bool)) (origin : Text)
    → is_origin_allowed (known ++ more) origin
      ≡ (is_origin_allowed known origin || is_origin_allowed more origin)
unfolding is_origin_allowed
is_origin_allowed-append [] more origin = refl
is_origin_allowed-append (re ∷ known) more origin =
    ground (arith, is_origin_allowed-append known more origin)

compile_origins-is_origin_allowed :
    (compile : Text → Option (Text → Bool)) (vs : List Text) (known known' : List (Text → Bool))
    (origin : Text)
    → compile_origins compile vs known ≡ some known'
    → is_origin_allowed known origin ≡ true
    → is_origin_allowed known' origin ≡ true
unfolding compile_origins
compile_origins-is_origin_allowed compile [] known known' origin made allowed = ground arith
compile_origins-is_origin_allowed compile (v ∷ vs) known known' origin made allowed =
    elim (Option-cases (compile (origin_pattern v))) [
      | inl bad ↦ absurd (ground arith)
      | inr (re, compiled) ↦
          compile_origins-is_origin_allowed compile vs (known ++ re ∷ []) known' origin
            (ground arith) (ground (arith, is_origin_allowed-append known (re ∷ []) origin))
    ]

-- An origin that an expression of an earlier filter matches is served as a cross-origin one by every
-- later filter, whatever origins the later filter lists, if it is not strict.
pub run-compile_origins :
    (w : Web) (known known' : List (Text → Bool)) (f : Cors) (origins : List Text)
    (next : HandlerFunc) (c : Context)
    → compile_origins w.compile origins known ≡ some known'
    → is_origin_allowed known (Header.get c.request.header (codes "Origin")) ≡ true
    → is_empty (Header.get c.request.header (codes "Origin")) ≡ false
    → f.strict ≡ false
    → run w known' f next c
      ≡ cross_origin w.strarr
          (with_defaults w.strarr f)
          (Header.get c.request.header (codes "Origin"))
          next
          c
unfolding run with_defaults
run-compile_origins w known known' f origins next c made allowed named lax =
    let origin = Header.get c.request.header (codes "Origin") in
    let still =
      compile_origins-is_origin_allowed w.compile origins known known' origin made allowed in
    ground arith
