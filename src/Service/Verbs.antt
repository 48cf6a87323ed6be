-- ===== src/Service/Verbs.antt =====
-- The aliases of `Route` in resource.go, by the method.
use go_relax.Base.{ℕ, Option, String, List}
use go_relax.Text.{Text, codes}
use go_relax.Router.Segment.{Regexp}
use go_relax.Service.{RouteHandler, Filter, Resource, Service}
use go_relax.Service.Resources.{route}

module _ (compile : Text → Option Regexp) (i : ℕ) (r : Resource) where
  abbrev Verb : Type 0
  Verb = Text → RouteHandler → List Filter → Service → Option Service

  abbrev alias : String → Verb
  alias method path h filters svc = route compile i r (codes method) path h filters svc

  -- DELETE
  unfoldable pub delete : Verb
  delete = alias "DELETE"

  -- GET
  unfoldable pub get : Verb
  get = alias "GET"

  -- OPTIONS
  unfoldable pub options : Verb
  options = alias "OPTIONS"

  -- PATCH
  unfoldable pub patch : Verb
  patch = alias "PATCH"

  -- POST
  unfoldable pub post : Verb
  post = alias "POST"

  -- PUT
  unfoldable pub put : Verb
  put = alias "PUT"
