-- ===== src/Service/Root.antt =====
-- The root resource: `Index`, `Options` and `NewService` of service.go. `none` is a panic.
use go_relax.Base.{ℕ, Option, none, some, List, [], ◌∷◌, ◌++◌, if◌then◌else◌}
use go_relax.Text.{Text, codes, text_eq, trim_suffix}
use go_relax.Context.{Context, texts, add_header, respond}
use go_relax.Router.Segment.{Regexp}
use go_relax.Router.Trie.{Cache, ◌>>=◌}
use go_relax.Linking.{Link, link_string}
use go_relax.Encoder.{Encoder}
use go_relax.Content.{Defaults}
use go_relax.Service.{ResourceView, RouteHandler, Resource, Service, Entity, use_all, bare_service}
use go_relax.Service.Resources.{route, options_handler}

unfoldable pub set_text : Text → Text → List (Text × Text) → List (Text × Text)
unfolding text_eq
set_text k v [] = (k, v) ∷ []
set_text k v ((j, w) ∷ more) = if text_eq j k then (k, v) ∷ more else (j, w) ∷ set_text k v more

unfoldable pub add_collection_links : List Link → Context → Context
unfolding text_eq codes add_header link_string
add_collection_links [] c = c
add_collection_links (l ∷ ls) c =
    add_collection_links ls
      (if text_eq l.rel (codes "collection") then add_header "Link" (link_string l) c else c)

unfoldable pub list_resources :
    List ResourceView → List (Text × Text) → Context → List (Text × Text) × Context
unfolding set_text add_collection_links
list_resources [] out c = (out, c)
list_resources (r ∷ rs) out c =
    list_resources rs (set_text r.name r.path out) (add_collection_links r.links c)

-- Service.Index
unfoldable pub index : RouteHandler
unfolding list_resources respond
index view c = let (out, c') = list_resources view.resources [] c in respond (texts out) none c'

-- Service.Options
unfoldable pub service_options : Defaults → RouteHandler
unfolding respond codes
service_options d view =
    respond
      (texts (
        (codes "base_href", view.uri_string)
        ∷ (
          codes "mediatype_template",
          d.mediatype ++ codes "+{subtype}; version={version}; lang={language}",
        )
        ∷ (codes "version_default", d.version)
        ∷ (codes "language_default", d.language)
        ∷ (codes "encoding_default", view.json_accept)
        ∷ []))
      none

-- NewService, for the path of the parsed URI and the text of the URI with a given path.
unfoldable pub new_service :
    (Text → Option Regexp)
    → Cache
    → Defaults
    → Text
    → Text
    → (Text → Text)
    → ℕ
    → Encoder
    → List Entity
    → Option Service
unfolding bare_service use_all route index service_options options_handler trim_suffix codes
new_service compile cache d host path string_of now json entities =
    let svc = use_all entities (bare_service cache host path string_of now json) in
    let root : Resource = record {
      name = codes "_root";
      path = trim_suffix svc.path (codes "/");
      collection = record {
        type_name = codes "*relax.Service";
        index = index;
        options = some (service_options d);
        crud = none;
      };
      links = [];
      filters = [];
    } in
    do
      s1 ← route compile 0 root (codes "GET") [] index [] svc
      s2 ←
          route compile 0 root (codes "OPTIONS") [] (options_handler (some (service_options d))) []
            s1
      some (record s2 { resources = s2.resources ++ root ∷ [] })
