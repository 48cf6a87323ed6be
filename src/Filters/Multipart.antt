-- ===== src/Filters/Multipart.antt =====
-- filter/multipart/multipart.go: a file upload is parsed and its files are checked. The parser of
-- multipart forms and the packages mime and filepath are parameters.
pub mod Uploads
pub mod Limited
use go_relax.Base.{ℕ, Bool, true, false, Option, none, some, List, [], ◌∷◌, ◌==◌, if◌then◌else◌}
use go_relax.Text.{Text, codes, text_eq, is_empty}
use go_relax.Http.Header
use go_relax.Http.Request.{Request}
use go_relax.Context.{HandlerFunc, files, set, error}
use go_relax.Service.{Target, a_service, a_resource, a_router, a_function, Filter}
use go_relax.Content.{Mime, media_type, bad_media_type}

-- ParseMultipartForm: the names of the files under "files", or an error; `none` is a form without
-- that key.
pub data Form : Type 0 where
  form : Option (List Text) → Form
  bad_form : Text → Form

-- `file_ext` is filepath.Ext of filepath.Base of filepath.Clean.
pub record Upload : Type 0 where
  pub mime : Mime
  pub parse_form : ℕ → Request → Form
  pub file_ext : Text → Text

-- The first lines of Run: 4 MiB by default.
unfoldable pub max_memory : ℕ → ℕ
max_memory n = if n == 0 then 4194304 else n

-- The loop over the files: the error of the first file that is refused.
unfoldable pub check_files : Upload → List Text → Option Text
unfolding codes
check_files u [] = none
check_files u (name ∷ names) =
    let ext = u.file_ext name in
    if is_empty ext
    then some (codes "could not get the file extension")
    else if is_empty (u.mime.type_by_extension ext)
    then some (codes "file type is unknown")
    else check_files u names

unfoldable pub take_files : Upload → Form → HandlerFunc → HandlerFunc
unfolding codes
take_files u (bad_form err) next c = error 400 err none c
take_files u (form none) next c = error 400 (codes "insufficient parameters") none c
take_files u (form (some names)) next c = elim (check_files u names) [
  | some err ↦ error 400 err none c
  | none ↦ next (set (codes "multipart.files") (files names) c)
]

-- Run
unfoldable pub run : Upload → ℕ → HandlerFunc → HandlerFunc
unfolding codes
run u limit next c =
    if text_eq c.request.method (codes "POST")
    then elim (u.mime.parse_media_type (Header.get c.request.header (codes "Content-Type"))) [
      | bad_media_type err ↦ error 400 err none c
      | media_type ct params ↦
          if text_eq ct (codes "multipart/form-data")
          then take_files u (u.parse_form (max_memory limit) c.request) next c
          else error 415 (codes "That media type is not supported for transfer.")
              (some (codes "Expecting multipart/form-data")) c
    ]
    else next c

-- RunIn: only a Router is accepted.
unfoldable pub run_in : Target → Bool
run_in a_router = true
run_in a_service = false
run_in a_resource = false
run_in a_function = false

-- The filter, as a service or a resource takes it.
unfoldable pub filter : Upload → ℕ → Filter
unfolding run run_in
filter u limit = record { run = run u limit; run_in = some run_in }
