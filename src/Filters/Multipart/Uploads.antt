-- ===== src/Filters/Multipart/Uploads.antt =====
-- Which uploads filter/multipart/multipart.go lets through.
use go_relax.Base.{
  ℕ, false, Option, none, some, List, [], ◌∷◌, ◌≡◌, ◌⊎◌, refl, inl, inr, All, subst, sym,
  Bool-cases, Option-cases, arith,
}
use go_relax.Text.{Text, codes, text_eq, is_empty}
use go_relax.Http.Header
use go_relax.Context.{Context, HandlerFunc, Outcome, files, set, error}
use go_relax.Content.Endings.{MediaType-cases}
use go_relax.Filters.Multipart.{
  Upload, Form, form, bad_form, max_memory, check_files, take_files, run,
}

-- The name has an extension, and that has a media type.
abbrev pub IsKnown : Upload → Text → Type 0
IsKnown u name =
    (is_empty (u.file_ext name) ≡ false)
    × (is_empty (u.mime.type_by_extension (u.file_ext name)) ≡ false)

-- A request that is no POST goes on as it is; an upload goes on with its files, all of them known; or
-- the response is an error with the status 400 or 415.
pub data Ends (u : Upload) (limit : ℕ) (next : HandlerFunc) (c : Context) (out : Outcome)
    : Type 0 where
  passed : text_eq c.request.method (codes "POST") ≡ false → out ≡ next c → Ends u limit next c out
  uploaded :
      (names : List Text)
      → u.parse_form (max_memory limit) c.request ≡ form (some names)
      → All (IsKnown u) names
      → out ≡ next (set (codes "multipart.files") (files names) c)
      → Ends u limit next c out
  refused :
      (code : ℕ) (m : Text) (details : Option Text)
      → (code ≡ 400) ⊎ (code ≡ 415)
      → out ≡ error code m details c
      → Ends u limit next c out

Form-cases :
    (f : Form)
    → ((err : Text) × (f ≡ bad_form err))
      ⊎ (f ≡ form none)
      ⊎ ((names : List Text) × (f ≡ form (some names)))
Form-cases (bad_form err) = inl (err, refl)
Form-cases (form none) = inr (inl refl)
Form-cases (form (some names)) = inr (inr (names, refl))

check_files-IsKnown :
    (u : Upload) (names : List Text) → check_files u names ≡ none → All (IsKnown u) names
unfolding check_files
check_files-IsKnown u [] h = tt
check_files-IsKnown u (name ∷ names) h = elim (Bool-cases (is_empty (u.file_ext name))) [
  | inl bare ↦ absurd (ground arith)
  | inr there ↦ elim (Bool-cases (is_empty (u.mime.type_by_extension (u.file_ext name)))) [
    | inl unknown ↦ absurd (ground arith)
    | inr known ↦ ((there, known), check_files-IsKnown u names (ground arith))
  ]
]

take_files-Ends :
    (u : Upload) (limit : ℕ) (next : HandlerFunc) (c : Context)
    → Ends u limit next c (take_files u (u.parse_form (max_memory limit) c.request) next c)
unfolding take_files
take_files-Ends u limit next c = elim (Form-cases (u.parse_form (max_memory limit) c.request)) [
  | inl (err, bad) ↦ refused 400 err none (inl refl) (rw (bad, take_files) refl)
  | inr (inl missing) ↦
      refused 400 (codes "insufficient parameters") none (inl refl) (rw (missing, take_files) refl)
  | inr (inr (names, there)) ↦ elim (Option-cases (check_files u names)) [
    | inl fine ↦
        uploaded names there (check_files-IsKnown u names fine) (rw (there, fine, take_files) refl)
    | inr (err, bad) ↦ refused 400 err none (inl refl) (rw (there, bad, take_files) refl)
  ]
]

-- The filter multipart gives a request that is no POST to the handler as it is, and an upload with the
-- files of its form, each of which has an extension with a known media type; else the response is an
-- error with the status 400 or 415.
pub run-Ends :
    (u : Upload) (limit : ℕ) (next : HandlerFunc) (c : Context)
    → Ends u limit next c (run u limit next c)
unfolding run
run-Ends u limit next c =
    let ct_header = Header.get c.request.header (codes "Content-Type") in
    elim (Bool-cases (text_eq c.request.method (codes "POST"))) [
      | inr other ↦ passed other (rw (other, run) refl)
      | inl post ↦ elim (MediaType-cases (u.mime.parse_media_type ct_header)) [
        | inl (err, bad) ↦ refused 400 err none (inl refl) (rw (post, bad, run) refl)
        | inr (ct, params, parsed) ↦ elim (Bool-cases (text_eq ct (codes "multipart/form-data"))) [
          | inr wrong ↦
              refused 415 (codes "That media type is not supported for transfer.")
                (some (codes "Expecting multipart/form-data")) (inr refl)
                (rw (post, parsed, wrong, run) refl)
          | inl right ↦
              let parsed_form = u.parse_form (max_memory limit) c.request in
              let same : run u limit next c ≡ take_files u parsed_form next c =
                rw (post, parsed, right, run) refl in
              subst (λ out. Ends u limit next c out) (sym same) (take_files-Ends u limit next c)
        ]
      ]
    ]
