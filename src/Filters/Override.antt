-- ===== src/Filters/Override.antt =====
-- filter/override/override.go: the method of a request is replaced if a header or a query asks for it.
pub mod Method
use go_relax.Base.{Option, none, some, String, List, [], ◌∷◌, ◌++◌, if◌then◌else◌}
use go_relax.Text.{Text, codes, text_eq, is_empty}
use go_relax.Http.Header
use go_relax.Http.Request.{Request}
use go_relax.Context.{HandlerFunc, text, set, error}

pub record Override : Type 0 where
  pub header : Text
  pub query_var : Text
  pub methods : Option (List (Text × Text))

abbrev default_methods : List (Text × Text)
default_methods =
    (codes "DELETE", codes "POST")
    ∷ (codes "OPTIONS", codes "GET")
    ∷ (codes "PATCH", codes "POST")
    ∷ (codes "PUT", codes "POST")
    ∷ []

abbrev pub or_text : Text → String → Text
or_text [] d = codes d
or_text (c ∷ s) d = c ∷ s

abbrev pub or_methods : Option (List (Text × Text)) → List (Text × Text)
or_methods none = default_methods
or_methods (some ms) = ms

-- The first lines of Run
unfoldable pub with_defaults : Override → Override
unfolding codes
with_defaults f = record {
  header = or_text f.header "X-HTTP-Method-Override";
  query_var = or_text f.query_var "_method";
  methods = some (or_methods f.methods);
}

-- f.Methods[override]
unfoldable pub method_for : Text → List (Text × Text) → Option Text
unfolding text_eq
method_for key [] = none
method_for key ((k, m) ∷ more) = if text_eq k key then some m else method_for key more

-- A query sets the header.
unfoldable pub take_query : Override → Request → Request
unfolding Header.set
take_query f r = elim (r.query f.query_var) [
  | [] ↦ r
  | c ∷ s ↦ record r { header = Header.set f.header (c ∷ s) r.header }
]

abbrev replace_method : Override → Text → Request → Request
replace_method f override r = record r { method = override; header = Header.del f.header r.header }

-- The method that is asked for, if it is another one, must be listed with the method of the request.
unfoldable pub override_method : Override → Text → HandlerFunc → HandlerFunc
unfolding text_eq method_for codes error set Header.del
override_method f override next c =
    if is_empty override
    then next c
    else if text_eq override c.request.method
    then next c
    else elim (method_for override (or_methods f.methods)) [
      | none ↦ error 400 (override ++ codes " method is not overridable.") none c
      | some method ↦
          if text_eq c.request.method method
          then next (
              set (codes "override.method") (text override)
                (record c { request = replace_method f override c.request }))
          else error 412 (codes "Must use " ++ method ++ codes " to override " ++ override) none c
    ]

-- Run
unfoldable pub run : Override → HandlerFunc → HandlerFunc
unfolding with_defaults take_query override_method Header.get
run f next c =
    let g = with_defaults f in
    let r = take_query g c.request in
    override_method g (Header.get r.header g.header) next (record c { request = r })
