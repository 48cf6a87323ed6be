-- ===== src/Filters/Override/Method.antt =====
-- Which methods filter/override/override.go lets through.
use go_relax.Base.{subst, none, some, ◌≡◌, ◌⊎◌, inl, inr, ap, Bool-cases, Option-cases, arith, ◌++◌}
use go_relax.Text.{Text, text_eq, is_empty, codes}
use go_relax.Text.Laws.{text_eq_iff}
use go_relax.Http.Header
use go_relax.Context.{Context, returned, set}
use go_relax.Context.Laws.{error-request}
use go_relax.Filters.Override.{
  Override, or_methods, method_for, override_method, take_query, with_defaults, run,
}

-- A request with the method `old` may go on with the method `new`.
abbrev pub IsAllowed : Override → Text → Text → Type 0
IsAllowed f old new = (new ≡ old) ⊎ (method_for new (or_methods f.methods) ≡ some old)

override_method-IsAllowed :
    (f : Override) (o : Text) (c c' : Context)
    → override_method f o returned c ≡ returned c'
    → IsAllowed f c.request.method c'.request.method
unfolding override_method set
override_method-IsAllowed f o c c' h = elim (Bool-cases (is_empty o)) [
  | inl empty ↦ inl (ground arith)
  | inr asked ↦ elim (Bool-cases (text_eq o c.request.method)) [
    | inl same ↦ inl (ground arith)
    | inr other ↦ elim (Option-cases (method_for o (or_methods f.methods))) [
      | inl unknown ↦ inl (
          ap (λ r. r.method)
            (error-request 400 (o ++ codes " method is not overridable.") none c c' (ground arith)))
      | inr (m, listed) ↦ elim (Bool-cases (text_eq c.request.method m)) [
        | inl fits ↦ inr (ground (arith, text_eq_iff c.request.method m))
        | inr wrong ↦ inl (
            ap (λ r. r.method)
              (error-request 412 (codes "Must use " ++ m ++ codes " to override " ++ o) none c c'
                (ground arith)))
      ]
    ]
  ]
]

take_query-method :
    (f : Override) (c : Context) → (take_query f c.request).method ≡ c.request.method
unfolding take_query
take_query-method f c = ground arith

-- With a handler that returns its context as it is, the filter returns only a request with the method
-- that it came with, or with one that the table lists with the method that it came with.
pub run-IsAllowed :
    (f : Override) (c c' : Context)
    → run f returned c ≡ returned c'
    → IsAllowed f c.request.method c'.request.method
unfolding run with_defaults
run-IsAllowed f c c' h =
    let g = with_defaults f in
    let r = take_query g c.request in
    let o = Header.get r.header g.header in
    subst (λ m. IsAllowed f m c'.request.method) (take_query-method g c)
      (override_method-IsAllowed g o (record c { request = r }) c' h)
