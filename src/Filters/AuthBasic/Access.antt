-- ===== src/Filters/AuthBasic/Access.antt =====
-- Who gets past filter/authbasic/authbasic.go.
use go_relax.Base.{true, some, [], ◌∷◌, ◌≡◌, refl, inl, inr, Bool-cases, arith}
use go_relax.Text.{Text, codes, text_eq}
use go_relax.Http.Header
use go_relax.Context.{Context, panicked, text, get, set, find_value}
use go_relax.Filters.AuthBasic.{
  AuthBasic, Decoded, Credentials, credentials, refused, get_user_pass, deny_all_access, or_deny,
  authorize, check, with_defaults, run,
}

-- The credentials `k` are those of a user that the function of the filter accepts, and the context
-- names the user.
abbrev pub IsAccepted : AuthBasic → Credentials → Context → Type 0
IsAccepted f k c =
    (user : Text) × (pass : Text) × (k ≡ credentials user pass)
    × (or_deny f.authenticate user pass ≡ true)
    × (get (codes "auth.user") c ≡ some (text user))

check-IsAccepted :
    (f : AuthBasic) (k : Credentials) (m : Text) (c c' : Context)
    → check f k (panicked m) c ≡ panicked m c'
    → IsAccepted f k c'
unfolding check get set find_value text_eq codes
check-IsAccepted f (refused err) m c c' h = absurd cc
check-IsAccepted f (credentials user pass) m c c' h =
    elim (Bool-cases (or_deny f.authenticate user pass)) [
      | inl ok ↦ (user, pass, refl, ok, ground arith)
      | inr denied ↦ absurd (ground arith)
    ]

authorize-IsAccepted :
    (decode : Text → Decoded) (f : AuthBasic) (a m : Text) (c c' : Context)
    → authorize decode f a (panicked m) c ≡ panicked m c'
    → IsAccepted f (get_user_pass decode a) c'
unfolding authorize
authorize-IsAccepted decode f [] m c c' h = absurd cc
authorize-IsAccepted decode f (b ∷ s) m c c' h =
    check-IsAccepted f (get_user_pass decode (b ∷ s)) m c c' h

-- A handler behind the filter is reached, as is seen by its panic, only with credentials in the header
-- `Authorization` that the function of the filter accepts, and it finds the user in its context.
pub run-IsAccepted :
    (decode : Text → Decoded) (f : AuthBasic) (m : Text) (c c' : Context)
    → run decode f (panicked m) c ≡ panicked m c'
    → IsAccepted f (get_user_pass decode (Header.get c.request.header (codes "Authorization"))) c'
unfolding run with_defaults deny_all_access
run-IsAccepted decode f m c c' h =
    let a = Header.get c.request.header (codes "Authorization") in
    let g = with_defaults f in
    let (user, pass, given, accepted, named) = authorize-IsAccepted decode g a m c c' h in
    (user, pass, given, accepted, named)
