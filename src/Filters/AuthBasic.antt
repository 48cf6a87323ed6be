-- ===== src/Filters/AuthBasic.antt =====
-- filter/authbasic/authbasic.go: HTTP basic authentication. `base64.StdEncoding.DecodeString` is a
-- parameter.
pub mod Access
use go_relax.Base.{Bool, false, Option, none, some, List, [], ◌∷◌, ◌++◌, ◌==◌, ◌&&◌, if◌then◌else◌}
use go_relax.Text.{Text, codes, text_eq, split}
use go_relax.Http.Header
use go_relax.Context.{Context, HandlerFunc, returned, text, set, set_header, http_error}
use go_relax.Filters.Override.{or_text}

-- DecodeString returns a text or an error.
pub data Decoded : Type 0 where
  decoded : Text → Decoded
  corrupt : Text → Decoded

pub record AuthBasic : Type 0 where
  pub realm : Text
  pub authenticate : Option (Text → Text → Bool)

unfoldable pub deny_all_access : Text → Text → Bool
deny_all_access username password = false

pub data Credentials : Type 0 where
  credentials : Text → Text → Credentials
  refused : Text → Credentials

-- ErrAuthInvalidRequest and ErrAuthInvalidSyntax
abbrev invalid_request : Credentials
invalid_request = refused (codes "auth: Invalid authorization request")

abbrev two_parts : List Text → Credentials
two_parts (user ∷ pass ∷ []) = credentials user pass
two_parts _ = refused (codes "auth: Invalid credentials syntax")

abbrev decode_parts : Decoded → Credentials
decode_parts (corrupt err) = refused err
decode_parts (decoded s) = two_parts (split s b':')

abbrev basic_parts : (Text → Decoded) → List Text → Credentials
basic_parts decode (scheme ∷ token ∷ []) =
    if text_eq scheme (codes "Basic") then decode_parts (decode token) else invalid_request
basic_parts decode _ = invalid_request

unfoldable pub get_user_pass : (Text → Decoded) → Text → Credentials
unfolding split text_eq codes
get_user_pass decode header = basic_parts decode (split header 32)

-- strings.Replace s `"'` "" -1
unfoldable pub strip_pair : Text → Text
strip_pair [] = []
strip_pair (c ∷ []) = c ∷ []
strip_pair (c ∷ d ∷ s) =
    let gone = strip_pair s in
    let kept = c ∷ strip_pair (d ∷ s) in if c == b'"' && d == b'\'' then gone else kept

abbrev pub or_deny : Option (Text → Text → Bool) → Text → Text → Bool
or_deny none = deny_all_access
or_deny (some f) = f

-- The first lines of Run
unfoldable pub with_defaults : AuthBasic → AuthBasic
unfolding codes strip_pair deny_all_access
with_defaults f = record {
  realm = strip_pair (or_text f.realm "Authorization Required");
  authenticate = some (or_deny f.authenticate);
}

unfoldable pub must_authenticate : Text → Context → Context
unfolding set_header http_error codes
must_authenticate challenge c =
    http_error (codes "Unauthorized") 401 (set_header "WWW-Authenticate" challenge c)

abbrev challenge : AuthBasic → Text
challenge f = codes "Basic realm=\"" ++ f.realm ++ codes "\""

unfoldable pub check : AuthBasic → Credentials → HandlerFunc → HandlerFunc
unfolding http_error must_authenticate set codes deny_all_access
check f (refused err) next c = returned (http_error err 400 c)
check f (credentials user pass) next c =
    if or_deny f.authenticate user pass
    then next
        (set (codes "auth.type") (text (codes "basic")) (set (codes "auth.user") (text user) c))
    else returned (must_authenticate (challenge f) c)

-- The tests on the header `Authorization`
unfoldable pub authorize : (Text → Decoded) → AuthBasic → Text → HandlerFunc → HandlerFunc
authorize decode f [] next c = returned (must_authenticate (challenge f) c)
authorize decode f (a ∷ s) next c = check f (get_user_pass decode (a ∷ s)) next c

-- Run
unfoldable pub run : (Text → Decoded) → AuthBasic → HandlerFunc → HandlerFunc
run decode f next c =
    authorize decode (with_defaults f) (Header.get c.request.header (codes "Authorization")) next c
