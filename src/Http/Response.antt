-- ===== src/Http/Response.antt =====
-- The response writer of `net/http`: a header map, the status and headers that are sent with the
-- first write, and the body. Informational (1xx) statuses are treated as any other status.
use go_relax.Base.{
  ℕ, Bool, true, false, ◌||◌, Option, none, some, [], ◌++◌, ◌==◌, if◌then◌else◌, length,
}
use go_relax.Text.{Text}
use go_relax.Http.Header.{Header, no_header}

pub record Response : Type 0 where
  pub header : Header
  pub sent : Option (ℕ × Header)
  pub body : Text

abbrev pub fresh : Response
fresh = record { header = no_header; sent = none; body = [] }

-- Only the first call counts.
abbrev send_once : Response → ℕ → Option (ℕ × Header) → Response
send_once r code none = record r { sent = some (code, r.header) }
send_once r code (some s) = r

unfoldable pub write_header : ℕ → Response → Response
write_header code r = send_once r code r.sent

abbrev pub forbids_body : Option (ℕ × Header) → Bool
forbids_body none = false
forbids_body (some (code, h)) = code == 204 || code == 304

-- The new response, the number of bytes written and whether the write failed: it does where the
-- status allows no body.
unfoldable pub write : Text → Response → Response × ℕ × Bool
unfolding write_header
write b r =
    let r' = write_header 200 r in
    if forbids_body r'.sent
    then (r', 0, true)
    else (record r' { body = r'.body ++ b }, length b, false)
