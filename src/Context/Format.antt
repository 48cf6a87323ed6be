-- ===== src/Context/Format.antt =====
-- `Format` of context.go: the verbs of log formats. Package time and the clock are parameters.
use go_relax.Base.{
  ℕ, zero, suc, Bool, Option, none, some, List, [], ◌∷◌, ◌++◌, ltb, ◌==◌, if◌then◌else◌, length,
  take,
}
use go_relax.Http.Header
use go_relax.Text.{Text, codes, split, itoa}
use go_relax.Context.{Context, Value, text, time, get, status_of, bytes_of}
use go_relax.Util.{get_real_ip}

-- Texts of statuses, of a time, and of the seconds since a time, with a precision if there is one;
-- `is_zero_time` is the test of `IsZero`.
pub record Printing : Type 0 where
  pub status_text : ℕ → Text
  pub format_time : ℕ → Text
  pub format_since : ℕ → Option ℕ → Text
  pub is_zero_time : ℕ → Bool

-- What a verb writes. A plain text is written as it is, a cut one up to the precision.
pub data Printed : Type 0 where
  plain : Text → Printed
  cut : Text → Printed
  panic : Printed

abbrev dash : Text
dash = b'-' ∷ []

abbrev nth : ℕ → List Text → Option Text
nth i [] = none
nth zero (x ∷ xs) = some x
nth (suc i) (x ∷ xs) = nth i xs

abbrev cut_or : Option Text → Text → Printed
cut_or none d = cut d
cut_or (some t) d = cut t

abbrev cut_or_panic : Option Text → Printed
cut_or_panic none = panic
cut_or_panic (some t) = cut t

abbrev plain_dash_or : Option Text → Printed
plain_dash_or none = plain dash
plain_dash_or (some t) = cut t

-- ctx.Get("request.start_time").(time.Time)
abbrev start_time : Option Value → Option ℕ
start_time (some (time t)) = some t
start_time _ = none

-- ctx.Get("request.id").(string)
abbrev text_value : Option Value → Option Text
text_value (some (text t)) = some t
text_value _ = none

abbrev print_start : Printing → Option ℕ → Printed
print_start p none = panic
print_start p (some t) = cut (p.format_time t)

-- The precision is that of the number, and cuts nothing.
abbrev print_since : Printing → Option ℕ → Option ℕ → Printed
print_since p precision none = panic
print_since p precision (some t) =
    if p.is_zero_time t then plain (codes "%!(BADTIME)") else plain (p.format_since t precision)

-- The text of a verb; a verb that is not known has none.
unfoldable pub verb : Printing → Context → Bool → Option ℕ → ℕ → Printed
unfolding codes split itoa get status_of bytes_of get_real_ip Header.get
verb p c sharp precision v =
    let r = c.request in
    let request_line = r.method ++ codes " " ++ r.request_uri in
    let status = itoa (status_of c) in
    if v == b'a'
    then (if sharp then cut_or_panic (get_real_ip r) else cut r.remote_addr)
    else if v == b'b'
    then (if bytes_of c == 0 then plain dash else cut (itoa (bytes_of c)))
    else if v == b'B'
    then cut (itoa (bytes_of c))
    else if v == b'h'
    then cut_or (nth 0 (split r.remote_addr b':')) []
    else if v == b'l'
    then plain dash
    else if v == b'm'
    then cut r.method
    else if v == b'q'
    then cut r.raw_query
    else if v == b'r'
    then cut (if sharp then request_line else request_line ++ codes " " ++ r.proto)
    else if v == b's'
    then cut (if sharp then status ++ codes " " ++ p.status_text (status_of c) else status)
    else if v == b't'
    then print_start p (start_time (get (codes "request.start_time") c))
    else if v == b'u'
    then plain_dash_or r.user
    else if v == b'v'
    then cut r.host
    else if v == b'A'
    then cut (Header.get r.header (codes "User-Agent"))
    else if v == b'D'
    then print_since p precision (start_time (get (codes "request.start_time") c))
    else if v == b'H'
    then cut r.proto
    else if v == b'I'
    then cut (itoa r.content_length)
    else if v == b'L'
    then cut_or_panic (text_value (get (codes "request.id") c))
    else if v == b'P'
    then cut_or (nth 1 (split r.host b':')) (codes "80")
    else if v == b'R'
    then cut (Header.get r.header (codes "Referer"))
    else if v == b'U'
    then cut r.path
    else cut []

-- The slice `str[:p]` panics where the text is shorter than the precision.
abbrev cut_at : Option ℕ → Text → Option Text
cut_at none s = some s
cut_at (some n) s = if ltb (length s) n then none else some (take n s)

abbrev printed : Option ℕ → Printed → Option Text
printed precision (plain s) = some s
printed precision (cut s) = cut_at precision s
printed precision panic = none

-- Format: the text that is written; `none` is a panic.
unfoldable pub format : Printing → Context → Bool → Option ℕ → ℕ → Option Text
unfolding verb
format p c sharp precision v = printed precision (verb p c sharp precision v)
