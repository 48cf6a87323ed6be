-- ===== src/Tests/UtilLaws.antt =====
-- The theorems on preferences and on clients at concrete headers.
use go_relax.Base.{none, some, is_some, not, ◌&&◌, ◌≡◌, map, drop, length, if◌then◌else◌}
use go_relax.Text.{Text, codes, split, has_prefix, has_byte}
use go_relax.Http.Header
use go_relax.Http.Request.{Request}
use go_relax.Util.{Quality, parse_preferences, get_real_ip}
use go_relax.Util.Client.{up_to, all_bytes, get_real_ip-is_some}
use go_relax.Util.Preferences.{entry, are_read, last_named, looked_up, parse_preferences-entry}
use go_relax.Tests.CoreLaws.{get_request}
use go_relax.Tests.ServiceLaws.{naturals}

-- A quality is the number of its digits.
abbrev counting : Quality
counting = record naturals { parse_float = λ s. some (length s) }

abbrev accepted : Text
accepted = codes "de;q=0.75, fr, de;q=1"

parse_preferences-entry_example :
    looked_up counting (codes "de") (parse_preferences counting accepted) ≡ (
      if are_read counting (map (entry counting) (split accepted b','))
      then some (last_named counting (codes "de") (map (entry counting) (split accepted b',')))
      else none)
parse_preferences-entry_example = parse_preferences-entry counting (codes "de") accepted

abbrev proxied : Request
proxied = record get_request {
  header = Header.set (codes "Forwarded") (codes "for=\"\",by=me") get_request.header;
}

get_real_ip-is_some_example : is_some (get_real_ip proxied) ≡ (
    let front = up_to b',' (Header.get proxied.header (codes "Forwarded")) in
    not (
      has_prefix front (codes "for=") && all_bytes (λ c. has_byte c (codes "\"][")) (drop 4 front)))
get_real_ip-is_some_example = get_real_ip-is_some proxied
