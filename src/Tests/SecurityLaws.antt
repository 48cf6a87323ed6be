-- ===== src/Tests/SecurityLaws.antt =====
-- The theorems on the filters security and multipart, at a request with a user agent and at an upload.
use go_relax.Base.{◌∷◌, some, if◌then◌else◌, true, false, not, ◌&&◌, none, [], ◌≡◌, ◌⊎◌, refl}
use go_relax.Text.{codes, text_eq}
use go_relax.Http.Header
use go_relax.Http.Header.{no_header}
use go_relax.Http.Response.{fresh}
use go_relax.Context.{Context, returned, error}
use go_relax.Filters.Security.{Security, with_defaults, is_refused_agent, run}
use go_relax.Filters.Security.Headers.{IsSecured, run-IsSecured}
use go_relax.Filters.Multipart.{Upload, form}
use go_relax.Content.{media_type}
use go_relax.Util.{path_ext}
use go_relax.Tests.CoreLaws.{new_one, get_request}

abbrev plain : Security
plain = record {
  ua_check_disable = false;
  ua_check_err_msg = [];
  x_frame_disable = false;
  x_frame_options = codes "DENY";
  xcto_disable = false;
  hsts_disable = false;
  hsts_options = [];
  cache_disable = false;
  cache_options = [];
  pragma_disable = true;
}

abbrev browser : Context
browser = record new_one {
  request = record get_request {
    header = Header.set (codes "User-Agent") (codes "curl/8.0") no_header;
  };
}

run-IsSecured_example :
    ((not plain.ua_check_disable && is_refused_agent browser.request ≡ true)
      × (run plain returned browser
          ≡ error 403 (with_defaults plain).ua_check_err_msg none browser))
    ⊎ ((not plain.ua_check_disable && is_refused_agent browser.request ≡ false)
        × (c' : Context) × IsSecured (with_defaults plain) browser c'
        × (run plain returned browser ≡ returned c'))
run-IsSecured_example = run-IsSecured plain returned browser fresh refl

abbrev pub uploads : Upload
uploads = record {
  mime = record {
    parse_media_type = λ t. media_type t (λ key. none);
    type_by_extension = λ ext. if text_eq ext (codes ".png") then codes "image/png" else [];
  };
  parse_form = λ limit q. form (some (codes "a.png" ∷ []));
  file_ext = path_ext;
}
