-- ===== src/Content.antt =====
-- content.go: content negotiation. The package mime is a parameter, and so is the order in which a
-- range over a map visits its entries.
pub mod Language
pub mod Endings
pub mod Outcomes
use go_relax.Base.{
  String, Option, none, some, List, [], ◌∷◌, ◌++◌, ◌==◌, if◌then◌else◌, get_or, is_some,
}
use go_relax.Text.{Text, codes, text_eq, has_prefix, is_empty, trim_suffix, after_first}
use go_relax.Http.Header
use go_relax.Context.{Context, HandlerFunc, panicked, text, set, set_header, error}
use go_relax.Util.{Quality, Prefs, set_pref, pref, parse_preferences, path_ext}
use go_relax.Encoder.{Encoder}

-- mime.ParseMediaType returns a type and its parameters, or an error.
pub data MediaType : Type 0 where
  media_type : Text → (Text → Option Text) → MediaType
  bad_media_type : Text → MediaType

pub record Mime : Type 0 where
  pub parse_media_type : Text → MediaType
  pub type_by_extension : Text → Text

-- The variable Content
pub record Defaults : Type 0 where
  pub mediatype : Text
  pub version : Text
  pub language : Text

-- What init assigns
unfoldable pub init_content : Defaults
unfolding codes
init_content = record {
  mediatype = codes "application/vnd.codehack.relax";
  version = codes "current";
  language = codes "en-US";
}

-- svc.encoders
abbrev pub Encoders : Type 0
Encoders = List (Text × Encoder)

unfoldable pub find_encoder : Text → Encoders → Option Encoder
unfolding text_eq
find_encoder t [] = none
find_encoder t ((k, e) ∷ more) = if text_eq k t then some e else find_encoder t more

unfoldable pub accept_version : Defaults → Text → Text
accept_version d version = if is_empty version then d.version else version

module _ (q : Quality) where
  open q use {Q, zero_q, competitive, gt}

  abbrev pub quality_of : Prefs q → Text → Q
  quality_of prefs code = get_or (pref q code prefs) zero_q

  -- The loop over the entries, in the order in which they come.
  unfoldable pub best_language : Prefs q → Prefs q → Text → Text
  unfolding pref
  best_language prefs [] langcode = langcode
  best_language prefs ((code, value) ∷ more) langcode =
      best_language prefs more (if gt value (quality_of prefs langcode) then code else langcode)

  -- The default language takes part with a value of its own, unless it is listed.
  unfoldable pub with_default : Text → Prefs q → Prefs q
  unfolding pref set_pref
  with_default langcode prefs =
      if is_some (pref q langcode prefs) then prefs else set_pref q langcode competitive prefs

  unfoldable pub accept_language : Defaults → (Prefs q → Prefs q) → Text → Text
  unfolding best_language with_default parse_preferences
  accept_language d order [] = d.language
  accept_language d order (c ∷ s) = elim (parse_preferences q (c ∷ s)) [
    | none ↦ d.language
    | some prefs ↦
        let prefs' = with_default d.language prefs in best_language prefs' (order prefs') d.language
  ]

-- The path's extension asks for a subtype, where every type is accepted: the new value of Accept,
-- and the request without the extension.
unfoldable pub accept_extension : Defaults → Text → Context → Text × Context
unfolding text_eq codes path_ext trim_suffix
accept_extension d accept c =
    if text_eq accept (codes "*/*")
    then elim (path_ext c.request.path) [
      | [] ↦ (accept, c)
      | dot ∷ ext ↦ (
        d.mediatype ++ codes "+" ++ ext,
        record c { request = record c.request { path = trim_suffix c.request.path (dot ∷ ext) } },
      )
    ]
    else (accept, c)

-- What is asked of the response: the encoder, the version and the language.
pub record Asked : Type 0 where
  pub encoder : Encoder
  pub version : Text
  pub language : Text

pub data Negotiated : Type 0 where
  agreed : Asked → Negotiated
  bad_accept : Text → Negotiated
  not_acceptable : Negotiated

abbrev pub refine : (Text → Option Text) → Asked → Asked
refine op a = record a {
  version = get_or (op (codes "version")) a.version;
  language = get_or (op (codes "lang")) a.language;
}

-- The vendor media type is looked into, any other leaves the defaults.
unfoldable pub negotiate : Defaults → Mime → Encoders → Text → Asked → Negotiated
unfolding has_prefix after_first codes
negotiate d mime encoders accept a =
    if has_prefix accept d.mediatype
    then elim (mime.parse_media_type accept) [
      | bad_media_type err ↦ bad_accept err
      | media_type mt op ↦ elim (after_first b'+' mt) [
        | none ↦ agreed (refine op a)
        | some sub ↦ elim (find_encoder (mime.type_by_extension (codes "." ++ sub)) encoders) [
          | none ↦ not_acceptable
          | some enc ↦ agreed (refine op (record a { encoder = enc }))
        ]
      ]
    ]
    else agreed a

-- The payload of a request with an unsafe method: POST, PUT or PATCH, told by the first letter.
-- The index is a panic where the method is empty.
unfoldable pub negotiate_payload : Mime → Encoders → Encoder → HandlerFunc → HandlerFunc
negotiate_payload mime encoders json next c = elim c.request.method [
  | [] ↦ panicked [] c
  | m ∷ ethod ↦
      if m == b'P'
      then elim (mime.parse_media_type (Header.get c.request.header (codes "Content-Type"))) [
        | bad_media_type err ↦ error 400 err none c
        | media_type ct op ↦ elim (find_encoder ct encoders) [
          | none ↦
              error 415 (codes "That media type is not supported for transfer.")
                (some (codes "You may use type '" ++ json.accept ++ codes "'")) c
          | some dec ↦
              next
                (set (codes "content.decoding") (text ct) (record c { decode = some dec.decode }))
        ]
      ]
      else next c
]

-- The response to what the negotiation comes to: an error, or the handler with the encoder that is
-- agreed on, in a context that says what was chosen.
unfoldable pub respond_negotiated :
    Mime → Encoders → Encoder → HandlerFunc → Negotiated → HandlerFunc
respond_negotiated mime encoders json next (bad_accept err) c =
    error 400 err none (set_header "Content-Type" json.content_type c)
respond_negotiated mime encoders json next not_acceptable c =
    error 406 (codes "That media type is not supported for response.")
      (some (codes "You may use type '" ++ json.accept ++ codes "'"))
      (set_header "Content-Type" json.content_type c)
respond_negotiated mime encoders json next (agreed a) c =
    let c1 = record c { encode = some a.encoder.encode } in
    let c2 = set_header "Content-Type" a.encoder.content_type c1 in
    let c3 = set (codes "content.encoding") (text a.encoder.accept) c2 in
    let c4 = set (codes "content.version") (text a.version) c3 in
    let c5 = set (codes "content.language") (text a.language) c4 in
    negotiate_payload mime encoders json next c5

-- Content.content: the handler around `next`, for the JSON encoder of the service.
unfoldable pub content :
    (q : Quality) (d : Defaults) (mime : Mime) (order : Prefs q → Prefs q) (encoders : Encoders)
    (json : Encoder)
    → HandlerFunc
    → HandlerFunc
content q d mime order encoders json next c0 =
    let request_header = λ (key : String). Header.get c0.request.header (codes key) in
    let c1 = record c0 { encode = some json.encode; decode = some json.decode } in
    let asked : Asked = record {
      encoder = json;
      version = accept_version d (request_header "Accept-Version");
      language = accept_language q d order (request_header "Accept-Language");
    } in
    let (accept, c2) = accept_extension d (request_header "Accept") c1 in
    respond_negotiated mime encoders json next (negotiate d mime encoders accept asked) c2
