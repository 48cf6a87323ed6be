-- ===== src/Content/Outcomes.antt =====
-- How the content negotiation of content.go ends.
use go_relax.Base.{
  String, ℕ, ◌==◌, append-nil, ◌⊎◌, true, ◌&&◌, not, drop, some, [], ◌∷◌, ◌++◌, ◌≡◌, refl, inl, inr,
  Bool-cases, Option-cases, arith, ap, sym, subst, ◌∙◌, if◌then◌else◌,
}
use go_relax.Text.{is_empty, Text, codes, text_eq, trim_suffix}
use go_relax.Http.Header
use go_relax.Http.Header.Laws.{get-set_self}
use go_relax.Http.Request.{Request}
use go_relax.Http.Response.{Response}
use go_relax.Context.{
  text, Context, HandlerFunc, net, header, set, set_header, with_header, writer_header,
  with_writer_header,
}
use go_relax.Util.{Quality, Prefs, path_ext}
use go_relax.Util.Laws.{trim_suffix_append}
use go_relax.Encoder.{Encoder}
use go_relax.Content.Endings.{
  Answers, Chooses, Ends, handled, unreadable, unacceptable, bad_payload, unsupported, panics,
  no_payload, by_type, Reads, chosen, unread, unknown, MediaType-cases, negotiate-Reads,
}
use go_relax.Content.{
  accept_version, accept_language, Defaults, Mime, Encoders, find_encoder, Asked, Negotiated,
  accept_extension, negotiate, negotiate_payload, respond_negotiated, content,
}

Text-cases : (s : Text) → (s ≡ []) ⊎ ((c : ℕ) × (rest : Text) × (s ≡ c ∷ rest))
Text-cases [] = inl refl
Text-cases (c ∷ rest) = inr (c, rest, refl)

is_P : (m : ℕ) → (m == b'P') ≡ true → m ≡ b'P'
is_P m h = ground arith

module _ (d : Defaults) (mime : Mime) (encoders : Encoders) (json : Encoder) (accept : Text)
    (next : HandlerFunc) where
  negotiate_payload-Ends :
      (e : Encoder) (c : Context)
      → Chooses d mime encoders json accept e
      → Answers c.request e c
      → c.decode ≡ some json.decode
      → Ends d mime encoders json accept c.request next
          (negotiate_payload mime encoders json next c)
  unfolding negotiate_payload set header
  negotiate_payload-Ends e c chooses answers json_first = elim (Text-cases c.request.method) [
    | inl none_given ↦ panics e c chooses none_given (rw none_given refl)
    | inr (m, ethod, given) ↦ elim (Bool-cases (m == b'P')) [
      | inr safe ↦
          handled e c chooses answers (no_payload m ethod given safe json_first)
            (rw (given, safe) refl)
      | inl unsafe ↦
          let payload : c.request.method ≡ b'P' ∷ ethod =
            given ∙ ap (λ (x : ℕ). x ∷ ethod) (is_P m unsafe) in
          let ct_header = Header.get c.request.header (codes "Content-Type") in
          elim (MediaType-cases (mime.parse_media_type ct_header)) [
            | inl (err, bad) ↦
                bad_payload err e c chooses answers (ethod, payload) bad
                  (rw (given, unsafe, bad) refl)
            | inr (ct, op, parsed) ↦ elim (Option-cases (find_encoder ct encoders)) [
              | inl missing ↦
                  unsupported ct op e c chooses answers (ethod, payload) parsed missing
                    (rw (given, unsafe, parsed, missing) refl)
              | inr (dec, there) ↦
                  handled e
                    (set (codes "content.decoding") (text ct)
                      (record c { decode = some dec.decode }))
                    chooses
                    (record { asks = refl; encodes = answers.encodes; declares = answers.declares })
                    (by_type ct op dec (ethod, payload) parsed there refl)
                    (rw (given, unsafe, parsed, there) refl)
            ]
          ]
    ]
  ]

  respond_negotiated-Ends :
      (n : Negotiated) (c : Context) (r : Response)
      → c.writer ≡ net r
      → c.encode ≡ some json.encode
      → c.decode ≡ some json.decode
      → Reads d mime encoders json accept n
      → Ends d mime encoders json accept c.request next
          (respond_negotiated mime encoders json next n c)
  unfolding respond_negotiated set_header with_header writer_header with_writer_header header set
  respond_negotiated-Ends n c r w encodes decodes (unread err vendor bad e) =
      unreadable err (set_header "Content-Type" json.content_type c) vendor bad
        (record {
          asks = refl;
          encodes = encodes;
          declares = rw w (get-set_self r.header (codes "Content-Type") json.content_type);
        })
        (rw e refl)
  respond_negotiated-Ends n c r w encodes decodes (unknown sub has missing e) =
      unacceptable sub (set_header "Content-Type" json.content_type c) has missing
        (record {
          asks = refl;
          encodes = encodes;
          declares = rw w (get-set_self r.header (codes "Content-Type") json.content_type);
        })
        (rw e refl)
  respond_negotiated-Ends n c r w encodes decodes (chosen a e chooses) = rw e (
      negotiate_payload-Ends a.encoder _ chooses
        (record {
          asks = refl;
          encodes = refl;
          declares = rw w (get-set_self r.header (codes "Content-Type") a.encoder.content_type);
        })
        decodes)

accept_extension_keeps :
    (d : Defaults) (accept : Text) (c : Context)
    → ((accept_extension d accept c).1.writer ≡ c.writer)
      × ((accept_extension d accept c).1.encode ≡ c.encode)
      × ((accept_extension d accept c).1.decode ≡ c.decode)
unfolding accept_extension
accept_extension_keeps d accept c = (ground arith, ground arith, ground arith)

-- The value of Accept, or the vendor media type with the extension of the path as its subtype, where
-- every type is accepted.
unfoldable pub wanted : Defaults → Text → Request → Text
wanted d accept q =
    if text_eq accept (codes "*/*") && not (is_empty (path_ext q.path))
    then d.mediatype ++ codes "+" ++ drop 1 (path_ext q.path)
    else accept

accept_extension-wanted :
    (d : Defaults) (accept : Text) (c : Context)
    → (accept_extension d accept c).0 ≡ wanted d accept c.request
unfolding accept_extension wanted
accept_extension-wanted d accept c = elim (Text-cases (path_ext c.request.path)) [
  | inl none_there ↦ elim (Bool-cases (text_eq accept (codes "*/*"))) [
    | inl any ↦ rw (any, none_there) refl
    | inr other ↦ rw other refl
  ]
  | inr (dot, ext, there) ↦ elim (Bool-cases (text_eq accept (codes "*/*"))) [
    | inl any ↦ rw (any, there) refl
    | inr other ↦ rw other refl
  ]
]

-- The request with a value of the header Accept, less the extension of its path where that chooses
-- the type.
unfoldable pub requested : Text → Request → Request
requested accept q =
    if text_eq accept (codes "*/*")
    then record q { path = trim_suffix q.path (path_ext q.path) }
    else q

pub requested_method : (accept : Text) (q : Request) → (requested accept q).method ≡ q.method
unfolding requested
requested_method accept q = ground arith

trim_suffix_nil : (s : Text) → trim_suffix s [] ≡ s
trim_suffix_nil s = subst (λ x. trim_suffix x [] ≡ s) (append-nil s) (trim_suffix_append s [])

accept_extension-requested :
    (d : Defaults) (accept : Text) (c : Context)
    → (accept_extension d accept c).1.request ≡ requested accept c.request
unfolding accept_extension requested
accept_extension-requested d accept c = elim (Text-cases (path_ext c.request.path)) [
  | inl none_there ↦ elim (Bool-cases (text_eq accept (codes "*/*"))) [
    | inl any ↦
        rw (any, none_there)
          (ap (λ p. record c.request { path = p }) (sym (trim_suffix_nil c.request.path)))
    | inr other ↦ rw other refl
  ]
  | inr (dot, ext, there) ↦ elim (Bool-cases (text_eq accept (codes "*/*"))) [
    | inl any ↦ rw (any, there) refl
    | inr other ↦ rw other refl
  ]
]

pub content-Ends :
    (q : Quality) (d : Defaults) (mime : Mime) (order : Prefs q → Prefs q) (encoders : Encoders)
    (json : Encoder) (next : HandlerFunc) (c : Context) (r : Response)
    → c.writer ≡ net r
    → Ends d mime encoders json
        (wanted d (Header.get c.request.header (codes "Accept")) c.request)
        (requested (Header.get c.request.header (codes "Accept")) c.request)
        next
        (content q d mime order encoders json next c)
unfolding content
content-Ends q d mime order encoders json next c r w =
    let request_header = λ (key : String). Header.get c.request.header (codes key) in
    let c1 : Context = record c { encode = some json.encode; decode = some json.decode } in
    let asked : Asked = record {
      encoder = json;
      version = accept_version d (request_header "Accept-Version");
      language = accept_language q d order (request_header "Accept-Language");
    } in
    let step = accept_extension d (request_header "Accept") c1 in
    let (writer, encodes, decodes) = accept_extension_keeps d (request_header "Accept") c1 in
    let law =
      respond_negotiated-Ends d mime encoders json step.0 next
        (negotiate d mime encoders step.0 asked) step.1 r (writer ∙ w) encodes decodes
        (negotiate-Reads d mime encoders step.0 asked) in
    let out = content q d mime order encoders json next c in
    let same = accept_extension-requested d (request_header "Accept") c1 in
    let same' = accept_extension-wanted d (request_header "Accept") c1 in
    subst (λ x. Ends d mime encoders json (wanted d (request_header "Accept") c.request) x next out)
      same (subst (λ a. Ends d mime encoders json a step.1.request next out) same' law)
