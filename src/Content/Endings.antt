-- ===== src/Content/Endings.antt =====
-- The ways in which the content negotiation of content.go can end, and when it ends in which.
use go_relax.Base.{
  ℕ, true, false, ◌==◌, ◌⊎◌, Option, none, some, [], ◌∷◌, ◌++◌, ◌≡◌, refl, inl, inr, Bool-cases,
  Option-cases,
}
use go_relax.Text.{Text, codes, has_prefix, after_first}
use go_relax.Http.Header
use go_relax.Http.Request.{Request}
use go_relax.Context.{Context, HandlerFunc, Outcome, header, panicked, error}
use go_relax.Encoder.{Encoder}
use go_relax.Content.{
  Defaults, Mime, Encoders, MediaType, media_type, bad_media_type, find_encoder, Asked, Negotiated,
  refine, agreed, bad_accept, not_acceptable, negotiate,
}

-- The context is for the request `q`, its response is encoded by the encoder `e`, and has its type as
-- Content-Type.
pub record Answers (q : Request) (e : Encoder) (c : Context) : Type 0 where
  pub asks : c.request ≡ q
  pub encodes : c.encode ≡ some e.encode
  pub declares : Header.get (header c) (codes "Content-Type") ≡ e.content_type

abbrev pub use_type : Encoder → Text
use_type json = codes "You may use type '" ++ json.accept ++ codes "'"

module _ (d : Defaults) (mime : Mime) (encoders : Encoders) (json : Encoder) where
  -- The vendor media type has a subtype.
  pub record HasSubtype (accept sub : Text) : Type 0 where
    pub vendor : has_prefix accept d.mediatype ≡ true
    pub type : Text
    pub options : Text → Option Text
    pub parsed : mime.parse_media_type accept ≡ media_type type options
    pub suffix : after_first b'+' type ≡ some sub

  abbrev pub encoder_for : Text → Option Encoder
  encoder_for sub = find_encoder (mime.type_by_extension (codes "." ++ sub)) encoders

  -- The encoder that a value of Accept chooses: JSON, where it is not the vendor media type or has no
  -- subtype, or else the one for the subtype.
  pub data Chooses (accept : Text) (e : Encoder) : Type 0 where
    by_default : has_prefix accept d.mediatype ≡ false → e ≡ json → Chooses accept e
    without_subtype :
        (mt : Text) (op : Text → Option Text)
        → has_prefix accept d.mediatype ≡ true
        → mime.parse_media_type accept ≡ media_type mt op
        → after_first b'+' mt ≡ none
        → e ≡ json
        → Chooses accept e
    by_subtype : (sub : Text) → HasSubtype accept sub → encoder_for sub ≡ some e → Chooses accept e

  -- The method is POST, PUT or PATCH, by its first letter.
  abbrev pub HasPayload : Request → Type 0
  HasPayload q = (ethod : Text) × (q.method ≡ b'P' ∷ ethod)

  abbrev pub content_type_of : Request → Text
  content_type_of q = Header.get q.header (codes "Content-Type")

  -- The decoder of the context is that for the type of the payload, or JSON where there is none.
  pub data Decodes (q : Request) (c : Context) : Type 0 where
    no_payload :
        (m : ℕ) (ethod : Text)
        → q.method ≡ m ∷ ethod
        → (m == b'P') ≡ false
        → c.decode ≡ some json.decode
        → Decodes q c
    by_type :
        (ct : Text) (op : Text → Option Text) (dec : Encoder)
        → HasPayload q
        → mime.parse_media_type (content_type_of q) ≡ media_type ct op
        → find_encoder ct encoders ≡ some dec
        → c.decode ≡ some dec.decode
        → Decodes q c

  -- The outcome for a request `q` whose value of Accept is read as `accept`.
  pub data Ends (accept : Text) (q : Request) (next : HandlerFunc) (out : Outcome) : Type 0 where
    handled :
        (e : Encoder) (c : Context)
        → Chooses accept e
        → Answers q e c
        → Decodes q c
        → out ≡ next c
        → Ends accept q next out
    unreadable :
        (err : Text) (c : Context)
        → has_prefix accept d.mediatype ≡ true
        → mime.parse_media_type accept ≡ bad_media_type err
        → Answers q json c
        → out ≡ error 400 err none c
        → Ends accept q next out
    unacceptable :
        (sub : Text) (c : Context)
        → HasSubtype accept sub
        → encoder_for sub ≡ none
        → Answers q json c
        → out
          ≡ error 406
              (codes "That media type is not supported for response.")
              (some (use_type json))
              c
        → Ends accept q next out
    bad_payload :
        (err : Text) (e : Encoder) (c : Context)
        → Chooses accept e
        → Answers q e c
        → HasPayload q
        → mime.parse_media_type (content_type_of q) ≡ bad_media_type err
        → out ≡ error 400 err none c
        → Ends accept q next out
    unsupported :
        (ct : Text) (op : Text → Option Text) (e : Encoder) (c : Context)
        → Chooses accept e
        → Answers q e c
        → HasPayload q
        → mime.parse_media_type (content_type_of q) ≡ media_type ct op
        → find_encoder ct encoders ≡ none
        → out
          ≡ error 415
              (codes "That media type is not supported for transfer.")
              (some (use_type json))
              c
        → Ends accept q next out
    panics :
        (e : Encoder) (c : Context)
        → Chooses accept e
        → q.method ≡ []
        → out ≡ panicked [] c
        → Ends accept q next out

  -- What `negotiate` makes of a value of Accept.
  pub data Reads (accept : Text) (n : Negotiated) : Type 0 where
    chosen : (a : Asked) → n ≡ agreed a → Chooses accept a.encoder → Reads accept n
    unread :
        (err : Text)
        → has_prefix accept d.mediatype ≡ true
        → mime.parse_media_type accept ≡ bad_media_type err
        → n ≡ bad_accept err
        → Reads accept n
    unknown :
        (sub : Text)
        → HasSubtype accept sub
        → encoder_for sub ≡ none
        → n ≡ not_acceptable
        → Reads accept n

pub MediaType-cases :
    (m : MediaType)
    → ((err : Text) × (m ≡ bad_media_type err))
      ⊎ ((t : Text) × (op : Text → Option Text) × (m ≡ media_type t op))
MediaType-cases (media_type t op) = inr (t, op, refl)
MediaType-cases (bad_media_type err) = inl (err, refl)

pub negotiate-Reads :
    (d : Defaults) (mime : Mime) (encoders : Encoders) (accept : Text) (a : Asked)
    → Reads d mime encoders a.encoder accept (negotiate d mime encoders accept a)
unfolding negotiate
negotiate-Reads d mime encoders accept a = elim (Bool-cases (has_prefix accept d.mediatype)) [
  | inr other ↦ chosen a (rw other refl) (by_default other refl)
  | inl vendor ↦ elim (MediaType-cases (mime.parse_media_type accept)) [
    | inl (err, bad) ↦ unread err vendor bad (rw (vendor, bad) refl)
    | inr (mt, op, parsed) ↦ elim (Option-cases (after_first b'+' mt)) [
      | inl plain ↦
          chosen (refine op a) (rw (vendor, parsed, plain) refl)
            (without_subtype mt op vendor parsed plain refl)
      | inr (sub, suffix) ↦
          let has : HasSubtype d mime encoders a.encoder accept sub = record {
            vendor = vendor;
            type = mt;
            options = op;
            parsed = parsed;
            suffix = suffix;
          } in
          elim (Option-cases (find_encoder (mime.type_by_extension (codes "." ++ sub)) encoders)) [
            | inl missing ↦ unknown sub has missing (rw (vendor, parsed, suffix, missing) refl)
            | inr (enc, there) ↦
                chosen (refine op (record a { encoder = enc }))
                  (rw (vendor, parsed, suffix, there) refl) (by_subtype sub has there)
          ]
    ]
  ]
]
