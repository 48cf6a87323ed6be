-- ===== src/Linking.antt =====
-- linking.go: the text of link relations, and the links of a resource.
pub mod Laws
use go_relax.Base.{
  ℕ, ◌+◌, ◌-◌, ◌/◌, ◌%◌, Bool, true, false, ◌&&◌, ◌||◌, Option, none, some, String, List, [], ◌∷◌,
  ◌++◌, ltb, leb, ◌==◌, if◌then◌else◌, ◌≡◌, refl,
}
use go_relax.Text.{Text, codes, text_eq, is_empty, join}

pub record Link : Type 0 where
  pub uri : Text
  pub rel : Text
  pub anchor : Text
  pub rev : Text
  pub href_lang : Text
  pub media : Text
  pub title : Text
  pub titlex : Text
  pub type : Text
  pub ext : Text

abbrev hex_digit : ℕ → ℕ
hex_digit n = if ltb n 10 then b'0' + n else b'a' + (n - 10)

-- A byte in a text that is quoted by %q; bytes from 128 on belong to printable characters.
quote_byte : ℕ → Text
quote_byte c =
    if c == b'"' || c == b'\\'
    then b'\\' ∷ c ∷ []
    else if c == 7
    then b'\\' ∷ b'a' ∷ []
    else if c == 8
    then b'\\' ∷ b'b' ∷ []
    else if c == 12
    then b'\\' ∷ b'f' ∷ []
    else if c == 10
    then b'\\' ∷ b'n' ∷ []
    else if c == 13
    then b'\\' ∷ b'r' ∷ []
    else if c == 9
    then b'\\' ∷ b't' ∷ []
    else if c == 11
    then b'\\' ∷ b'v' ∷ []
    else if ltb c 32 || c == 127
    then b'\\' ∷ b'x' ∷ hex_digit (c / 16) ∷ hex_digit (c % 16) ∷ []
    else c ∷ []

quote_bytes : Text → Text
unfolding quote_byte
quote_bytes [] = []
quote_bytes (c ∷ s) = quote_byte c ++ quote_bytes s

-- fmt's %q
unfoldable pub quote : Text → Text
unfolding quote_bytes
quote s = b'"' ∷ quote_bytes s ++ b'"' ∷ []

-- A field of the struct, if it is not empty: "; name=value".
abbrev link_part : String → (Text → Text) → Text → Text
link_part front show v = if is_empty v then [] else codes front ++ show v

abbrev plain : Text → Text
plain v = v

-- Link.String: the fields in the order of the struct; an empty `Rel` is "alternate".
unfoldable pub link_string : Link → Text
unfolding quote codes
link_string l =
    b'<' ∷ l.uri
    ++ b'>' ∷ link_part "; rel=" quote (if is_empty l.rel then codes "alternate" else l.rel)
    ++ link_part "; anchor=" quote l.anchor
    ++ link_part "; rev=" quote l.rev
    ++ link_part "; hreflang=" quote l.href_lang
    ++ link_part "; media=" quote l.media
    ++ link_part "; title=" quote l.title
    ++ link_part "; title*=" plain l.titlex
    ++ link_part "; type=" quote l.type
    ++ link_part "; " plain l.ext

-- LinkHeader: the second result; `none` is a call without parameters.
unfoldable pub link_header : Text → Option (List Text) → Text
unfolding codes join
link_header uri params =
    let front = b'<' ∷ uri ++ b'>' ∷ [] in
    elim params [
      | none ↦ join (front ∷ codes "rel=\"alternate\"" ∷ []) (codes "; ")
      | some ps ↦ join (front ∷ ps) (codes "; ")
    ]

unfoldable pub same_relation : Link → Link → Bool
unfolding text_eq
same_relation v link = text_eq v.uri link.uri && text_eq v.rel link.rel

-- NewLink: the first link with the same URI and relation is replaced, or the link is appended.
unfoldable pub new_link : Link → List Link → List Link
new_link link [] = link ∷ []
new_link link (v ∷ links) = if same_relation v link then link ∷ links else v ∷ new_link link links

link_string_test :
    link_string (record {
      uri = codes "/v1/schemas";
      rel = codes "index";
      anchor = [];
      rev = [];
      href_lang = codes "en-US";
      media = codes "screen, print";
      title = codes "Definition of schemas";
      titlex = [];
      type = codes "text/html;charset=utf-8";
      ext = codes "priority=\"important\"";
    })
    ≡ codes
        "</v1/schemas>; rel=\"index\"; hreflang=\"en-US\"; media=\"screen, print\"; title=\"Definition of schemas\"; type=\"text/html;charset=utf-8\"; priority=\"important\""
unfolding link_string codes
link_string_test = refl
