-- ===== src/Encoder.antt =====
-- encoder.go and encoder/xml/xml.go: the interface of the encoders, and the two that are built in.
-- The packages encoding/json and encoding/xml are parameters: a codec marshals a value, plainly or
-- indented, and decodes what a reader gives it.
pub mod RoundTrip
use go_relax.Base.{
  ℕ, ◌-◌, Bool, false, Option, none, some, [], if◌then◌else◌, ◌==◌, ◌&&◌, take, is_some,
}
use go_relax.Text.{Text, codes}
use go_relax.Context.{Payload, Writer, Encode, Decode, writer_write}

-- Encoder
pub record Encoder : Type 0 where
  pub accept : Text
  pub content_type : Text
  pub encode : Encode
  pub decode : Decode

-- Marshalling returns a text, or an error; decoding reads some bytes of a body, and returns their
-- number, a value and an error or none.
pub record Codec : Type 0 where
  pub marshal : Bool → Payload → Option Text
  pub decode : Text → ℕ × Payload × Option Text

-- EncoderJSON and EncoderXML
pub record Settings : Type 0 where
  pub max_body_size : ℕ
  pub indented : Bool
  pub accept_header : Text
  pub content_type_header : Text

-- NewEncoder of encoder.go
unfoldable pub new_json : Settings
unfolding codes
new_json = record {
  max_body_size = 2097152;
  indented = false;
  accept_header = codes "application/json";
  content_type_header = codes "application/json;charset=utf-8";
}

-- NewEncoder of encoder/xml/xml.go
unfoldable pub new_xml : Settings
unfolding codes
new_xml = record {
  max_body_size = 4194304;
  indented = false;
  accept_header = codes "application/xml";
  content_type_header = codes "application/xml;charset=utf-8";
}

-- A write of a whole text: the error of the writer is passed on.
abbrev write_all : Text → Writer → Writer × Option Text
write_all b w = let (w', n, failed) = writer_write b w in (w', if failed then some [] else none)

abbrev write_marshalled : Option Text → Writer → Writer × Option Text
write_marshalled none w = (w, some [])
write_marshalled (some b) w = write_all b w

-- EncoderJSON.Encode
unfoldable pub encode_json : Codec → Settings → Encode
encode_json codec e w v = write_marshalled (codec.marshal e.indented v) w

abbrev then_marshal : Option Text → Writer × Option Text → Writer × Option Text
then_marshal b (w, none) = write_marshalled b w
then_marshal b (w, some err) = (w, some err)

-- xml.Header
abbrev xml_header : Text
xml_header = codes "<?xml version=\"1.0\" encoding=\"UTF-8\"?>\n"

-- EncoderXML.Encode: the header goes first, also where the value cannot be marshalled.
unfoldable pub encode_xml : Codec → Settings → Encode
unfolding codes
encode_xml codec e w v = then_marshal (codec.marshal e.indented v) (write_all xml_header w)

-- ErrBodyTooLarge
unfoldable pub body_too_large : Text
unfolding codes
body_too_large = codes "encoder: Body too large"

-- EncoderJSON.Decode: the codec sees the first `max_body_size` bytes of the body. Its error becomes
-- ErrBodyTooLarge where it has read as many.
unfoldable pub decode_limited : Codec → Settings → Decode
decode_limited codec e body =
    let (n, v, err) = codec.decode (take e.max_body_size body) in
    if is_some err && e.max_body_size - n == 0 then (v, some body_too_large) else (v, err)

-- EncoderXML.Decode, which is the same code for the other codec
unfoldable pub decode_xml : Codec → Settings → Decode
unfolding decode_limited
decode_xml codec e = decode_limited codec e

unfoldable pub json_encoder : Codec → Settings → Encoder
unfolding encode_json decode_limited
json_encoder codec e = record {
  accept = e.accept_header;
  content_type = e.content_type_header;
  encode = encode_json codec e;
  decode = decode_limited codec e;
}

unfoldable pub xml_encoder : Codec → Settings → Encoder
unfolding encode_xml decode_xml
xml_encoder codec e = record {
  accept = e.accept_header;
  content_type = e.content_type_header;
  encode = encode_xml codec e;
  decode = decode_xml codec e;
}
