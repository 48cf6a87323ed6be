-- ===== src/Context.antt =====
-- context.go, and the parts of errors.go and encoder.go that it stands on. A handler is a function
-- from a context to an outcome; the writer, the request and the storage are parts of the context.
pub mod Format
pub mod Laws
use go_relax.Base.{
  ℕ, ◌+◌, Bool, true, false, Option, none, some, String, List, [], ◌∷◌, ◌++◌, if◌then◌else◌,
}
use go_relax.Text.{Text, codes, text_eq}
use go_relax.Http.Header.{Header, no_header}
use go_relax.Http.Header
use go_relax.Http.Request.{Request}
use go_relax.Http.Response.{Response}
use go_relax.Http.Response
use go_relax.ResponseBuffer.{ResponseBuffer, Sink}
use go_relax.ResponseBuffer

-- An error with a status; `details` is any further text.
pub record StatusError : Type 0 where
  pub code : ℕ
  pub message : Text
  pub details : Option Text

-- What is encoded in a response: an error, a map of texts, or a value of the application.
pub data Payload : Type 0 where
  failure : StatusError → Payload
  texts : List (Text × Text) → Payload
  value : Text → Payload

-- `closed` is a nil writer; nothing is written to it.
pub data Writer : Type 0 where
  net : Response → Writer
  buffered : ResponseBuffer → Writer
  closed : Writer

-- An encoder writes to a writer, and returns an error or none. A decoder reads a body.
abbrev pub Encode : Type 0
Encode = Writer → Payload → Writer × Option Text

abbrev pub Decode : Type 0
Decode = Text → Payload × Option Text

-- The values that handlers pass down in a context.
pub data Value : Type 0 where
  text : Text → Value
  flag : Bool → Value
  time : ℕ → Value
  files : List Text → Value

abbrev pub Values : Type 0
Values = List (Text × List Text)

pub record Context : Type 0 where
  pub store : List (Text × Value)
  pub writer : Writer
  pub wrote_header : Bool
  pub status : ℕ
  pub bytes : ℕ
  pub request : Request
  pub path_values : Option Values
  pub encode : Option Encode
  pub decode : Option Decode

-- A call returns, or panics with a message; what it has changed until then stays.
pub data Outcome : Type 0 where
  returned : Context → Outcome
  panicked : Text → Context → Outcome

abbrev pub HandlerFunc : Type 0
HandlerFunc = Context → Outcome

infixl 5 ◌>>=◌
abbrev pub ◌>>=◌ : Outcome → (Context → Outcome) → Outcome
returned c >>= k = k c
panicked m c >>= k = panicked m c

unfoldable pub new_context : Context → List (Text × Value) → Writer → Request → Context
new_context pooled parent w r = record pooled { store = parent; writer = w; request = r }

unfoldable pub free : Context → Context
free c = record c {
  writer = closed;
  wrote_header = false;
  status = 0;
  bytes = 0;
  path_values = none;
  decode = none;
  encode = none;
}

-- Clone: `wrote_header` and `status` are those of the pooled object.
unfoldable pub clone : Context → Writer → Context → Context
clone pooled w c = record pooled {
  store = c.store;
  writer = w;
  request = c.request;
  path_values = c.path_values;
  bytes = c.bytes;
  decode = c.decode;
  encode = c.encode;
}

unfoldable pub set : Text → Value → Context → Context
set key v c = record c { store = (key, v) ∷ c.store }

unfoldable pub find_value : Text → List (Text × Value) → Option Value
unfolding text_eq
find_value key [] = none
find_value key ((k, v) ∷ more) = if text_eq k key then some v else find_value key more

unfoldable pub get : Text → Context → Option Value
unfolding find_value
get key c = find_value key c.store

unfoldable pub writer_header : Writer → Header
writer_header (net r) = r.header
writer_header (buffered rb) = rb.header
writer_header closed = no_header

unfoldable pub with_writer_header : Header → Writer → Writer
with_writer_header h (net r) = net (record r { header = h })
with_writer_header h (buffered rb) = buffered (record rb { header = h })
with_writer_header h closed = closed

unfoldable pub writer_write_header : ℕ → Writer → Writer
unfolding Response.write_header ResponseBuffer.write_header
writer_write_header code (net r) = net (Response.write_header code r)
writer_write_header code (buffered rb) = buffered (ResponseBuffer.write_header code rb)
writer_write_header code closed = closed

-- The new writer, the number of bytes written and whether the write failed.
unfoldable pub writer_write : Text → Writer → Writer × ℕ × Bool
unfolding Response.write ResponseBuffer.write
writer_write b (net r) = let (r', n, failed) = Response.write b r in (net r', n, failed)
writer_write b (buffered rb) = let (rb', n) = ResponseBuffer.write b rb in (buffered rb', n, false)
writer_write b closed = (closed, 0, true)

unfoldable pub header : Context → Header
unfolding writer_header
header c = writer_header c.writer

-- A change of the header map that `Header` returns.
unfoldable pub with_header : (Header → Header) → Context → Context
unfolding with_writer_header writer_header
with_header f c = record c { writer = with_writer_header (f (writer_header c.writer)) c.writer }

unfoldable pub set_header : String → Text → Context → Context
unfolding with_header codes Header.set
set_header key v c = with_header (Header.set (codes key) v) c

unfoldable pub add_header : String → Text → Context → Context
unfolding with_header codes Header.add
add_header key v c = with_header (Header.add (codes key) v) c

unfoldable pub write : Text → Context → Context × ℕ × Bool
unfolding writer_write
write b c =
    let (w, n, failed) = writer_write b c.writer in
    (record c { writer = w; bytes = c.bytes + n }, n, failed)

unfoldable pub write_header : ℕ → Context → Context
unfolding writer_write_header
write_header code c =
    if c.wrote_header
    then c
    else record c { wrote_header = true; status = code; writer = writer_write_header code c.writer }

-- http.StatusOK is 200.
unfoldable pub status_of : Context → ℕ
status_of c = if c.wrote_header then c.status else 200

unfoldable pub bytes_of : Context → ℕ
bytes_of c = c.bytes

abbrev respond_result : Context → Writer × Option Text → Outcome
respond_result c (w, none) = returned (record c { writer = w })
respond_result c (w, some err) = panicked err (record c { writer = w })

abbrev respond_by : Option Encode → Payload → Context → Outcome
respond_by none v c = panicked [] c
respond_by (some e) v c = respond_result c (e c.writer v)

abbrev write_code : Option ℕ → Context → Context
write_code none c = c
write_code (some code) c = write_header code c

-- Respond: the encoder writes to the response writer; an error of the encoder is a panic.
unfoldable pub respond : Payload → Option ℕ → HandlerFunc
unfolding write_header
respond v code c = let c' = write_code code c in respond_by c'.encode v c'

-- Error: `details` is the first of the optional arguments, where there is one.
unfoldable pub error : ℕ → Text → Option Text → HandlerFunc
unfolding respond
error code message details c =
    respond (failure (record { code = code; message = message; details = details })) (some code) c

-- `http.Error` on a context: a plain text with a line end.
unfoldable pub http_error : Text → ℕ → Context → Context
unfolding set_header write_header write codes
http_error message code c =
    let c1 = set_header "Content-Type" (codes "text/plain; charset=utf-8") c in
    let c2 = set_header "X-Content-Type-Options" (codes "nosniff") c1 in
    (write (message ++ 10 ∷ []) (write_header code c2)).0

-- A context as the target of a flush.
unfoldable pub context_sink : Sink Context
unfolding header with_header write_header write
context_sink = record {
  header = header;
  with_header = λ h. with_header (λ _. h);
  write_header = write_header;
  write = λ b c. (write b c).0;
}

-- A response writer as the target of a flush.
unfoldable pub writer_sink : Sink Writer
unfolding writer_header with_writer_header writer_write_header writer_write
writer_sink = record {
  header = writer_header;
  with_header = with_writer_header;
  write_header = writer_write_header;
  write = λ b w. (writer_write b w).0;
}
