-- ===== src/Encoder/RoundTrip.antt =====
-- What the encoders of encoder.go write, as a body of a request.
use go_relax.Base.{ℕ, ◌<◌, none, some, [], ◌≡◌, length, take}
use go_relax.Text.{Text}
use go_relax.Http.Response.{Response}
use go_relax.Http.Response
use go_relax.Context.{Payload, Writer, net, buffered, closed}
use go_relax.Encoder.{Codec}

-- The body that a writer of the server has taken.
abbrev pub body_of : Writer → Text
body_of (net r) = r.body
body_of (buffered rb) = []
body_of closed = []

-- The codec reads the whole of a text, and of any part from its start it reads all the bytes and asks
-- for more, as decoders do of a text that is closed by its last byte.
pub record Reads (codec : Codec) (b : Text) (v : Payload) : Type 0 where
  pub whole : codec.decode b ≡ (length b, v, none)
  pub part :
      (m : ℕ)
      → m < length b
      → (x : Payload) × (err : Text) × (codec.decode (take m b) ≡ (m, x, some err))
