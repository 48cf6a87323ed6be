-- ===== src/ResponseBuffer.antt =====
-- response_buffer.go: a response writer that keeps headers, status and content until they are
-- flushed. What `responseBufferPool` hands out is the argument `pooled` of `new_response_buffer`.
pub mod Laws
use go_relax.Base.{ℕ, Bool, true, false, List, [], ◌∷◌, ◌++◌, if◌then◌else◌, length}
use go_relax.Text.{Text}
use go_relax.Http.Header.{Header, no_header, copy_into}

pub record ResponseBuffer : Type 0 where
  pub buffer : Text
  pub wrote_header : Bool
  pub status : ℕ
  pub header : Header

-- new(ResponseBuffer)
abbrev pub zero_buffer : ResponseBuffer
zero_buffer = record { buffer = []; wrote_header = false; status = 0; header = no_header }

-- The buffer takes everything: the number of bytes written.
unfoldable pub write : Text → ResponseBuffer → ResponseBuffer × ℕ
write b rb = (record rb { buffer = rb.buffer ++ b }, length b)

unfoldable pub write_header : ℕ → ResponseBuffer → ResponseBuffer
write_header code rb =
    if rb.wrote_header then rb else record rb { wrote_header = true; status = code }

-- http.StatusOK is 200.
unfoldable pub status_of : ResponseBuffer → ℕ
status_of rb = if rb.wrote_header then rb.status else 200

-- Buffer.Reset: the content is dropped, and the headers and the status stay.
unfoldable pub reset : ResponseBuffer → ResponseBuffer
reset rb = record rb { buffer = [] }

unfoldable pub new_response_buffer : ResponseBuffer → Header → ResponseBuffer
unfolding copy_into
new_response_buffer pooled h = record pooled { header = copy_into no_header h }

unfoldable pub free : ResponseBuffer → ResponseBuffer
free rb = record { buffer = []; wrote_header = false; status = 0; header = no_header }

-- What a buffer is flushed to: an `http.ResponseWriter`.
pub record Sink (W : Type 0) : Type 0 where
  pub header : W → Header
  pub with_header : Header → W → W
  pub write_header : ℕ → W → W
  pub write : Text → W → W

module _ {W : Type 0} (sink : Sink W) where
  -- The headers go first, and the status only if one was saved.
  unfoldable pub flush_header : ResponseBuffer → W → W
  unfolding copy_into
  flush_header rb w =
      let w' = sink.with_header (copy_into (sink.header w) rb.header) w in
      if rb.wrote_header then sink.write_header rb.status w' else w'

  -- bytes.Buffer.WriteTo: an empty buffer makes no call of `Write`.
  unfoldable pub write_to : ResponseBuffer → W → ResponseBuffer × W
  write_to rb w = (reset rb, elim rb.buffer [ [] ↦ w | c ∷ s ↦ sink.write (c ∷ s) w ])

  -- Flush, whose deferred call frees the buffer
  unfoldable pub flush : ResponseBuffer → W → ResponseBuffer × W
  flush rb w = let (rb', w') = write_to rb (flush_header rb w) in (free rb', w')
