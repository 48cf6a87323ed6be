-- ===== src/ResponseBuffer/Laws.antt =====
-- What a handler writes to the buffer of response_buffer.go, and what a flush sends.
use go_relax.Base.{
  ℕ, true, false, Option, none, some, List, [], ◌∷◌, ◌++◌, ◌≡◌, refl, inl, inr, Option-cases, arith,
  append_assoc, append-nil,
}
use go_relax.Text.{Text}
use go_relax.Http.Header.{Header, no_header, copy_into}
use go_relax.ResponseBuffer.{
  ResponseBuffer, Sink, zero_buffer, write, write_header, new_response_buffer, free, flush,
  flush_header, write_to,
}

-- What a handler does with the buffer.
pub data Operation : Type 0 where
  writes : Text → Operation
  sends : ℕ → Operation

pub run_operations : List Operation → ResponseBuffer → ResponseBuffer
run_operations [] rb = rb
run_operations (writes b ∷ os) rb = run_operations os (write b rb).0
run_operations (sends code ∷ os) rb = run_operations os (write_header code rb)

-- The texts in their order, and the first status.
pub content : List Operation → Text
content [] = []
content (writes b ∷ os) = b ++ content os
content (sends code ∷ os) = content os

pub first_status : List Operation → Option ℕ
first_status [] = none
first_status (writes b ∷ os) = first_status os
first_status (sends code ∷ os) = some code

sent_late :
    (os : List Operation) (rb : ResponseBuffer)
    → rb.wrote_header ≡ true
    → run_operations os rb ≡ record rb { buffer = rb.buffer ++ content os }
unfolding run_operations write write_header content
sent_late [] rb h = ground (arith, append-nil rb.buffer)
sent_late (writes b ∷ os) rb h =
    ground (arith, sent_late os (write b rb).0 h, append_assoc rb.buffer b (content os))
sent_late (sends code ∷ os) rb h = ground (arith, sent_late os rb h)

module _ {W : Type 0} (sink : Sink W) where
  -- A flush as the calls that it makes: the headers, the first status if there is one, the whole
  -- content if there is any.
  pub calls : Header → Option ℕ → Text → W → W
  calls h code b w =
      let w1 : W = sink.with_header (copy_into (sink.header w) h) w in
      let w2 : W = elim code [ none ↦ w1 | some n ↦ sink.write_header n w1 ] in
      elim b [ [] ↦ w2 | c ∷ s ↦ sink.write (c ∷ s) w2 ]

saved : Option ℕ → Text → ResponseBuffer → ResponseBuffer
saved none b rb = record rb { buffer = rb.buffer ++ b }
saved (some code) b rb = record rb { buffer = rb.buffer ++ b; wrote_header = true; status = code }

sent_early :
    (os : List Operation) (rb : ResponseBuffer)
    → rb.wrote_header ≡ false
    → run_operations os rb ≡ saved (first_status os) (content os) rb
unfolding run_operations write write_header content first_status saved
sent_early [] rb h = ground (arith, append-nil rb.buffer)
sent_early (writes b ∷ os) rb h =
    ground (arith, sent_early os (write b rb).0 h, append_assoc rb.buffer b (content os))
sent_early (sends code ∷ os) rb h = ground (arith, sent_late os (write_header code rb))

module _ {W : Type 0} (sink : Sink W) where
  -- A new buffer on which a handler writes texts and statuses in any order, and which is then flushed,
  -- makes these calls of the writer behind it: the headers, the first status if there is one, and all
  -- texts as one if there are any.
  pub flush-run_operations :
      (os : List Operation) (h : Header) (w : W)
      → (flush sink (run_operations os (new_response_buffer zero_buffer h)) w).1
        ≡ calls sink (copy_into no_header h) (first_status os) (content os) w
  unfolding flush flush_header write_to new_response_buffer calls saved
  flush-run_operations os h w =
      let rb = new_response_buffer zero_buffer h in
      rw (sent_early os rb refl) (elim (Option-cases (first_status os)) [
        | inl unsent ↦ rw unsent refl
        | inr (code, first) ↦ rw first refl
      ])

-- A buffer from the pool is a new one: what was in it before it was freed makes no difference.
pub new_response_buffer-free :
    (old : ResponseBuffer) (h : Header)
    → new_response_buffer (free old) h ≡ new_response_buffer zero_buffer h
unfolding new_response_buffer free
new_response_buffer-free old h = refl
