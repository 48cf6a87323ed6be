-- ===== src/Context/Laws.antt =====
-- Contexts of context.go that come from a pool, and what an error response leaves as it is.
use go_relax.Base.{ℕ, Option, none, some, List, ◌≡◌, ◌∙◌, refl, inl, inr, Option-cases, arith}
use go_relax.Text.{Text}
use go_relax.Http.Request.{Request}
use go_relax.Context.{
  Context, Value, Writer, Payload, failure, Encode, returned, panicked, Outcome, new_context, clone,
  free, write_header, respond_by, respond, error,
}

-- A new context and a clone do not depend on the context from the pool on which they are built, if it
-- was freed: nothing of one request reaches another.
pub new_context-free :
    (old older : Context) (parent : List (Text × Value)) (w : Writer) (r : Request) (c : Context)
    → (new_context (free old) parent w r ≡ new_context (free older) parent w r)
      × (clone (free old) w c ≡ clone (free older) w c)
unfolding new_context clone free
new_context-free old older parent w r c = (refl, refl)

write_header-request : (code : ℕ) (c : Context) → (write_header code c).request ≡ c.request
unfolding write_header
write_header-request code c = ground arith

respond_by-request :
    (e : Option Encode) (v : Payload) (c c' : Context)
    → respond_by e v c ≡ returned c'
    → c'.request ≡ c.request
respond_by-request none v c c' h = absurd cc
respond_by-request (some e) v c c' h = elim (Option-cases (e c.writer v).1) [
  | inl fine ↦ ground arith
  | inr (err, failed) ↦ ground arith
]

-- An error response that is sent leaves the request as it is.
pub error-request :
    (code : ℕ) (m : Text) (details : Option Text) (c c' : Context)
    → error code m details c ≡ returned c'
    → c'.request ≡ c.request
unfolding error respond
error-request code m details c c' h =
    let v = failure (record { code = code; message = m; details = details }) in
    let w = write_header code c in
    respond_by-request w.encode v w c' h ∙ write_header-request code c

-- The context that an outcome leaves, by a return or by a panic.
abbrev pub left : Outcome → Context
left (returned c) = c
left (panicked m c) = c

respond_by-store :
    (e : Option Encode) (v : Payload) (c : Context) → (left (respond_by e v c)).store ≡ c.store
respond_by-store none v c = refl
respond_by-store (some e) v c = elim (Option-cases (e c.writer v).1) [
  | inl fine ↦ ground arith
  | inr (err, failed) ↦ ground arith
]

write_header-store : (code : ℕ) (c : Context) → (write_header code c).store ≡ c.store
unfolding write_header
write_header-store code c = ground arith

-- An error response leaves the values of the context as they are.
pub error-store :
    (code : ℕ) (m : Text) (details : Option Text) (c : Context)
    → (left (error code m details c)).store ≡ c.store
unfolding error respond
error-store code m details c =
    let v = failure (record { code = code; message = m; details = details }) in
    let w = write_header code c in respond_by-store w.encode v w ∙ write_header-store code c
