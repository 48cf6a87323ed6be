-- ===== src/Filters/Limits/Usage/Rate.antt =====
-- How many requests of a client filter/limits/usage.go lets through, with buckets in memory. The
-- requests come one after another: nothing is said of calls of Consume at the same time.
use go_relax.Base.{
  ℕ, suc, ◌+◌, ◌*◌, ◌≤◌, some, List, [], ◌∷◌, ◌≡◌, refl, subst, inl, inr, Option-cases, Bool-cases,
  if◌then◌else◌, arith, All, ◌∙◌,
}
use go_relax.Text.{Text}
use go_relax.Context.{Context, Outcome, returned, panicked}
use go_relax.Filters.Limits.MemBucket.{
  Lru, Clock, MemBucket, minute, consume, fill, store_bucket, wait,
}
use go_relax.Filters.Limits.MemBucket.Rate.{
  consume_all, KeepsRead, AreOrdered, last_time, between_readings, consume_all_rate,
}
use go_relax.Filters.Limits.Container.{mem_container}
use go_relax.Filters.Limits.Usage.{run, ration_of}

-- Whether a request has reached a handler that panics.
abbrev was_served : Outcome → ℕ
was_served (returned c) = 0
was_served (panicked m c) = 1

-- The calls of `Consume` for requests, each with its clock.
abbrev pub calls_of : ℕ → List (Clock × Context) → List (Clock × ℕ)
calls_of n [] = []
calls_of n ((t, c) ∷ requests) = (t, n) ∷ calls_of n requests

module _ (lru : Lru) (keygen : Context → Text) (ration : ℕ) where
  open lru use {get}

  -- The requests that are served, one after another, by a handler that panics.
  pub serve_all : List (Clock × Context) → MemBucket lru → ℕ
  serve_all [] b = 0
  serve_all ((t, c) ∷ requests) b =
      let (s, out) = run (mem_container lru) keygen ration (panicked []) (t, b) c in
      was_served out + serve_all requests s.1

  fill_rate : (t : Clock) (key : Text) (b : MemBucket lru) → (fill lru t key b).0.rate ≡ b.rate
  unfolding fill store_bucket
  fill_rate t key b = elim (Option-cases (get key b.cache).1) [
    | inl missing ↦ ground arith
    | inr (ref, there) ↦ ground arith
  ]

  consume_rate :
      (t : Clock) (key : Text) (n : ℕ) (b : MemBucket lru) → (consume lru t key n b).0.rate ≡ b.rate
  unfolding consume store_bucket
  consume_rate t key n b = ground (arith, fill_rate t key b)

  consume_waits :
      (t : Clock) (key : Text) (n q : ℕ) (b : MemBucket lru)
      → b.rate ≡ suc q
      → (when : ℕ) × ((consume lru t key n b).2 ≡ some when)
  unfolding consume wait
  consume_waits t key n q b h = elim (Option-cases (consume lru t key n b).2) [
    | inl panics ↦ absurd (ground (arith, fill_rate t key b))
    | inr (when, e) ↦ (when, e)
  ]

  abbrev TakesIfServed : Clock → Text → Context → MemBucket lru → Type 0
  TakesIfServed t key c b =
      let (s, out) = run (mem_container lru) keygen ration (panicked []) (t, b) c in
      let (b', left, when, ok) = consume lru t key (ration_of ration) b in
      (s.1 ≡ b') × (was_served out * ration_of ration ≡ (if ok then ration_of ration else 0))

  run-consume :
      (t : Clock) (q : ℕ) (c : Context) (b : MemBucket lru)
      → b.rate ≡ suc q
      → TakesIfServed t (keygen c) c b
  unfolding run
  run-consume t q c b h =
      let n = ration_of ration in
      let (when, e) = consume_waits t (keygen c) n q b h in
      elim (Bool-cases (consume lru t (keygen c) n b).3) [
        | inl ok ↦ rw (e, ok) (refl, omega arith)
        | inr refused ↦ rw (e, refused) (refl, omega arith)
      ]

  -- The requests are of one client.
  abbrev pub AreOf : Text → List (Clock × Context) → Type 0
  AreOf key requests = All (λ (r : Clock × Context). keygen r.1 ≡ key) requests

  serve_all-consume_all :
      (key : Text) (q : ℕ) (requests : List (Clock × Context)) (b : MemBucket lru)
      → b.rate ≡ suc q
      → AreOf key requests
      → serve_all requests b * ration_of ration
        ≡ (consume_all lru key (calls_of (ration_of ration) requests) b).1
  unfolding serve_all consume_all
  serve_all-consume_all key q [] b h of_key = omega arith
  serve_all-consume_all key q ((t, c) ∷ requests) b h (here, later) =
      let n = ration_of ration in
      let b' = (consume lru t key n b).0 in
      let (same, served) = subst (λ k. TakesIfServed t k c b) here (run-consume t q c b h) in
      let ih = serve_all-consume_all key q requests b' (consume_rate t key n b ∙ h) later in
      rw same (omega (arith, served, ih))

  -- The requests of one client whose key is in the cache, one after another and with a clock that does
  -- not go back, which reach a handler, take at most the tokens that the bucket had and the rate for
  -- each minute from its last check to the last request, and once more for the time between the two
  -- readings of the clock in each request. The cache keeps a key that is read, and the rate is not zero.
  pub serve_all_rate :
      KeepsRead lru
      → (key : Text) (ref q : ℕ) (requests : List (Clock × Context)) (b : MemBucket lru)
      → b.rate ≡ suc q
      → AreOf key requests
      → (get key b.cache).1 ≡ some ref
      → AreOrdered (b.heap ref).when (calls_of (ration_of ration) requests)
      → serve_all requests b * ration_of ration * minute + b.rate * (b.heap ref).when
        ≤ (b.heap ref).tokens * minute
          + b.rate * last_time (b.heap ref).when (calls_of (ration_of ration) requests)
          + b.rate * between_readings (calls_of (ration_of ration) requests)
  serve_all_rate keeps key ref q requests b h of_key there ordered =
      rw (serve_all-consume_all key q requests b h of_key)
        (consume_all_rate lru keeps key ref (calls_of (ration_of ration) requests) b there ordered)
