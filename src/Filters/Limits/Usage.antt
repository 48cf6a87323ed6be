-- ===== src/Filters/Limits/Usage.antt =====
-- filter/limits/usage.go and `MD5RequestKey` of util.go: each request of a client takes tokens from its
-- bucket. The container is a parameter, and so are MD5 and the cache of the default container.
pub mod Rate
use go_relax.Base.{ℤ, ℕ, Bool, true, false, Option, none, some, [], ◌++◌, ◌==◌, if◌then◌else◌}
use go_relax.Http.Header
use go_relax.Text.{Text, codes, itoa}
use go_relax.Context.{Context, Outcome, HandlerFunc, returned, panicked, set_header, http_error}
use go_relax.Filters.Limits.Container.{Container, mem_container}
use go_relax.Filters.Limits.Memory.{itoa_int}
use go_relax.Filters.Limits.MemBucket.{Lru, Clock, new_mem_bucket, split_port}

-- MD5RequestKey, for the digest in hexadecimal of the host and the user agent.
unfoldable pub md5_request_key : (Text → Text) → Context → Text
unfolding split_port codes Header.get
md5_request_key md5_hex c =
    codes "quota:"
    ++ md5_hex
        ((split_port c.request.remote_addr).0 ++ Header.get c.request.header (codes "User-Agent"))

-- The last default of Run: one token for each request.
unfoldable pub ration_of : ℕ → ℕ
ration_of n = if n == 0 then 1 else n

abbrev too_many : ℕ → Context → Outcome
too_many when c =
    returned (http_error (codes "Too Many Requests") 429 (set_header "Retry-After" (itoa when) c))

abbrev rate_headers : ℕ → ℤ → ℕ → Context → Context
rate_headers limit tokens when c = set_header "RateLimit-Reset" (itoa when) (
    set_header "RateLimit-Remaining" (itoa_int tokens)
      (set_header "RateLimit-Limit" (itoa limit) c))

module _ (k : Container) where
  open k use {S, capacity, consume}

  abbrev answer : HandlerFunc → Context → S × Option (ℤ × ℕ × Bool) → S × Outcome
  answer next c (s, none) = (s, panicked [] c)
  answer next c (s, some (tokens, when, false)) = (s, too_many when c)
  answer next c (s, some (tokens, when, true)) = (s, next (rate_headers (capacity s) tokens when c))

  -- The handler of Run: the container behind the request, and the outcome.
  unfoldable pub run : (Context → Text) → ℕ → HandlerFunc → S → Context → S × Outcome
  unfolding set_header http_error itoa codes
  run keygen ration next s c = answer next c (consume (keygen c) (ration_of ration) s)

-- A container with its state
abbrev pub Held : Type 1
Held = (k : Container) × k.S

-- Usage: `none` is nil.
pub record Usage : Type 1 where
  pub container : Option Held
  pub ration : ℕ
  pub keygen : Option (Context → Text)

-- lru, with its `New`, and the readings of the clock of the next call of a new container
module _ (lru : Lru) (new : ℕ → lru.C) (t : Clock) (md5_hex : Text → Text) where
  unfoldable pub container_of : Option Held → Held
  unfolding new_mem_bucket
  container_of none = (mem_container lru, (t, new_mem_bucket lru (new 1000) 100 1))
  container_of (some k) = k

  unfoldable pub keygen_of : Option (Context → Text) → Context → Text
  unfolding md5_request_key
  keygen_of none c = md5_request_key md5_hex c
  keygen_of (some keygen) c = keygen c

  -- Run with its defaults, and a request to its handler: the container that the filter holds then, in its
  -- state behind the request, and the outcome.
  unfoldable pub run_filter : Usage → HandlerFunc → Context → Held × Outcome
  unfolding run container_of keygen_of ration_of
  run_filter f next c =
      let (k, s) = container_of f.container in
      let (s', out) = run k (keygen_of f.keygen) f.ration next s c in ((k, s'), out)
