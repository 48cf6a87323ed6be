-- ===== src/Service/Pool.antt =====
-- The pool of contexts of context.go, over a run of requests that `Adapter` of service.go serves.
use mathlib.Core.List.{Memᴰ}
use go_relax.Base.{false, none, List, [], ◌∷◌, ◌≡◌, refl, ap, sym, subst, map}
use go_relax.Http.Request.{Request}
use go_relax.Context.{Context, Outcome, returned, panicked, Writer, closed, new_context, free}
use go_relax.Util.{Quality, Prefs}
use go_relax.Content.{Defaults, Mime}
use go_relax.Service.{Service}
use go_relax.Service.Dispatch.{Arrival, begin, serve, finish, adapter}

-- What the pool makes where it has none: new(Context), with some request for its nil pointer.
unfoldable pub zero_context : Request → Context
zero_context r = record {
  store = [];
  writer = closed;
  wrote_header = false;
  status = 0;
  bytes = 0;
  request = r;
  path_values = none;
  encode = none;
  decode = none;
}

-- A request with what it meets, and the writer that it is served on.
abbrev pub Exchange : Type 0
Exchange = Arrival × Writer × Request

-- What `Get` may hand out, where these contexts were put before: one of them, or a new one.
pub data IsAvailable (put : List Context) : Context → Type 0 where
  kept : (c : Context) → Memᴰ c put → IsAvailable put c
  made : (r : Request) → IsAvailable put (zero_context r)

-- The same request with a new context in place of the one from the pool.
unfoldable pub renewed : Exchange → Exchange
unfolding zero_context
renewed (a, w, r) = (record a { pooled = zero_context r }, w, r)

module _ (q : Quality) (d : Defaults) (mime : Mime) (order : Prefs q → Prefs q)
    (svc : Service) where
  unfoldable pub answer : Exchange → Writer × Context
  answer (a, w, r) = adapter q d mime order svc a w r

  -- The requests in the order in which they start. A request that starts may get the context of any
  -- one before it, as the pool drops what it likes and requests that overlap put theirs back later.
  pub data Run : List Context → List Exchange → Type 0 where
    idle : {put : List Context} → Run put []
    starts :
        {put : List Context} {x : Exchange} {more : List Exchange}
        → IsAvailable put x.0.pooled
        → Run ((answer x).1 ∷ put) more
        → Run put (x ∷ more)

-- A context in the pool is a freed one.
unfoldable pub IsFreed : Context → Type 0
IsFreed c = free c ≡ c

finish-IsFreed : (out : Outcome) → IsFreed (finish out).1
unfolding finish free IsFreed
finish-IsFreed (returned c) = refl
finish-IsFreed (panicked m c) = refl

available-IsFreed :
    (put : List Context)
    → ((c : Context) → Memᴰ c put → IsFreed c)
    → (c : Context) → IsAvailable put c
    → IsFreed c
unfolding zero_context free IsFreed
available-IsFreed put all c (kept _ there) = all c there
available-IsFreed put all _ (made r) = refl

put-IsFreed :
    (out : Outcome) (put : List Context)
    → ((c : Context) → Memᴰ c put → IsFreed c)
    → (c : Context) → Memᴰ c ((finish out).1 ∷ put)
    → IsFreed c
put-IsFreed out put all c (Memᴰ.head same) = subst IsFreed (sym same) (finish-IsFreed out)
put-IsFreed out put all c (Memᴰ.tail there) = all c there

none-IsFreed : (c : Context) → Memᴰ c [] → IsFreed c
none-IsFreed c there = elim there [ ]

module _ (q : Quality) (d : Defaults) (mime : Mime) (order : Prefs q → Prefs q)
    (svc : Service) where
  begin-renewed :
      (a : Arrival) (w : Writer) (r : Request)
      → IsFreed a.pooled
      → begin a w r ≡ begin (record a { pooled = zero_context r }) w r
  unfolding begin new_context free IsFreed zero_context
  begin-renewed a w r freed = ap (λ c. begin (record a { pooled = c }) w r) (sym freed)

  answer-renewed :
      (x : Exchange)
      → IsFreed x.0.pooled
      → answer q d mime order svc x ≡ answer q d mime order svc (renewed x)
  unfolding answer renewed adapter
  answer-renewed (a, w, r) freed =
      ap (λ c. finish (serve q d mime order svc c)) (begin-renewed a w r freed)

  answers_from :
      (put : List Context) (xs : List Exchange)
      → ((c : Context) → Memᴰ c put → IsFreed c)
      → Run q d mime order svc put xs
      → map (answer q d mime order svc) xs ≡ map (λ x. answer q d mime order svc (renewed x)) xs
  unfolding answer adapter
  answers_from put _ all idle = refl
  answers_from put (x ∷ more) all (starts available rest) =
      let freed = available-IsFreed put all x.0.pooled available in
      let (a, w, r) = x in
      let rest_same =
        answers_from ((answer q d mime order svc x).1 ∷ put) more
          (put-IsFreed (serve q d mime order svc (begin a w r)) put all) rest in
      let same = answer-renewed x freed in cc

  -- Whatever contexts the pool hands out in a run of requests, which may overlap, each request has the
  -- response that it has with a new context: nothing of one request reaches another by the pool.
  pub answers-renewed :
      (xs : List Exchange)
      → Run q d mime order svc [] xs
      → map (answer q d mime order svc) xs ≡ map (λ x. answer q d mime order svc (renewed x)) xs
  answers-renewed xs run = answers_from [] xs none-IsFreed run
