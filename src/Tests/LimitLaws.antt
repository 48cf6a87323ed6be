-- ===== src/Tests/LimitLaws.antt =====
-- The theorems on the limits of filter/limits at concrete buckets, with a function in place of lru.
use go_relax.Base.{
  inr, List, ℕ, ◌+◌, ◌*◌, ◌≤◌, Option, none, some, [], ◌∷◌, ◌≡◌, refl, if◌then◌else◌, arith,
}
use go_relax.Text.{Text, codes, text_eq}
use go_relax.Filters.Limits.Throttle.{Throttle, process, tick, produce, send, request, run_events}
use go_relax.Filters.Limits.Throttle.Rate.{count_ticks, admitted-run_events}
use go_relax.Filters.Limits.MemBucket.{
  Lru, Clock, MemBucket, new_mem_bucket, consume, minute, fill, store_bucket,
}
use go_relax.Text.Laws.{text_eq_refl, text_eq_sym}
use go_relax.Filters.Limits.MemBucket.Separate.{IsCache}
use go_relax.Filters.Limits.MemBucket.Isolation.{AreOthers, run_calls-heap}
use go_relax.Filters.Limits.MemBucket.Reachable.{
  Call, consumes, resets, run_calls, run_calls-new_mem_bucket,
}
use go_relax.Filters.Limits.MemBucket.Rate.{IsWithin, consume_all, AreOrdered, consume_all_rate}

abbrev two_at_once : Throttle
two_at_once = record { requests = 1; burst = 2; per = 1000000000 }

admitted-run_events_example :
    (run_events
      (produce ∷ send ∷ request ∷ tick ∷ produce ∷ request ∷ [])
      (process two_at_once)).admitted
    ≤ 2 + count_ticks (produce ∷ send ∷ request ∷ tick ∷ produce ∷ request ∷ [])
admitted-run_events_example =
    admitted-run_events two_at_once (produce ∷ send ∷ request ∷ tick ∷ produce ∷ request ∷ [])

abbrev pub table : Lru
table = record {
  C = Text → Option ℕ;
  get = λ key c. (c, c key);
  add = λ key ref c k. if text_eq k key then some ref else c k;
}

-- The clock is read a second time two nanoseconds later.
abbrev pub at : ℕ → Clock
at now = record { now = now; later = now + 2 }

abbrev new_bucket : MemBucket table
new_bucket = new_mem_bucket table (λ k. none) 10 60

abbrev pub used : MemBucket table
used = (consume table (at 0) (codes "a") 1 new_bucket).0

pub used_there : (table.get (codes "a") used.cache).1 ≡ some 0
unfolding consume fill store_bucket new_mem_bucket text_eq codes
used_there = refl

used_ordered : AreOrdered (used.heap 0).when ((at 5, 3) ∷ (at minute, 8) ∷ [])
unfolding consume fill store_bucket new_mem_bucket text_eq codes
used_ordered = (omega arith, omega arith, (omega arith, omega arith, tt))

consume_all_rate_example :
    (consume_all table (codes "a") ((at 5, 3) ∷ (at minute, 8) ∷ []) used).1 * minute
      + used.rate * (used.heap 0).when
    ≤ (used.heap 0).tokens * minute + used.rate * minute + used.rate * 4
consume_all_rate_example =
    consume_all_rate table (λ key ref c e. e) (codes "a") 0 ((at 5, 3) ∷ (at minute, 8) ∷ []) used
      used_there used_ordered

abbrev some_calls : List Call
some_calls =
    consumes (at 0) (codes "a") 1 ∷ resets 3 (codes "a") ∷ consumes (at minute) (codes "b") 2 ∷ []

run_calls-new_mem_bucket_example :
    IsWithin table (run_calls table some_calls (new_mem_bucket table (λ k. none) 10 60))
    × ((run_calls table some_calls (new_mem_bucket table (λ k. none) 10 60)).size ≡ 10)
run_calls-new_mem_bucket_example = run_calls-new_mem_bucket table (λ k. none) 10 60 some_calls

table-IsCache : IsCache table
table-IsCache = record {
  get_get = λ k j c. refl;
  get_added = λ k ref c. inr (ground (arith, text_eq_refl k));
  get_others = λ k j ref c differ. inr (ground (arith, text_eq_sym j k));
}

abbrev first_call : List Call
first_call = consumes (at 0) (codes "a") 1 ∷ []

abbrev other_calls : List Call
other_calls = consumes (at 5) (codes "b") 2 ∷ resets 6 (codes "b") ∷ []

first_there :
    (table.get
      (codes "a")
      (run_calls table first_call (new_mem_bucket table (λ k. none) 10 60)).cache).1
    ≡ some 0
unfolding run_calls consume fill store_bucket new_mem_bucket text_eq codes
first_there = refl

calls-AreOthers : AreOthers (codes "a") other_calls
unfolding text_eq codes
calls-AreOthers = (refl, (refl, tt))

run_calls-heap_example :
    (run_calls table other_calls
        (run_calls table first_call (new_mem_bucket table (λ k. none) 10 60))).heap
      0
    ≡ (run_calls table first_call (new_mem_bucket table (λ k. none) 10 60)).heap 0
run_calls-heap_example =
    run_calls-heap table table-IsCache (λ k. none) 10 60 first_call other_calls (codes "a") 0
      (λ k. refl) first_there calls-AreOthers
