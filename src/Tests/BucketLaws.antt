-- ===== src/Tests/BucketLaws.antt =====
-- The theorems on token buckets at concrete buckets, with a small server in place of Redis.
use go_relax.Base.{
  ℕ, ◌+◌, ◌*◌, ◌≤◌, true, false, Option, none, some, List, [], ◌∷◌, ◌≡◌, refl, arith, leb, ℤ, pos,
  ◌-ℤ◌, ltz, ◌++◌, map, ap,
}
use go_relax.Text.{Text, codes, text_eq}
use go_relax.Context.{Context}
use go_relax.Filters.Limits.MemBucket.{
  Clock, minute, wait, consume, fill, store_bucket, new_mem_bucket,
}
use go_relax.Filters.Limits.MemBucket.Rate.{AreOrdered, last_time, between_readings}
use go_relax.Filters.Limits.RedisBucket.{
  Redis, RedisBucket, Command, multi, exec, discard, ttl, get, set, set_existing, expire, decr_by,
}
use go_relax.Filters.Limits.RedisBucket
use go_relax.Filters.Limits.RedisBucket.Tokens.{
  after, IsLive, IsFilled, left_after, value_of, consume-tokens_of,
}
use go_relax.Filters.Limits.RedisBucket.Race.{
  consume_at_once, was_taken, consume_at_once_overspends,
}
use go_relax.Filters.Limits.Container.Spec.{consume-tokens}
use go_relax.Filters.Limits.Usage.{ration_of}
use go_relax.Filters.Limits.Usage.Rate.{serve_all, calls_of, serve_all_rate}
use go_relax.Tests.LimitLaws.{table, at, used, used_there}
use go_relax.Tests.CoreLaws.{new_one}

-- The values of the keys, and the queue of a transaction.
abbrev State : Type 0
State = (Text → ℤ) × Option (List Command)

abbrev no_time : Text → ℤ
no_time key = pos 0

abbrev opened : Command → Option (List Command)
opened multi = some []
opened _ = none

abbrev sent : Command → State → State
sent c s = elim s.1 [
  | some cs ↦ (s.0, some (cs ++ c ∷ []))
  | none ↦ (λ key. after c key (s.0 key), opened c)
]

-- The server, after EXEC and DECRBY, and its replies.
abbrev called : Command → State → State × Option (List ℤ)
called exec s = elim s.1 [
  | some cs ↦ ((s.0, none), some (map (value_of no_time s.0) cs))
  | none ↦ (s, none)
]
called (decr_by k n) s =
    ((λ key. after (decr_by k n) key (s.0 key), s.1), some ((s.0 k -ℤ pos n) ∷ []))
called c s = (s, none)

abbrev first : List ℤ → ℤ
first [] = pos 0
first (v ∷ vs) = v

abbrev scanned : List (List ℤ) → Option (ℤ × ℤ)
scanned (x ∷ y ∷ []) = some (first x, first y)
scanned _ = none

abbrev server : Redis
server = record {
  S = State;
  Reply = List ℤ;
  open_conn = λ s. (s.0, none);
  close_conn = λ s. s;
  send = λ c s. (sent c s, false);
  call = called;
  values = λ v. some (map (λ x. x ∷ []) v);
  scan = scanned;
  int = λ v. some (first v);
}

first-each : (vs : List ℤ) → map first (map (λ x. x ∷ []) vs) ≡ vs
first-each [] = refl
first-each (v ∷ vs) = ap (λ l. v ∷ l) (first-each vs)

scanned_two : (vs : List (List ℤ)) (x y : ℤ) → map first vs ≡ x ∷ y ∷ [] → scanned vs ≡ some (x, y)
scanned_two [] x y h = absurd (cc h)
scanned_two (v ∷ []) x y h = absurd (cc h)
scanned_two (v ∷ w ∷ []) x y h = cc h
scanned_two (v ∷ w ∷ u ∷ us) x y h = absurd (cc h)

server-IsLive : IsLive server
server-IsLive = record {
  tokens_of = λ key s. s.0 key;
  left_of = λ key s. no_time key;
  queue_of = λ s. s.1;
  read_as = first;
  queue_of-open = λ s. refl;
  tokens_of-open = λ key s. refl;
  tokens_of-close = λ key s. refl;
  send_succeeds = λ c s. refl;
  tokens_of-send = λ c key s closed applies. rw closed refl;
  tokens_of-decr_by = λ k n key s closed. refl;
  decr_by_replies = λ k n s closed. ((s.0 k -ℤ pos n) ∷ [], refl, refl);
  multi_opens = λ s closed. rw closed (refl, λ key. refl);
  send_queues = λ c cs s in_queue. rw in_queue (refl, (λ key. refl), (λ key. refl));
  exec_closes = λ cs s in_queue reads. rw in_queue (refl, (λ key. refl), (λ key. refl));
  exec_replies = λ cs s in_queue reads.
      let vs = map (value_of no_time s.0) cs in
      (vs, map (λ x. x ∷ []) vs, rw in_queue refl, refl, first-each vs);
  scan_two = scanned_two;
}

abbrev ten : RedisBucket
ten = record { size = 10; rate = 5 }

abbrev six_left : State
six_left = (λ key. pos 6, none)

ten_waits : wait 5 10 ≡ some 2
unfolding wait
ten_waits = refl

consume-tokens_of_example :
    (f : ℕ) × (time : ℕ) × IsFilled 10 6 f
    × ((RedisBucket.consume server ten (codes "a") 4 six_left).1
        ≡ some (pos (left_after f 4), time, leb 4 f))
    × ((RedisBucket.consume server ten (codes "a") 4 six_left).0.0 (codes "a")
        ≡ pos (left_after f 4))
unfolding server-IsLive
consume-tokens_of_example =
    consume-tokens_of server server-IsLive ten 1 ten_waits (codes "a") 4 6 six_left refl
      (omega arith)

consume_at_once_overspends_example :
    (f : ℕ) × IsFilled 10 6 f
    × (was_taken server (consume_at_once server ten (codes "a") 6 six_left).1 ≡ true)
    × (was_taken server (consume_at_once server ten (codes "a") 6 six_left).2 ≡ true)
    × ((consume_at_once server ten (codes "a") 6 six_left).0.0 (codes "a")
        ≡ (pos f -ℤ pos 6) -ℤ pos 6)
    × (ltz ((consume_at_once server ten (codes "a") 6 six_left).0.0 (codes "a")) (pos 0) ≡ true)
unfolding server-IsLive
consume_at_once_overspends_example =
    consume_at_once_overspends server server-IsLive ten 1 ten_waits (codes "a") 6 6 six_left refl
      (omega arith) (omega arith) (omega arith)

used_within : (used.heap 0).tokens ≤ used.size
unfolding consume fill store_bucket new_mem_bucket codes text_eq
used_within = omega arith

consume-tokens_example :
    (f : ℕ) × IsFilled used.size (used.heap 0).tokens f
    × ((consume table (at 5) (codes "a") 3 used).1 ≡ left_after f 3)
    × ((consume table (at 5) (codes "a") 3 used).3 ≡ leb 3 f)
    × (((consume table (at 5) (codes "a") 3 used).0.heap 0).tokens ≡ left_after f 3)
consume-tokens_example = consume-tokens table (at 5) (codes "a") 3 0 used used_there used_within

used_rate : used.rate ≡ 60
unfolding consume fill store_bucket new_mem_bucket codes text_eq
used_rate = refl

abbrev requests : List (Clock × Context)
requests = (at 5, new_one) ∷ (at minute, new_one) ∷ []

requests-AreOrdered : AreOrdered (used.heap 0).when (calls_of (ration_of 2) requests)
unfolding consume fill store_bucket new_mem_bucket codes text_eq
requests-AreOrdered = (omega arith, omega arith, (omega arith, omega arith, tt))

serve_all_rate_example :
    serve_all table (λ c. codes "a") 2 requests used * ration_of 2 * minute
      + used.rate * (used.heap 0).when
    ≤ (used.heap 0).tokens * minute
      + used.rate * last_time (used.heap 0).when (calls_of (ration_of 2) requests)
      + used.rate * between_readings (calls_of (ration_of 2) requests)
serve_all_rate_example =
    serve_all_rate table (λ c. codes "a") 2 (λ key ref c e. e) (codes "a") 0 59 requests used
      used_rate (refl, (refl, tt)) used_there requests-AreOrdered
