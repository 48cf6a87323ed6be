-- ===== src/Filters/Limits/Container.antt =====
-- The interface of filter/limits/container.go, and the two containers that implement it: buckets in
-- memory, with the readings of the clock of the next call, and buckets in a Redis server.
pub mod Spec
use go_relax.Base.{ℕ, Bool, true, Option, none, some, ℤ, pos}
use go_relax.Text.{Text}
use go_relax.Filters.Limits.MemBucket.{Lru, Clock, MemBucket}
use go_relax.Filters.Limits.MemBucket
use go_relax.Filters.Limits.RedisBucket.{Redis, RedisBucket}
use go_relax.Filters.Limits.RedisBucket

-- Container: `Consume` returns the tokens that are left, the time to wait and whether tokens were
-- taken; `none`, and `false` of `Reset`, is a panic.
pub record Container : Type 1 where
  pub S : Type 0
  pub capacity : S → ℕ
  pub consume : Text → ℕ → S → S × Option (ℤ × ℕ × Bool)
  pub reset : Text → S → S × Bool

abbrev pub answer_of : ℕ → Option ℕ → Bool → Option (ℤ × ℕ × Bool)
answer_of tokens none ok = none
answer_of tokens (some when) ok = some (pos tokens, when, ok)

-- A MemBucket, with the readings of the clock.
abbrev pub mem_container : Lru → Container
mem_container lru = record {
  S = Clock × MemBucket lru;
  capacity = λ s. MemBucket.capacity lru s.1;
  consume = λ key n s.
      let (b, tokens, when, ok) = MemBucket.consume lru s.0 key n s.1 in
      ((s.0, b), answer_of tokens when ok);
  reset = λ key s. ((s.0, MemBucket.reset lru s.0.now key s.1), true);
}

-- A RedisBucket, with the server.
abbrev pub redis_container : Redis → Container
redis_container r = record {
  S = RedisBucket × r.S;
  capacity = λ s. RedisBucket.capacity s.0;
  consume =
      λ key n s. let (s', answer) = RedisBucket.consume r s.0 key n s.1 in ((s.0, s'), answer);
  reset = λ key s. let (s', ok) = RedisBucket.reset r s.0 key s.1 in ((s.0, s'), ok);
}
