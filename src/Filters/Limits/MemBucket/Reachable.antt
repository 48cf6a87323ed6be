-- ===== src/Filters/Limits/MemBucket/Reachable.antt =====
-- The states that a token bucket of filter/limits/container.go can reach.
use go_relax.Base.{ℕ, List, [], ◌∷◌, ◌≡◌, refl, ◌∙◌, arith}
use go_relax.Text.{Text}
use go_relax.Filters.Limits.MemBucket.{Lru, Clock, MemBucket, new_mem_bucket, consume, reset}
use go_relax.Filters.Limits.MemBucket.Rate.{IsWithin, consume-IsWithin, reset-IsWithin}

-- The calls that change a container: a clock or a time, a key, and the tokens that are asked for.
pub data Call : Type 0 where
  consumes : Clock → Text → ℕ → Call
  resets : ℕ → Text → Call

module _ (lru : Lru) where
  open lru use {C}

  unfoldable pub run_calls : List Call → MemBucket lru → MemBucket lru
  run_calls [] b = b
  run_calls (consumes t key n ∷ calls) b = run_calls calls (consume lru t key n b).0
  run_calls (resets now key ∷ calls) b = run_calls calls (reset lru now key b)

  run_calls-IsWithin :
      (calls : List Call) (b : MemBucket lru)
      → IsWithin lru b
      → IsWithin lru (run_calls calls b) × ((run_calls calls b).size ≡ b.size)
  unfolding run_calls
  run_calls-IsWithin [] b within = (within, refl)
  run_calls-IsWithin (consumes t key n ∷ calls) b within =
      let (kept, size) = consume-IsWithin lru t key n b within in
      let (kept', size') = run_calls-IsWithin calls (consume lru t key n b).0 kept in
      (kept', size' ∙ size)
  run_calls-IsWithin (resets now key ∷ calls) b within =
      let (kept, size) = reset-IsWithin lru now key b within in
      let (kept', size') = run_calls-IsWithin calls (reset lru now key b) kept in
      (kept', size' ∙ size)

  new_mem_bucket-IsWithin :
      (empty : C) (capacity rate : ℕ) → IsWithin lru (new_mem_bucket lru empty capacity rate)
  unfolding new_mem_bucket
  new_mem_bucket-IsWithin empty capacity rate ref = omega arith

  -- Whatever calls of Consume and Reset are made of a new container, in any order and at any times, no
  -- bucket holds more than the capacity, which stays the one that the container was made with.
  pub run_calls-new_mem_bucket :
      (empty : C) (capacity rate : ℕ) (calls : List Call)
      → IsWithin lru (run_calls calls (new_mem_bucket lru empty capacity rate))
        × ((run_calls calls (new_mem_bucket lru empty capacity rate)).size ≡ capacity)
  unfolding new_mem_bucket
  run_calls-new_mem_bucket empty capacity rate calls =
      run_calls-IsWithin calls (new_mem_bucket lru empty capacity rate)
        (new_mem_bucket-IsWithin empty capacity rate)
