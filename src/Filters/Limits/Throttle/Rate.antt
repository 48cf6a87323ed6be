-- ===== src/Filters/Limits/Throttle/Rate.antt =====
-- How many requests the channel of filter/limits/throttle.go lets through.
use go_relax.Base.{ℕ, ◌+◌, ◌≤◌, List, [], ◌∷◌, ◌≡◌, arith}
use go_relax.Filters.Limits.Throttle.{
  Throttle, Limiter, process, Event, tick, produce, send, request, on_tick, on_produce, on_send,
  receive, step, run_events,
}

-- The values that are under way, and those that were taken, are at most the first `Burst` and one for
-- each tick. The channel holds no more than its places, and the goroutine and the ticker one each.
pub record IsBounded (burst : ℕ) (l : Limiter) : Type 0 where
  pub places : l.capacity ≡ burst
  pub fits : l.buffered ≤ burst
  pub one_held : l.held ≤ 1
  pub one_ticked : l.ticked ≤ 1
  pub total : l.admitted + l.buffered + l.held + l.ticked + l.initial ≤ burst + l.ticks

process-IsBounded : (f : Throttle) → IsBounded f.burst (process f)
unfolding process
process-IsBounded f = ground arith

step-IsBounded :
    (burst : ℕ) (e : Event) (l : Limiter) → IsBounded burst l → IsBounded burst (step e l)
unfolding step
step-IsBounded burst tick l h = ground arith
step-IsBounded burst produce l h = ground arith
step-IsBounded burst send l h = ground arith
step-IsBounded burst request l h = ground arith

run_events-IsBounded :
    (burst : ℕ) (es : List Event) (l : Limiter)
    → IsBounded burst l
    → IsBounded burst (run_events es l)
unfolding run_events
run_events-IsBounded burst [] l h = h
run_events-IsBounded burst (e ∷ es) l h =
    run_events-IsBounded burst es (step e l) (step-IsBounded burst e l h)

pub count_ticks : List Event → ℕ
count_ticks [] = 0
count_ticks (tick ∷ es) = count_ticks es + 1
count_ticks (produce ∷ es) = count_ticks es
count_ticks (send ∷ es) = count_ticks es
count_ticks (request ∷ es) = count_ticks es

ticks-step : (es : List Event) (l : Limiter) → (run_events es l).ticks ≡ l.ticks + count_ticks es
unfolding run_events step count_ticks
ticks-step [] l = omega arith
ticks-step (tick ∷ es) l = ground (arith, ticks-step es (on_tick l))
ticks-step (produce ∷ es) l = ground (arith, ticks-step es (on_produce l))
ticks-step (send ∷ es) l = ground (arith, ticks-step es (on_send l))
ticks-step (request ∷ es) l = ground (arith, ticks-step es (receive l).0)

-- However ticks, the goroutine and requests interleave, the requests that are admitted are at most
-- the burst and one for each tick.
pub admitted-run_events :
    (f : Throttle) (es : List Event)
    → (run_events es (process f)).admitted ≤ f.burst + count_ticks es
unfolding process
admitted-run_events f es =
    let b = run_events-IsBounded f.burst es (process f) (process-IsBounded f) in
    omega (arith, b.total, ticks-step es (process f))
