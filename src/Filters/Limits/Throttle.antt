-- ===== src/Filters/Limits/Throttle.antt =====
-- filter/limits/throttle.go: a channel of ticks lets requests through. The goroutine of `process` and
-- the requests are the two sides of the channel, and a step relation interleaves them.
pub mod Rate
use go_relax.Base.{ℕ, ◌+◌, ◌-◌, Bool, true, false, List, [], ◌∷◌, ltb, ◌==◌, if◌then◌else◌, ◌&&◌}
use go_relax.Text.{codes}
use go_relax.Context.{Context, Outcome, HandlerFunc, returned, http_error}

pub record Throttle : Type 0 where
  pub requests : ℕ
  pub burst : ℕ
  pub per : ℕ

-- The first lines of Run; durations are in nanoseconds.
unfoldable pub with_defaults : Throttle → Throttle
with_defaults f = record f {
  requests = if f.requests == 0 then 100 else f.requests;
  per = if f.per == 0 then 1000000000 else f.per;
}

-- The channel `limiter`, with `Burst` places, and its goroutine: the values that it still has to
-- send at the start, the one that waits to be sent, and the one in the channel of the ticker, which
-- has one place and drops ticks beyond it. `ticks` and `admitted` count what has happened.
pub record Limiter : Type 0 where
  pub capacity : ℕ
  pub buffered : ℕ
  pub initial : ℕ
  pub held : ℕ
  pub ticked : ℕ
  pub ticks : ℕ
  pub admitted : ℕ

unfoldable pub process : Throttle → Limiter
process f = record {
  capacity = f.burst;
  buffered = 0;
  initial = f.burst;
  held = 0;
  ticked = 0;
  ticks = 0;
  admitted = 0;
}

pub data Event : Type 0 where
  tick : Event
  produce : Event
  send : Event
  request : Event

-- The ticker of the runtime
unfoldable pub on_tick : Limiter → Limiter
on_tick l =
    if l.ticked == 0
    then record l { ticked = 1; ticks = l.ticks + 1 }
    else record l { ticks = l.ticks + 1 }

-- The goroutine takes the next value: one of the first `Burst`, or a tick.
unfoldable pub on_produce : Limiter → Limiter
on_produce l =
    if l.held == 0
    then (if ltb 0 l.initial
        then record l { initial = l.initial - 1; held = 1 }
        else if ltb 0 l.ticked
        then record l { ticked = 0; held = 1 }
        else l)
    else l

-- The value goes into the channel, if there is room.
unfoldable pub on_send : Limiter → Limiter
on_send l =
    if ltb 0 l.held && ltb l.buffered l.capacity
    then record l { held = 0; buffered = l.buffered + 1 }
    else l

-- A request takes a value from the channel, or straight from the goroutine that waits; it is
-- admitted if there is one.
unfoldable pub receive : Limiter → Limiter × Bool
receive l =
    if ltb 0 l.buffered
    then (record l { buffered = l.buffered - 1; admitted = l.admitted + 1 }, true)
    else if ltb 0 l.held
    then (record l { held = 0; admitted = l.admitted + 1 }, true)
    else (l, false)

unfoldable pub step : Event → Limiter → Limiter
unfolding on_tick on_produce on_send receive
step tick l = on_tick l
step produce l = on_produce l
step send l = on_send l
step request l = (receive l).0

unfoldable pub run_events : List Event → Limiter → Limiter
run_events [] l = l
run_events (e ∷ es) l = run_events es (step e l)

-- Run: the request is served, or answered with 429.
unfoldable pub run : HandlerFunc → Limiter → Context → Limiter × Outcome
unfolding receive http_error codes
run next l c =
    let (l', ok) = receive l in
    (l', if ok then next c else returned (http_error (codes "Too Many Requests") 429 c))
