-- ===== src/Filters/Limits/Memory.antt =====
-- filter/limits/memory.go: requests are refused while the program uses too much memory. The global
-- statistics are an argument of the filter, as the last update has left them.
use go_relax.Base.{
  List, [], ℕ, ℤ, pos, negsuc, Bool, not, ◌&&◌, ◌||◌, ◌∷◌, ltb, ◌==◌, if◌then◌else◌, suc, zero,
}
use go_relax.Text.{Text, codes, itoa}
use go_relax.Context.{Context, HandlerFunc, returned, set_header, http_error}

pub record MemStats : Type 0 where
  pub alloc : ℕ
  pub sys : ℕ

pub record Memory : Type 0 where
  pub alloc : ℕ
  pub sys : ℕ
  pub retry_after : ℤ

-- The first lines of Run: 1 GB of system memory.
unfoldable pub with_defaults : Memory → Memory
with_defaults f = if f.sys == 0 then record f { sys = 1000000000 } else f

unfoldable pub is_exceeded : MemStats → Memory → Bool
is_exceeded c0 f =
    (not (f.alloc == 0) && ltb f.alloc c0.alloc) || (not (f.sys == 0) && ltb f.sys c0.sys)

-- init and updateMemStats: the statistics are read at the start, and again at each minute.
unfoldable pub update_mem_stats : MemStats → List MemStats → MemStats
update_mem_stats c0 [] = c0
update_mem_stats c0 (reading ∷ later) = update_mem_stats reading later

-- strconv.Itoa
abbrev pub itoa_int : ℤ → Text
itoa_int (pos n) = itoa n
itoa_int (negsuc n) = b'-' ∷ itoa (suc n)

abbrev set_retry : ℤ → Context → Context
set_retry (pos zero) c = c
set_retry n c = set_header "Retry-After" (itoa_int n) c

-- Run
unfoldable pub run : MemStats → Memory → HandlerFunc → HandlerFunc
unfolding with_defaults is_exceeded itoa set_header http_error codes
run c0 f next c =
    let g = with_defaults f in
    if is_exceeded c0 g
    then returned (http_error (codes "Service Unavailable") 503 (set_retry g.retry_after c))
    else next c
