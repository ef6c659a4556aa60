-- ===== src/Pit/Wait/Tests.antt =====
-- A wait of a second with one routine, and one that wraps.
use shawn_os.Prelude.{ℕ, zero, suc, ◌+◌, ◌≡◌, refl, ap, arith, List, [], ◌∷◌, replicate, ok}
use shawn_os.Pit.{Pit}
use shawn_os.Pit.Wait.{Interrupt, timer, other, returned, wait_until, timer_wait}
use shawn_os.Pit.Wait.Laws.{ticks, Running, after, timer_wait_lem}

abbrev one_routine : ℕ → Pit
one_routine now = record {
  routines = record { hz = 1000; func = 0x10_4000 } ∷ [];
  size = 1;
  total_ticks = now;
}

one_routine-Running : Running (one_routine 5000)
unfolding Running
one_routine-Running zero inside = omega arith
one_routine-Running (suc i) inside = absurd (omega arith)

-- The ticks of a second, behind an interrupt that is not the timer's.
abbrev second : List Interrupt
second = other ∷ replicate 1000 timer

ticks-replicate : (n : ℕ) → ticks (replicate n timer) ≡ n
ticks-replicate zero = refl
ticks-replicate (suc n) = ap suc (ticks-replicate n)

timer_wait_lem_example :
    (later : List Interrupt) × (timer_wait 1 second (one_routine 5000)
      ≡ ok (returned later (after 1000 (one_routine 5000))))
    × (ticks second ≡ 1000 + ticks later)
timer_wait_lem_example =
    timer_wait_lem 1 second (one_routine 5000) one_routine-Running (omega arith)
      (omega (arith, ticks-replicate 1000))

wraps_at_once : timer_wait 1 [] (one_routine 4294967000) ≡ ok (returned [] (one_routine 4294967000))
unfolding timer_wait wait_until
wraps_at_once = refl
