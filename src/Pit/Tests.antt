-- ===== src/Pit/Tests.antt =====
-- The theorems on the timer at a table with one routine.
use shawn_os.Prelude.{◌∷◌, replicate}
use shawn_os.Pit.{Pit, Routine, no_routine}

abbrev one_routine : Pit
one_routine = record {
  routines = record { hz = 5; func = 0x1000 } ∷ replicate 63 no_routine;
  size = 1;
  total_ticks = 9;
}

abbrev every_other : Routine
every_other = record { hz = 2; func = 0x2000 }
