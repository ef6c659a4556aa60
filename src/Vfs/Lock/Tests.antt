-- ===== src/Vfs/Lock/Tests.antt =====
-- Thread 0 holds the lock, and thread 1 waits for it.
use shawn_os.Prelude.{ℕ, ◌≡◌, refl, [], ◌∷◌}
use shawn_os.Vfs.Lock.{
  increase, decrease, outside, spinning, reading, writing, unlocking, System, moved, enter, swap,
  read, write, Reach, start, later, replay,
}
use shawn_os.Vfs.Lock.Exclusion.{Freeing, lock_excludes, no_change_lost, no_deadlock}

abbrev both_wait : System
both_wait = record {
  locked = 0;
  refcount = 1;
  history = [];
  pc = moved (moved (λ i. outside) 0 (spinning increase)) 1 (spinning decrease);
}

abbrev one_reads : System
one_reads = record both_wait { locked = 1; pc = moved both_wait.pc 0 (reading increase) }

abbrev one_wrote : System
one_wrote = record one_reads {
  refcount = 2;
  history = increase ∷ [];
  pc = moved (moved one_reads.pc 0 (writing increase 1)) 0 (unlocking increase);
}

both_wait-Reach : Reach 1 both_wait
both_wait-Reach = later (later start (enter 0 increase refl)) (enter 1 decrease refl)

one_reads-Reach : Reach 1 one_reads
one_reads-Reach = later both_wait-Reach (swap 0 increase refl refl)

one_wrote-Reach : Reach 1 one_wrote
one_wrote-Reach = later (later one_reads-Reach (read 0 increase refl)) (write 0 increase 1 refl)

lock_excludes_example : ◌≡◌ {A = ℕ} 0 0
lock_excludes_example = lock_excludes one_reads-Reach 0 0 refl refl

no_change_lost_example : one_wrote.refcount ≡ replay 1 (increase ∷ [])
no_change_lost_example = no_change_lost one_wrote-Reach

no_deadlock_example : Freeing one_reads 1 decrease
no_deadlock_example = no_deadlock one_reads-Reach 1 decrease refl
