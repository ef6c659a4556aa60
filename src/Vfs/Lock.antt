-- ===== src/Vfs/Lock.antt =====
-- The lock around the reference count in kernel/fs/vfs.c, by the spinlock of
-- kernel/include/kernel/kernel.h. Threads open and close one inode, interleaved in any order. A
-- thread's steps are the accesses to memory: `refcount++` reads and then writes.
pub mod Exclusion
mod Tests
use shawn_os.Prelude.{ℕ, ◌+◌, ◌≡◌, ◌≢◌, Bool, true, false, ◌==◌, if◌then◌else◌, List, [], ◌∷◌}
use shawn_os.Kernel.{add32, sub32}

pub data Op : Type 0 where
  increase decrease : Op

-- Where a thread is: outside, at the compare-and-swap, at the read, at the write of what it has
-- read, and at the write that unlocks.
pub data Pc : Type 0 where
  outside : Pc
  spinning : Op → Pc
  reading : Op → Pc
  writing : Op → ℕ → Pc
  unlocking : Op → Pc

-- `history` is the changes that have been written, the last one first.
pub record System : Type 0 where
  pub locked : ℕ
  pub refcount : ℕ
  pub history : List Op
  pub pc : ℕ → Pc

abbrev pub changed : Op → ℕ → ℕ
changed increase n = add32 n 1
changed decrease n = sub32 n 1

abbrev pub moved : (ℕ → Pc) → ℕ → Pc → ℕ → Pc
moved pc i p j = if j == i then p else pc j

pub data Step (s : System) : System → Type 0 where
  enter :
      (i : ℕ) (op : Op) → s.pc i ≡ outside → Step s (record s { pc = moved s.pc i (spinning op) })
  swap_fails : (i : ℕ) (op : Op) → s.pc i ≡ spinning op → s.locked ≢ 0 → Step s s
  swap :
      (i : ℕ) (op : Op)
      → s.pc i ≡ spinning op
      → s.locked ≡ 0
      → Step s (record s { locked = 1; pc = moved s.pc i (reading op) })
  read :
      (i : ℕ) (op : Op)
      → s.pc i ≡ reading op
      → Step s (record s { pc = moved s.pc i (writing op s.refcount) })
  write :
      (i : ℕ) (op : Op) (n : ℕ)
      → s.pc i ≡ writing op n
      → Step s (record s {
        refcount = changed op n;
        history = op ∷ s.history;
        pc = moved s.pc i (unlocking op);
      })
  unlock :
      (i : ℕ) (op : Op)
      → s.pc i ≡ unlocking op
      → Step s (record s { locked = 0; pc = moved s.pc i outside })

-- Nobody is inside, the lock is free and the count is `count`.
abbrev pub start_state : ℕ → System
start_state count = record { locked = 0; refcount = count; history = []; pc = λ i. outside }

pub data Reach (count : ℕ) : System → Type 0 where
  start : Reach count (start_state count)
  later : {s t : System} → Reach count s → Step s t → Reach count t

-- Between the compare-and-swap and the write that unlocks.
abbrev pub critical : Pc → Bool
critical outside = false
critical (spinning op) = false
critical (reading op) = true
critical (writing op n) = true
critical (unlocking op) = true

-- The count after the changes, one after the other.
abbrev pub replay : ℕ → List Op → ℕ
replay count [] = count
replay count (op ∷ history) = changed op (replay count history)
