-- ===== src/Mmu/Init/Start.antt =====
-- `i386_paging_init` from its start: the directory, the first page table and the loop.
use shawn_os.Prelude.{ℕ, ◌+◌, ◌/◌, ◌^◌, ◌≤◌, ◌<◌, ◌≡◌, ap, arith, Bool, true, false, ◌==◌}
use shawn_os.Kernel.{k_success}
use shawn_os.Bitset.Laws
use shawn_os.EarlyHeap.{max_size, kmalloc_real, kmalloc_a}
use shawn_os.EarlyHeap.Laws as Heap
use shawn_os.Mmu.{Mmu}
use shawn_os.Mmu.Init.{i386_mmu_data_init}
use shawn_os.Mmu.Init.Fill.{filled, filled_lem, memset32-filled, kmalloc_room}
use shawn_os.Mmu.Init.Identity.{Common}

-- The directory is there and empty, and there is room for a page table behind it.
pub record Fresh (s : Mmu) : Type 0 where
  pub common : Common s
  pub absent : s.memory (s.page_directory / 4096) 0 ≡ 2
  pub heap : Heap.IsValid s.early
  pub behind : s.page_directory + 4096 ≤ s.early.curpos
  pub room : s.early.curpos + 0x2000 ≤ s.early.start + max_size

-- A block of a page from the early heap.
pub block :
    (s : Mmu) (wants_phys : Bool)
    → Heap.IsValid s.early
    → s.early.curpos + 0x2000 ≤ s.early.start + max_size
    → Heap.Placed s.early 4096 true (kmalloc_real 4096 wants_phys 5 s.early)
block s wants_phys v room =
    Heap.kmalloc_real-Placed 4096 5 wants_phys s.early v (omega (arith, v.room))
      (kmalloc_room 4096 wants_phys s.early v (omega arith))

-- What `i386_mmu_data_init` leaves.
abbrev pub with_directory : Mmu → Mmu
with_directory s =
    let a = kmalloc_real 4096 false 5 s.early in
    record s {
      early = a.heap;
      page_directory = a.address;
      memory = filled 1024 0 (a.address / 4096) 2 s.memory;
    }

module _ (s : Mmu) (early : s.early_init_done ≡ false) (v : Heap.IsValid s.early)
    (bits : Laws.IsValid s.frames.bitset) (long : 380 ≤ s.frames.bitset.length)
    (room : s.early.curpos + 0x4000 ≤ s.early.start + max_size)
    (words : (f i : ℕ) → s.memory f i < 2 ^ 32)
    (beyond : (f i : ℕ) → 1024 ≤ i → s.memory f i ≡ 0) where
  pub mmu_data_init_lem : i386_mmu_data_init s ≡ (k_success, with_directory s)
  unfolding i386_mmu_data_init kmalloc_a
  mmu_data_init_lem =
      let real : ((kmalloc_real 4096 false 5 s.early).address == 0) ≡ false =
        ground (arith, kmalloc_room 4096 false s.early v (omega arith)) in
      rw real (
        ap (λ (t : Mmu). (k_success, t))
          (memset32-filled 1024 0 (kmalloc_real 4096 false 5 s.early).address 2 _ early))

  pub with_directory-Fresh : Fresh (with_directory s)
  with_directory-Fresh =
      let b = block s false v (omega arith) in
      let a = kmalloc_real 4096 false 5 s.early in
      let memory = filled_lem 1024 0 (a.address / 4096) 2 s.memory in
      record {
        common = record {
          early = early;
          aligned = b.aligns;
          small = omega (arith, b.inside, v.room);
          words = λ f i. ground (arith, memory f i, words f i);
          others = λ i ne. ground (arith, memory (a.address / 4096) i, beyond (a.address / 4096) i);
          bits = bits;
          long = long;
        };
        absent = ground (arith, memory (a.address / 4096) 0);
        heap = b.valid;
        behind = omega (arith, b.moves);
        room = omega (arith, b.moves, b.near, b.same_start, room);
      }
