-- ===== src/Boot/Laws.antt =====
-- The memory subsystem after the start.
use shawn_os.Prelude.{
  ℕ, ◌+◌, ◌*◌, ◌/◌, ◌%◌, ◌^◌, ◌≤◌, ◌<◌, ◌≡◌, ◌≢◌, refl, sym, ◌∙◌, arith, false, ltb, ◌==◌,
  if◌then◌else◌, bit_and, none, some, List, get_or, length, ok,
}
use shawn_os.Kernel.{add32, mul32, div_round_up, page_size, kvirt_reserved, kvirt_max}
use shawn_os.EarlyHeap.{EarlyHeap, max_size, aligned, kmalloc_real, kmalloc}
use shawn_os.EarlyHeap.Laws as Heap
use shawn_os.MemoryMap.{MmapEntry, ElfSection, MultibootInfo}
use shawn_os.MemoryMap.Walk.{NoWrap}
use shawn_os.MemoryMap.Start.{known, known_highest, bitset_address, early_after, mem_init_lem}
use shawn_os.Asa.Alloc
use shawn_os.Asa.Init.{bitset_size, asa_init_lem}
use shawn_os.Isr.{isr_install_handler}
use shawn_os.Mmu.Walk
use shawn_os.Mmu.Walk.{walk}
use shawn_os.Mmu.Init.Done.{paging_init_lem}
use shawn_os.Boot.{Booted, no_pages, boot}

block_real :
    (size : ℕ) (s : EarlyHeap)
    → Heap.IsValid s
    → size + s.curpos + page_size ≤ s.start + max_size
    → (kmalloc_real size false 1 s).address ≢ 0
unfolding kmalloc_real
block_real size s v room e =
    let over : ltb (add32 s.start max_size) (add32 (add32 size s.curpos) page_size) ≡ false =
      ground (arith, v.room) in
    let (up, near, divides) = Heap.aligned_lem false s.curpos (omega (arith, v.above, v.room)) in
    absurd (
      positive (aligned false s.curpos) (omega (arith, v.above_zero, v.below, up))
        (sym (rw over refl) ∙ e))
  where
    positive : (a : ℕ) → 0 < a → a ≢ 0
    positive a h z = omega arith

-- A critical block for which there is room.
placed :
    (size : ℕ) (s : EarlyHeap)
    → Heap.IsValid s
    → size + s.curpos + page_size ≤ s.start + max_size
    → Heap.Placed s size false (kmalloc size s)
unfolding kmalloc
placed size s v room =
    Heap.kmalloc_real-Placed size 1 false s v (omega (arith, v.room)) (block_real size s v room)

-- The early heap while it is empty.
abbrev heap_at_start : (ℕ → ElfSection) → MultibootInfo → EarlyHeap
heap_at_start section_at h = record {
  start = (known section_at h).kernel_heap_start;
  curpos = (known section_at h).kernel_heap_curpos;
}

curpos_at_start :
    (section_at : ℕ → ElfSection) (h : MultibootInfo)
    → (known section_at h).kernel_heap_curpos ≡ (known section_at h).kernel_heap_start
unfolding known
curpos_at_start section_at h = refl

module _ (section_at : ℕ → ElfSection) (h : MultibootInfo)
    (positive : 0 < (known section_at h).kernel_heap_start)
    (low : (known section_at h).kernel_heap_start + max_size + page_size ≤ kvirt_reserved)
    (some_pages : 1520 ≤ h.mem_upper) (small : h.mem_upper * 1024 + page_size < 2 ^ 32) where
  empty-IsValid : Heap.IsValid (heap_at_start section_at h)
  empty-IsValid =
      let e = curpos_at_start section_at h in
      record {
        above_zero = positive;
        below = omega (arith, e);
        above = omega (arith, e);
        room = omega (arith, low);
      }

  frames_placed :
      (mul32 (div_round_up ((known section_at h).highest_free_address / 0x1000) 32) 4 ≤ 2 ^ 17)
      × Heap.Placed
          (heap_at_start section_at h)
          (mul32 (div_round_up ((known section_at h).highest_free_address / 0x1000) 32) 4)
          false
          (kmalloc
            (mul32 (div_round_up ((known section_at h).highest_free_address / 0x1000) 32) 4)
            (heap_at_start section_at h))
  frames_placed =
      let size : mul32 (div_round_up ((known section_at h).highest_free_address / 0x1000) 32) 4
          ≤ 2 ^ 17 =
        omega (arith, known_highest section_at h (omega arith)) in
      (
        size,
        placed _ (heap_at_start section_at h) empty-IsValid
            (omega (arith, size, curpos_at_start section_at h)),
      )

  -- The early heap before the pages of the address space are counted, and then before paging.
  early_placed :
      Heap.IsValid (early_after section_at h)
      × ((early_after section_at h).start ≡ (known section_at h).kernel_heap_start)
      × ((early_after section_at h).curpos + 0x8000 + 0x6000
          ≤ (known section_at h).kernel_heap_start + max_size)
  early_placed =
      let (size, p) = frames_placed in
      (p.valid, p.same_start, omega (arith, size, p.moves, p.near, curpos_at_start section_at h))

  asa_placed :
      Heap.Placed
        (early_after section_at h)
        (bitset_size page_size)
        false
        (kmalloc (bitset_size page_size) (early_after section_at h))
  asa_placed =
      let (v, same, room) = early_placed in
      placed (bitset_size page_size) (early_after section_at h) v (omega (arith, same, room))

-- From `i386_mem_init` to `i386_paging_init`, where the boot loader passed a memory map and section
-- headers, the entries of the map stay in the address space, memory reaches KVIRT_RESERVED and ends
-- a page below the end of the address space, the early heap does not start at 0 and ends two pages
-- below KVIRT_RESERVED at least, the words of both bitsets cover them, and all words have 32 bits:
-- the start succeeds, with an address space allocator and page tables that are valid, and a page
-- below KVIRT_RESERVED is mapped to itself.
pub boot_lem :
    (handler address : ℕ) (entry_at : ℕ → MmapEntry) (section_at : ℕ → ElfSection)
    (words_at : ℕ → List ℕ) (memory : ℕ → ℕ → ℕ) (h : MultibootInfo) (routines : List ℕ)
    → bit_and h.flags 64 ≢ 0
    → bit_and h.flags 32 ≢ 0
    → NoWrap entry_at h.mmap_addr (add32 h.mmap_addr h.mmap_length)
    → 1520 ≤ h.mem_upper
    → h.mem_upper * 1024 + page_size < 2 ^ 32
    → 0 < (known section_at h).kernel_heap_start
    → (known section_at h).kernel_heap_start + max_size + page_size ≤ kvirt_reserved
    → h.mem_upper ≤ 128 * length (words_at (bitset_address section_at h))
    → kvirt_max / page_size
      ≤ 32 * length (words_at (kmalloc (bitset_size page_size) (early_after section_at h)).address)
    → ((a n : ℕ) → get_or (words_at a) n 0 < 2 ^ 32)
    → ((f i : ℕ) → memory f i < 2 ^ 32)
    → ((f i : ℕ) → 1024 ≤ i → memory f i ≡ 0)
    → address < kvirt_reserved
    → address % 4096 ≡ 0
    → (b : Booted) × (boot handler entry_at section_at words_at memory h routines ≡ ok b)
      × Alloc.IsValid b.kasa
      × Walk.IsValid b.mmu
      × (walk b.mmu address ≡ address)
unfolding boot
boot_lem handler address entry_at section_at words_at memory h routines map elf no_wrap enough top
      positive low covers covers_pages words fits beyond below page =
    let (t, started, bits, len, marked, kept, info, early) =
      mem_init_lem entry_at section_at words_at h map elf no_wrap (omega arith) top covers
        (words (bitset_address section_at h)) in
    let (v, same, room) = early_placed section_at h positive low enough top in
    let asa = asa_placed section_at h positive low enough top in
    let a = kmalloc (bitset_size page_size) (early_after section_at h) in
    let real : (a.address == 0) ≡ false = ground (arith, asa.behind, v.above_zero, v.below) in
    let granted : (if a.address == 0 then none else some (words_at a.address))
        ≡ some (words_at a.address) =
      rw real refl in
    let (kasa, asa_run, asa_valid, size, pages, members) =
      asa_init_lem (λ n. if a.address == 0 then none else some (words_at a.address)) page_size
        no_pages (words_at a.address) (omega arith) (omega arith) granted covers_pages
        (words a.address) in
    let (data_out, mmu, paging, valid, mapped, taken, top_page) =
      paging_init_lem handler address t.meminfo routines
        (record {
          memory = memory;
          frames = t.frames;
          early = a.heap;
          page_directory = 0;
          window_page = 0;
          early_init_done = false;
        })
        refl asa.valid (omega (arith, asa.moves, asa.near, asa.same_start, same, room))
        (omega (arith, asa.same_start, same, low)) bits (omega (arith, len)) fits beyond below
        page in
    (
      record {
        meminfo = t.meminfo;
        kasa = kasa;
        info = data_out;
        routines = isr_install_handler 14 handler routines;
        mmu = mmu;
      },
      rw started (rw early (rw asa_run (rw paging refl))),
      asa_valid,
      valid,
      mapped,
    )
