-- ===== src/MemoryMap/Start.antt =====
-- `i386_mem_init`: what the kernel knows of memory once the boot loader's tables are read, the early
-- heap behind the kernel, and the bitset of frames in it.
use shawn_os.Prelude.{
  ℕ, ◌+◌, ◌*◌, ◌/◌, ◌^◌, ◌≤◌, ◌<◌, ◌≡◌, ◌≢◌, refl, ◌∙◌, arith, false, ◌==◌, if◌then◌else◌, bit_and,
  some, List, get_or, length, Outcome, ok, abort, ◌>>=◌,
}
use shawn_os.Kernel.{add32, mul32, div_round_up, page_size}
use shawn_os.Bitset.{init}
use shawn_os.Bitset.Laws
use shawn_os.Bitset.Laws.{member}
use shawn_os.Bitset.Access.{init-IsValid, member-init}
use shawn_os.Frames.{Frames}
use shawn_os.EarlyHeap.{EarlyHeap, Allocation, kmalloc_real}
use shawn_os.EarlyHeap
use shawn_os.Kalloc.{KallocInterface}
use shawn_os.MemoryMap.{MmapEntry, ElfSection, MultibootInfo, MemInfo, init_bitset}
use shawn_os.MemoryMap.Sections.{sections_read}
use shawn_os.MemoryMap.Walk.{NoWrap}
use shawn_os.MemoryMap.Reserved.{map_end}
use shawn_os.MemoryMap.Marked.{ToMark, init_bitset_lem}

-- The placement allocator behind `kmalloc`.
unfoldable pub early_kalloc : KallocInterface EarlyHeap
early_kalloc = record {
  malloc_real = some (λ size wants_phys flags s.
      let a = kmalloc_real size wants_phys flags s in ok (a.address, a.phys, a.heap));
  free = some (λ addr s. ok (EarlyHeap.kfree addr s));
}

-- What `i386_mem_init` leaves.
pub record Started : Type 0 where
  pub meminfo : MemInfo
  pub early : EarlyHeap
  pub frames : Frames
  pub kalloc : KallocInterface EarlyHeap

-- The fields that are copied. The end of the multiboot information is pointer arithmetic, 88
-- structures of 88 bytes behind its start.
unfoldable pub copied : MultibootInfo → MemInfo
copied h = record {
  mboot_header = h;
  mmap_length = h.mmap_length;
  mmap = h.mmap_addr;
  kernel_reserved_start = 0;
  kernel_reserved_end = 0;
  multiboot_reserved_start = h.location;
  multiboot_reserved_end = add32 h.location (88 * 88);
  kernel_heap_start = 0;
  kernel_heap_curpos = 0;
  mem_lower = h.mem_lower;
  mem_upper = h.mem_upper;
  highest_free_address = 0;
}

-- With the sections read, the highest address and the start of the early heap.
unfoldable pub known : (ℕ → ElfSection) → MultibootInfo → MemInfo
known section_at h =
    let m = sections_read section_at (copied h) in
    let heap = bit_and (add32 m.kernel_reserved_end 0x1000) 0xffff_f000 in
    record m {
      highest_free_address = mul32 m.mem_upper 1024;
      kernel_heap_start = heap;
      kernel_heap_curpos = heap;
    }

-- `words_at` is the words that the memory holds from an address on. The address of the bitset is
-- not tested. The position of the early heap is in `early` from then on.
unfoldable pub mem_init :
    (ℕ → MmapEntry) → (ℕ → ElfSection) → (ℕ → List ℕ) → MultibootInfo → Outcome Started
mem_init entry_at section_at words_at h =
    let m = known section_at h in
    let bitset_length = m.highest_free_address / 0x1000 in
    let bitset_size = mul32 (div_round_up bitset_length 32) 4 in
    let a =
      EarlyHeap.kmalloc bitset_size
        (record { start = m.kernel_heap_start; curpos = m.kernel_heap_curpos }) in
    if bit_and h.flags 64 == 0
    then abort
    else if bit_and h.flags 32 == 0
    then abort
    else (init_bitset entry_at m (init (words_at a.address) bitset_length) >>= λ b. ok (record {
      meminfo = m;
      early = a.heap;
      frames = record { bitset = b; highest_free_address = m.highest_free_address };
      kalloc = early_kalloc;
    }))

init_length : (ws : List ℕ) (len : ℕ) → (init ws len).length ≡ len
unfolding init
init_length ws len = refl

pub known_highest :
    (section_at : ℕ → ElfSection) (h : MultibootInfo)
    → h.mem_upper * 1024 < 2 ^ 32
    → (known section_at h).highest_free_address ≡ h.mem_upper * 1024
unfolding known sections_read copied
known_highest section_at h small = omega arith

known_map :
    (section_at : ℕ → ElfSection) (h : MultibootInfo)
    → ((known section_at h).mmap ≡ h.mmap_addr)
      × (map_end (known section_at h) ≡ add32 h.mmap_addr h.mmap_length)
unfolding known sections_read copied
known_map section_at h = (refl, refl)

-- The early heap behind the bitset.
abbrev pub early_after : (ℕ → ElfSection) → MultibootInfo → EarlyHeap
early_after section_at h =
    let m = known section_at h in
    (EarlyHeap.kmalloc (mul32 (div_round_up (m.highest_free_address / 0x1000) 32) 4)
      (record { start = m.kernel_heap_start; curpos = m.kernel_heap_curpos })).heap

-- Where the early heap places the bitset.
abbrev pub bitset_address : (ℕ → ElfSection) → MultibootInfo → ℕ
bitset_address section_at h =
    let m = known section_at h in
    (EarlyHeap.kmalloc (mul32 (div_round_up (m.highest_free_address / 0x1000) 32) 4)
      (record { start = m.kernel_heap_start; curpos = m.kernel_heap_curpos })).address

-- `i386_mem_init`, where the boot loader passed a memory map and section headers, the entries of the
-- map stay in the address space, memory has a page at least and ends a page below its end, and the
-- bitset lies in words of 32 bits that cover it: it returns, with a valid bitset that has a bit for
-- each page of memory. The bits of the frames that are reserved and end below the highest address
-- are set, and no other. `meminfo` is what was read, and the early heap is that behind the bitset.
pub mem_init_lem :
    (entry_at : ℕ → MmapEntry) (section_at : ℕ → ElfSection) (words_at : ℕ → List ℕ)
    (h : MultibootInfo)
    → bit_and h.flags 64 ≢ 0
    → bit_and h.flags 32 ≢ 0
    → NoWrap entry_at h.mmap_addr (add32 h.mmap_addr h.mmap_length)
    → 4 ≤ h.mem_upper
    → h.mem_upper * 1024 + page_size < 2 ^ 32
    → h.mem_upper ≤ 128 * length (words_at (bitset_address section_at h))
    → ((n : ℕ) → get_or (words_at (bitset_address section_at h)) n 0 < 2 ^ 32)
    → (t : Started) × (mem_init entry_at section_at words_at h ≡ ok t)
      × Laws.IsValid t.frames.bitset
      × (t.frames.bitset.length ≡ h.mem_upper / 4)
      × ((j : ℕ) → ToMark entry_at t.meminfo j → member t.frames.bitset j ≡ 1)
      × ((j : ℕ)
          → j < h.mem_upper / 4
          → ¬ ToMark entry_at t.meminfo j
          → member t.frames.bitset j ≡ 0)
      × (t.meminfo ≡ known section_at h)
      × (t.early ≡ early_after section_at h)
unfolding mem_init
mem_init_lem entry_at section_at words_at h map elf no_wrap some_page top covers words =
    let m = known section_at h in
    let highest = known_highest section_at h (omega arith) in
    let pages : m.highest_free_address / 0x1000 ≡ h.mem_upper / 4 = omega (arith, highest) in
    let ws = words_at (bitset_address section_at h) in
    let len = m.highest_free_address / 0x1000 in
    let empty = init ws len in
    let bits = init-IsValid ws len (omega (arith, pages)) words in
    let fits : NoWrap entry_at m.mmap (map_end m) = λ cur low high.
      no_wrap cur (omega (arith, low, (known_map section_at h).0))
        (omega (arith, high, (known_map section_at h).1)) in
    let (b, run, valid, same, marked, kept) =
      init_bitset_lem entry_at m fits (omega (arith, highest)) empty bits (init_length ws len) in
    let has_map : (bit_and h.flags 64 == 0) ≡ false = ground (arith, map) in
    let has_elf : (bit_and h.flags 32 == 0) ≡ false = ground (arith, elf) in
    (
      record {
        meminfo = m;
        early =
            (EarlyHeap.kmalloc (mul32 (div_round_up len 32) 4)
              (record { start = m.kernel_heap_start; curpos = m.kernel_heap_curpos })).heap;
        frames = record { bitset = b; highest_free_address = m.highest_free_address };
        kalloc = early_kalloc;
      },
      rw (has_map, has_elf, run) refl,
      valid,
      omega (arith, same, init_length ws len, pages),
      marked,
      λ j inside not_to.
          kept j not_to
          ∙ member-init ws len j (omega (arith, pages)) (omega (arith, highest))
              (omega (arith, pages)),
      refl,
      refl,
    )
