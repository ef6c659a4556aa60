-- ===== src/MemoryMap/Tests.antt =====
-- The theorems on the memory map at a machine with one map entry and 128 KiB of memory.
use shawn_os.Prelude.{ℕ, ◌+◌, ◌/◌, ◌<◌, ◌≡◌, refl, arith, [], ◌∷◌, ok}
use shawn_os.Kernel.{page_size}
use shawn_os.Bitset.{Bitset}
use shawn_os.Bitset.Laws
use shawn_os.Bitset.Laws.{fits_of_all, member}
use shawn_os.MemoryMap.{
  free, reserved, MmapEntry, ElfSection, MultibootInfo, MemInfo, check_reserved,
  mmap_check_reserved, mmap_loop, classify,
}
use shawn_os.MemoryMap.Walk.{Covered}
use shawn_os.MemoryMap.Reserved.{Apart, map_end, check_reserved-free}
use shawn_os.MemoryMap.Marked.{ToMark}
use shawn_os.MemoryMap.Start.{Started, known, early_after, mem_init, mem_init_lem}

abbrev entries : ℕ → MmapEntry
entries p = record { size = 20; addr = 0; len = 0x2_0000; type = 1 }

abbrev sections : ℕ → ElfSection
sections p = record { sh_addr = 0x5001 }

abbrev header : MultibootInfo
header = record {
  location = 0x9000;
  flags = 0x60;
  mem_lower = 0;
  mem_upper = 128;
  elf_num = 3;
  elf_addr = 0x8000;
  mmap_length = 24;
  mmap_addr = 0x7000;
}

abbrev info : MemInfo
info = record {
  mboot_header = header;
  mmap_length = 24;
  mmap = 0x7000;
  kernel_reserved_start = 0x2000;
  kernel_reserved_end = 0x5000;
  multiboot_reserved_start = 0x9000;
  multiboot_reserved_end = 0xae40;
  kernel_heap_start = 0x6000;
  kernel_heap_curpos = 0x6000;
  mem_lower = 0;
  mem_upper = 128;
  highest_free_address = 0x2_0000;
}

abbrev empty : Bitset
empty = record { length = 32; start = 0 ∷ [] }

empty-IsValid : Laws.IsValid empty
empty-IsValid = record {
  covered = omega arith;
  fits = λ n. fits_of_all (0 ∷ []) (omega arith) (n / 32);
}

free_page : check_reserved entries info 0xc000 ≡ ok free
unfolding check_reserved mmap_check_reserved mmap_loop classify
free_page = refl

kernel_page : check_reserved entries info 0x1000 ≡ ok reserved
unfolding check_reserved
kernel_page = refl

check_reserved-free_example :
    (0x1000 < 0xc000 + page_size)
    × Apart 0xc000 0x2000 0x5000
    × Apart 0xc000 0x9000 0xae40
    × Covered entries 0x7000 (map_end info) 0xc000
check_reserved-free_example =
    check_reserved-free entries info 0xc000 (omega arith) (omega arith) (omega arith) free_page

mem_init_lem_example :
    (t : Started) × (mem_init entries sections (λ address. 0 ∷ []) header ≡ ok t)
    × Laws.IsValid t.frames.bitset
    × (t.frames.bitset.length ≡ 32)
    × ((j : ℕ) → ToMark entries t.meminfo j → member t.frames.bitset j ≡ 1)
    × ((j : ℕ) → j < 32 → ¬ ToMark entries t.meminfo j → member t.frames.bitset j ≡ 0)
    × (t.meminfo ≡ known sections header)
    × (t.early ≡ early_after sections header)
mem_init_lem_example =
    mem_init_lem entries sections (λ address. 0 ∷ []) header (omega arith) (omega arith)
      (λ cur lo hi. omega arith) (omega arith) (omega arith) (omega arith)
      (λ n. fits_of_all (0 ∷ []) (omega arith) n)
