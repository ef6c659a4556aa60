-- ===== src/Mmu/Tests.antt =====
-- A directory in frame 2 with one table, in frame 3, that maps the window, page 5, and page 7.
use shawn_os.Prelude.{
  ℕ, ◌/◌, ◌≡◌, refl, arith, true, false, ◌&&◌, ◌==◌, if◌then◌else◌, [], ◌∷◌, ok, replicate, false,
}
use shawn_os.Bitset.{without_bit}
use shawn_os.Bitset.Laws
use shawn_os.Bitset.Laws.{fits_of_all}
use shawn_os.Frames.{Frames, allocate_frame, first_clear, next_free, get_next_free_frame}
use shawn_os.Mmu.{Mmu, window_table}
use shawn_os.Mmu.Pages.{page_get_phys, allocate_page, free_page}
use shawn_os.Mmu.Walk.{IsValid, walk, leaf}
use shawn_os.Mmu.Walk.Phys.{Moved, page_get_phys-walk}
use shawn_os.Mmu.Walk.Entry.{Changed}
use shawn_os.Mmu.Walk.Alloc.{allocate_page_lem, frames-IsValid}
use shawn_os.Bitset.{set_bit}
use shawn_os.Bits.{bit}
use shawn_os.Bitset.Laws.{member}
use shawn_os.Frames.Alloc
use shawn_os.EarlyHeap.Laws as Heap
use shawn_os.MemoryMap.{MemInfo}
use shawn_os.Isr.{isr_install_handler}
use shawn_os.Mmu.Init.{KpagingData, i386_paging_init}
use shawn_os.Mmu.Init.Done.{paging_init_lem}
use shawn_os.Mmu.Walk.RoundTrip.{free_page-allocate_page}
use shawn_os.Mmu.Walk.Errors.{free_page-free_page}

abbrev tables : ℕ → ℕ → ℕ
tables f i =
    if f == 2 && i == 0
    then 0x3003
    else if f == 3 && i == 5
    then 0x5003
    else if f == 3 && i == 7
    then 0x9003
    else 2

abbrev frames : ℕ → Frames
frames w = record {
  bitset = record { length = 64; start = w ∷ 0 ∷ [] };
  highest_free_address = 0x4_0000;
}

abbrev mapped : Mmu
mapped = record {
  memory = tables;
  frames = frames 0xffff_feff;
  early = record { start = 0x1_0000; curpos = 0x1_8000 };
  page_directory = 0x2000;
  window_page = 0x5000;
  early_init_done = true;
}

mapped-IsValid : IsValid mapped
unfolding window_table
mapped-IsValid = record {
  ready = record {
    done = refl;
    aligned = refl;
    small = omega arith;
    apart = omega arith;
    own_table = omega arith;
    words = λ f i. ground arith;
  };
  window_present = refl;
  off_dir = λ i p. ground arith;
  separate = λ i j ne pi pj. ground arith;
}

takes_frame_eight : allocate_frame (frames 0xffff_feff) ≡ ok (8, frames 0xffff_ffff)
unfolding allocate_frame get_next_free_frame next_free first_clear set_bit
takes_frame_eight = refl

bits-IsValid : Laws.IsValid (frames 0xffff_feff).bitset
bits-IsValid = record {
  covered = omega arith;
  fits = λ n. fits_of_all (0xffff_feff ∷ 0 ∷ []) (omega arith) (n / 32);
}

page_get_phys-walk_example :
    (s : Mmu) × (page_get_phys 0x2000 0x7000 mapped ≡ ok (0x9000, s)) × Moved mapped s
unfolding walk leaf
page_get_phys-walk_example = page_get_phys-walk mapped 0x7000 mapped-IsValid (omega arith)

allocate_page_lem_example :
    (s : Mmu) × (allocate_page 0x2000 0x6000 3 3 mapped ≡ ok (0, 0x8000, s))
    × Changed mapped s 0x6000 0x8003
    × (walk s 0x6000 ≡ 0x8000)
    × (s.frames ≡ frames 0xffff_ffff)
allocate_page_lem_example =
    allocate_page_lem mapped 0x6000 3 3 8 (frames 0xffff_ffff) mapped-IsValid refl refl
      (omega arith) refl takes_frame_eight (omega arith) (omega arith)

free_page-free_page_example :
    (t : Mmu) × (u : Mmu) × (free_page 0x2000 0x7000 mapped ≡ ok (0, t))
    × (free_page t.page_directory 0x7000 t ≡ ok (0, u))
    × (u.frames.bitset ≡ without_bit (without_bit (frames 0xffff_feff).bitset 9) 0)
free_page-free_page_example =
    free_page-free_page mapped 0x7000 mapped-IsValid refl refl (omega arith) bits-IsValid
      (omega arith)

mapped_frames-IsValid : Alloc.IsValid (frames 0xffff_feff)
unfolding member bit
mapped_frames-IsValid = record { bits = bits-IsValid; sized = refl; zero_taken = refl }

free_page-allocate_page_example :
    (t : Mmu) × (u : Mmu) × (allocate_page 0x2000 0x6000 3 3 mapped ≡ ok (0, 0x8000, t))
    × (free_page t.page_directory 0x6000 t ≡ ok (0, u))
    × (walk u 0x6000 ≡ 0)
    × ((m : ℕ) → member u.frames.bitset m ≡ member (frames 0xffff_feff).bitset m)
free_page-allocate_page_example =
    free_page-allocate_page mapped 0x6000 3 3 8 (frames 0xffff_ffff) mapped-IsValid
      mapped_frames-IsValid refl refl (omega arith) (omega arith) refl takes_frame_eight
      (omega arith) (omega arith)

abbrev no_frames : Frames
no_frames = record {
  bitset = record { length = 64; start = 0xffff_ffff ∷ 0xffff_ffff ∷ [] };
  highest_free_address = 0x4_0000;
}

abbrev used_up : Mmu
used_up = record mapped { frames = no_frames }

used_up-IsValid : IsValid used_up
used_up-IsValid = frames-IsValid mapped no_frames mapped-IsValid

none_left : allocate_frame no_frames ≡ ok (0, no_frames)
unfolding allocate_frame get_next_free_frame next_free first_clear
none_left = refl

abbrev before_paging : Mmu
before_paging = record {
  memory = λ f i. 0;
  frames = record {
    bitset = record { length = 512; start = replicate 16 0 };
    highest_free_address = 0x20_0000;
  };
  early = record { start = 0x12_0000; curpos = 0x12_2000 };
  page_directory = 0;
  window_page = 0;
  early_init_done = false;
}

abbrev boot_info : MemInfo
boot_info = record {
  mboot_header = record {
    location = 0x8000;
    flags = 0x60;
    mem_lower = 640;
    mem_upper = 2048;
    elf_num = 0;
    elf_addr = 0;
    mmap_length = 0;
    mmap_addr = 0;
  };
  mmap_length = 0;
  mmap = 0;
  kernel_reserved_start = 0x10_0000;
  kernel_reserved_end = 0x11_f000;
  multiboot_reserved_start = 0x8000;
  multiboot_reserved_end = 0x9000;
  kernel_heap_start = 0x12_0000;
  kernel_heap_curpos = 0x12_2000;
  mem_lower = 640;
  mem_upper = 2048;
  highest_free_address = 0x20_0000;
}

early-IsValid : Heap.IsValid before_paging.early
early-IsValid = record {
  above_zero = omega arith;
  below = omega arith;
  above = omega arith;
  room = omega arith;
}

empty_bits-IsValid : Laws.IsValid before_paging.frames.bitset
empty_bits-IsValid = record {
  covered = omega arith;
  fits = λ n. fits_of_all (replicate 16 0) (omega arith) (n / 32);
}

paging_init_lem_example :
    (info : KpagingData) × (t : Mmu) × (i386_paging_init 0x10_2000 boot_info
        (replicate 32 0)
        before_paging
      ≡ ok (info, isr_install_handler 14 0x10_2000 (replicate 32 0), t))
    × IsValid t
    × (walk t 0xb_8000 ≡ 0xb_8000)
    × (member t.frames.bitset (0xb_8000 / 4096) ≡ 1)
    × (info.highest_page ≡ 0x17_0000)
paging_init_lem_example =
    paging_init_lem 0x10_2000 0xb_8000 boot_info (replicate 32 0) before_paging refl early-IsValid
      (omega arith) (omega arith) empty_bits-IsValid (omega arith) (λ f i. omega arith)
      (λ f i above. refl) (omega arith) refl
