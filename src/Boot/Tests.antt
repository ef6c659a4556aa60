-- ===== src/Boot/Tests.antt =====
-- A machine with 2 MiB of memory and one entry in its map.
use shawn_os.Prelude.{
  ℕ, ◌≡◌, refl, arith, List, get_or, replicate, length-replicate, ok, zero, suc, false, [],
}
use shawn_os.MemoryMap.{MmapEntry, ElfSection, MultibootInfo}
use shawn_os.MemoryMap.Sections.{sections_read, highest_section}
use shawn_os.MemoryMap.Start.{known, copied}
use shawn_os.Asa.Alloc
use shawn_os.Mmu.Walk
use shawn_os.Mmu.Walk.{walk}
use shawn_os.Boot.{Booted, boot}
use shawn_os.Boot.Laws.{boot_lem}
use shawn_os.Boot.Early.{Addresses, Machine, Started, kernel_early}
use shawn_os.Boot.Early.Laws.{Ready, kernel_early-Ready}
use shawn_os.Pit.{no_routine}
use shawn_os.Pckbd.{ScancodeSet}

abbrev entries : ℕ → MmapEntry
entries p = record { size = 20; addr = 0; len = 0x20_0000; type = 1 }

abbrev sections : ℕ → ElfSection
sections p = record { sh_addr = 0x11_f000 }

abbrev header : MultibootInfo
header = record {
  location = 0x9000;
  flags = 0x60;
  mem_lower = 640;
  mem_upper = 2048;
  elf_num = 3;
  elf_addr = 0x8000;
  mmap_length = 24;
  mmap_addr = 0x7000;
}

-- Enough words for either bitset, wherever it is.
abbrev words : ℕ → List ℕ
words address = replicate 8192 0

words_zero : (n i : ℕ) → get_or {A = ℕ} (replicate n 0) i 0 ≡ 0
words_zero zero i = refl
words_zero (suc n) zero = refl
words_zero (suc n) (suc i) = words_zero n i

heap_start : (known sections header).kernel_heap_start ≡ 0x12_0000
unfolding known copied sections_read highest_section
heap_start = refl

boot_lem_example :
    (b : Booted) × (boot 0x10_2000 entries sections words (λ f i. 0) header (replicate 32 0) ≡ ok b)
    × Alloc.IsValid b.kasa
    × Walk.IsValid b.mmu
    × (walk b.mmu 0xb_8000 ≡ 0xb_8000)
boot_lem_example =
    boot_lem 0x10_2000 0xb_8000 entries sections words (λ f i. 0) header (replicate 32 0)
      (omega arith) (omega arith) (λ cur lo hi. omega arith) (omega arith) (omega arith)
      (omega (arith, heap_start)) (omega (arith, heap_start))
      (omega (arith, length-replicate {A = ℕ} 8192 0))
      (omega (arith, length-replicate {A = ℕ} 8192 0)) (λ a n. omega (arith, words_zero 8192 n))
      (λ f i. omega arith) (λ f i above. refl) (omega arith) refl

booting :
    (b : Booted) × (boot 0x10_2000 entries sections words (λ f i. 0) header (replicate 32 0) ≡ ok b)
    × Alloc.IsValid b.kasa
    × Walk.IsValid b.mmu
    × (walk b.mmu 0xb_8000 ≡ 0xb_8000)
booting =
    boot_lem 0x10_2000 0xb_8000 entries sections words (λ f i. 0) header (replicate 32 0)
      (omega arith) (omega arith) (λ cur lo hi. omega arith) (omega arith) (omega arith)
      (omega (arith, heap_start)) (omega (arith, heap_start))
      (omega (arith, length-replicate {A = ℕ} 8192 0))
      (omega (arith, length-replicate {A = ℕ} 8192 0)) (λ a n. omega (arith, words_zero 8192 n))
      (λ f i. omega arith) (λ f i above. refl) (omega arith) refl

abbrev addresses : Addresses
addresses = record {
  page_fault_handler = 0x10_2000;
  timer_handler = 0x10_3000;
  keyboard_handler = 0x10_4000;
  kernel_task = 0x10_5000;
  gdt = 0x11_0000;
  idt = 0x11_1000;
  isr_stubs = replicate 32 0x10_1000;
  irq_stubs = replicate 16 0x10_1800;
}

abbrev no_keys : ScancodeSet
no_keys = record { scancodes = []; len = 0 }

abbrev machine : Machine
machine = record {
  screen = record { row = 0; column = 0; color = 0; buffer = replicate 2000 0; ports = [] };
  low_memory = replicate 2000 0xf053;
  gdt_entries = [];
  isr_routines = replicate 32 0;
  irq_routines = replicate 16 0;
  pit = record { routines = replicate 64 no_routine; size = 0; total_ticks = 0 };
  pckbd = record {
    selected_driver = record {
      sc = no_keys;
      sc_shift = no_keys;
      shift = no_keys;
      sc_capslock = no_keys;
      sc_shift_capslock = no_keys;
      caps_sc = 0;
    };
    is_capslock = false;
    is_shift = false;
  };
}

kernel_early-Ready_example :
    (r : Started) × (kernel_early addresses entries sections words
        (λ f i. 0)
        0x2bad_b002
        header
        machine
      ≡ ok r)
    × Ready addresses machine booting.0 r
kernel_early-Ready_example =
    kernel_early-Ready addresses entries sections words (λ f i. 0) header machine booting.0
      booting.1 refl (omega arith) (omega arith) refl refl
