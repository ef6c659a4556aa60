-- ===== src/Heap/Tests/Growth.antt =====
-- The theorems on a growing heap: it is empty at first, in an address space of 1024 pages.
use shawn_os.Prelude.{ℕ, ◌/◌, ◌<◌, ◌≡◌, refl, arith, [], ◌∷◌, replicate, ok}
use shawn_os.Bits.{bit}
use shawn_os.Bitset.Laws.{fits_of_all, member}
use shawn_os.Heap.{Block}
use native.Mathlib.Decide.{dec_lt, ℕ_discrete}
use shawn_os.Prelude.{
  ◌+◌, ◌^◌, List, length-replicate, get_or, get_or-replicate_below, get_or-outside, ap,
}
use shawn_os.Kernel.{div_round_up}
use shawn_os.Mmu.Pages.{i386_paging_interface}
use shawn_os.Asa.{Kasa}
use shawn_os.Heap.{
  Heap, kheap_init, kheap_add_block, section_size_default, min_block_size_default,
  kheap_auto_expand,
}
use shawn_os.Heap.Malloc.{pages_for, kheap_malloc}
use shawn_os.Heap.Build.{IsMemory, Built, kheap_add_block-Built}
use shawn_os.Heap.Pages.{pages_needed, bitset_of, pages_for_lem}
use shawn_os.Heap.Tests.Machine.{machine, machine-IsReady, laws, nothing_mapped}
use shawn_os.Heap.Expand.{IsSpace}
use shawn_os.Heap.Sound.{Sound}
use shawn_os.Heap.Allocate.{kheap_malloc-Allotted}
use shawn_os.Heap.Allotted.{Allotted}
use shawn_os.Kalloc.{kmalloc}
use shawn_os.Heap.Kalloc.{Kmalloced, kheap_kalloc_install, kmalloc_lem}
use shawn_os.Heap.Starve.{Refused, kheap_malloc-Refused}

abbrev pub sevens : ℕ → ℕ → List ℕ
sevens a n = replicate n 7

pub sevens-IsMemory : IsMemory sevens
sevens-IsMemory = record {
  words = λ a n. length-replicate {A = ℕ} n 7;
  fits = λ a n i. get_or-replicate_fits n i;
}
  where
    get_or-replicate_fits : (n i : ℕ) → get_or (replicate n 7) i 0 < 2 ^ 32
    get_or-replicate_fits n i = elim (dec_lt i n) [
      | yes h ↦ rw (get_or-replicate_below {A = ℕ} n i 7 0 h) (omega arith)
      | no h ↦
          rw
            (get_or-outside {A = ℕ} (replicate n 7) i 0
              (omega (arith, length-replicate {A = ℕ} n 7)))
            (omega arith)
    ]

abbrev no_heap : Heap
no_heap = record {
  blocks = [];
  default_section_size = section_size_default;
  min_block_size = min_block_size_default;
  flags = kheap_auto_expand;
  effective_size = 0;
  total_free_sections = 0;
}

no_heap_at_start :
    kheap_init section_size_default min_block_size_default kheap_auto_expand ≡ no_heap
unfolding kheap_init
no_heap_at_start = refl

-- 1024 pages, the first of them taken.
abbrev space : Kasa
space = record { pages = record { length = 1024; start = 1 ∷ replicate 31 0 }; page_size = 4096 }

null_taken : member space.pages 0 ≡ 1
unfolding member bit
null_taken = refl

space-IsSpace : IsSpace i386_paging_interface laws space machine
unfolding member bit
space-IsSpace = record {
  valid = record {
    pages_valid = record {
      covered = omega arith;
      fits = λ n. fits_of_all (1 ∷ replicate 31 0) (omega arith) (n / 32);
    };
    addressed = omega arith;
  };
  page_bytes = refl;
  null_taken = refl;
  ready = machine-IsReady;
  free_served = λ h b e. elim (ℕ_discrete h 0) [
    | yes z ↦ absurd (omega (arith, e, ap (member space.pages) z, null_taken))
    | no nz ↦ ground (arith, b, nz)
  ];
  free_unmapped = λ h e. nothing_mapped h;
}

no_heap-Sound : Sound i386_paging_interface laws no_heap space machine
no_heap-Sound = record {
  is_heap = record { section = refl; blocks_in = tt; disjoint = tt; counted = refl };
  space = space-IsSpace;
  owned = tt;
}

kheap_add_block-Built_example :
    (b : Block) × (heap' : Heap) × (kheap_add_block sevens no_heap 0x10000 0x2000 16 ≡ ok heap')
    × Built no_heap 0x10000 0x2000 b heap'
kheap_add_block-Built_example =
    kheap_add_block-Built sevens sevens-IsMemory 0x10000 0x2000 (omega arith) (omega arith)
      (omega arith) no_heap refl refl

-- For 262100 bytes the loop stops at 65 pages, which hold 262032 bytes beside their own sections.
pages_for_lem_example :
    pages_for
      (div_round_up 262100 4096 + 2)
      4096
      262100
      (div_round_up 262100 4096)
      (bitset_of (div_round_up 262100 4096))
    ≡ ok (pages_needed 262100)
pages_for_lem_example = pages_for_lem 262100 (omega arith) (omega arith)

kheap_malloc-Allotted_example :
    Allotted i386_paging_interface laws sevens 100 4096 no_heap space machine
      (kheap_malloc i386_paging_interface 4096 sevens 2 100 4096 no_heap space machine)
kheap_malloc-Allotted_example =
    kheap_malloc-Allotted i386_paging_interface laws sevens sevens-IsMemory 100 4096 (omega arith)
      (omega arith) 0 no_heap space machine no_heap-Sound (omega arith) (omega arith)

-- A request of 1052376 bytes.
kheap_malloc-Refused_example :
    Refused (kheap_malloc i386_paging_interface 4096 sevens 1025 1052376 0 no_heap space machine)
kheap_malloc-Refused_example =
    kheap_malloc-Refused i386_paging_interface laws sevens sevens-IsMemory 1052376 (omega arith)
      (omega arith) (omega arith) 1025 no_heap space machine no_heap-Sound (omega arith) tt
      (omega arith)

-- `kmalloc(100, KALLOC_PAGE_ALIGN)` as the first call.
kmalloc_lem_example :
    Kmalloced i386_paging_interface laws sevens 100 4096
      (record { heap = no_heap; asa = space; paging = machine })
      (kmalloc
        (kheap_kalloc_install i386_paging_interface 4096 sevens 2).1
        100
        4
        (record { heap = no_heap; asa = space; paging = machine }))
kmalloc_lem_example =
    kmalloc_lem i386_paging_interface laws sevens sevens-IsMemory 0 100 4
      (record { heap = no_heap; asa = space; paging = machine }) (omega arith) (omega arith)
      no_heap-Sound (omega arith) (omega arith)
