-- ===== src/Heap/Tests/Apart.antt =====
-- Two calls of `kheap_malloc` on a heap with one block of 40 sections.
use shawn_os.Prelude.{
  ℕ, ◌+◌, ◌-◌, ◌/◌, ◌≤◌, ◌<◌, ◌≡◌, refl, ap, arith, [], ◌∷◌, replicate, some, ok, ◌⊎◌,
}
use shawn_os.Bits.{bit}
use shawn_os.Bitset.{test_bit, set_bit}
use shawn_os.Bitset.Laws.{fits_of_all, member}
use shawn_os.Asa.{Kasa}
use shawn_os.Heap.{Block, Heap, section_size_default, min_block_size_default}
use shawn_os.Heap.Sections.{search, mark_used, take_sections, try_block}
use shawn_os.Heap.Malloc.{Malloced, try_blocks, place, malloc_loop, kheap_malloc}
use shawn_os.Heap.Sound.{Sound}
use shawn_os.Heap.Apart.{kheap_malloc_disjoint}
use shawn_os.Heap.Tests.{forty, block, block-InHeap}
use native.Mathlib.Decide.{ℕ_discrete}
use shawn_os.Mmu.{Mmu}
use shawn_os.Mmu.Pages.{i386_paging_interface}
use shawn_os.Heap.Tests.Machine.{machine, machine-IsReady, laws, nothing_mapped}
use shawn_os.Heap.Tests.Growth.{sevens, sevens-IsMemory}

abbrev heap_of : Block → ℕ → Heap
heap_of b total = record {
  blocks = b ∷ [];
  default_section_size = section_size_default;
  min_block_size = min_block_size_default;
  flags = 0;
  effective_size = 0;
  total_free_sections = total;
}

-- Pages 0 and 1 are taken.
abbrev space : Kasa
space = record { pages = record { length = 1024; start = 3 ∷ replicate 31 0 }; page_size = 4096 }

page_taken : (x : ℕ) → 0x1000 ≤ x → x < 0x1000 + 640 → member space.pages (x / 4096) ≡ 1
unfolding member bit
page_taken x lo hi = let e : x / 4096 ≡ 1 = omega arith in rw e refl

null_taken : member space.pages 0 ≡ 1
unfolding member bit
null_taken = refl

block-Sound : Sound i386_paging_interface laws (heap_of block 36) space machine
unfolding member bit
block-Sound = record {
  is_heap = record {
    section = refl;
    blocks_in = (block-InHeap, tt);
    disjoint = (tt, tt);
    counted = refl;
  };
  space = record {
    valid = record {
      pages_valid = record {
        covered = omega arith;
        fits = λ n. fits_of_all (3 ∷ replicate 31 0) (omega arith) (n / 32);
      };
      addressed = omega arith;
    };
    page_bytes = refl;
    null_taken = refl;
    ready = machine-IsReady;
    free_served = λ h b e. elim (ℕ_discrete h 0) [
      | yes z ↦ absurd (omega (arith, e, ap (member space.pages) z, null_taken))
      | no nz ↦ ground (arith, b, nz)
    ];
    free_unmapped = λ h e. nothing_mapped h;
  };
  owned = (page_taken, tt);
}

abbrev answer : ℕ → ℕ → ℕ → ℕ → Malloced Mmu
answer out used delimiters next = record {
  code = 0;
  out = some out;
  heap =
      heap_of
        (record block {
          used_sections = forty used;
          delimiters = forty delimiters;
          first_free_section = next;
          free_sections = 40 - next;
        })
        (40 - next);
  asa = space;
  paging = machine;
}

first_call :
    kheap_malloc i386_paging_interface 4096 sevens 2 40 0 (heap_of block 36) space machine
    ≡ ok (answer 0x1040 0x7f 0x40 7)
unfolding kheap_malloc malloc_loop try_blocks try_block search take_sections mark_used test_bit
    set_bit place
first_call = refl

second_call :
    kheap_malloc i386_paging_interface 4096 sevens 2 32 0
      (answer 0x1040 0x7f 0x40 7).heap
      space
      machine
    ≡ ok (answer 0x1070 0x1ff 0x140 9)
unfolding kheap_malloc malloc_loop try_blocks try_block search take_sections mark_used test_bit
    set_bit place
second_call = refl

kheap_malloc_disjoint_example : (0x1040 + 40 ≤ 0x1070) ⊎ (0x1070 + 32 ≤ 0x1040)
kheap_malloc_disjoint_example =
    kheap_malloc_disjoint i386_paging_interface laws sevens sevens-IsMemory 40 0 32 0 0 0
      (heap_of block 36) space machine (answer 0x1040 0x7f 0x40 7) (answer 0x1070 0x1ff 0x140 9)
      0x1040 0x1070 (omega arith) (omega arith) (omega arith) (omega arith) block-Sound
      (omega arith) (omega arith) (omega arith) (omega arith) first_call refl second_call refl
