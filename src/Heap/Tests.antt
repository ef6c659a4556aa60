-- ===== src/Heap/Tests.antt =====
-- The theorems on the heap at a block of 40 sections, four of them its header.
mod Growth
mod Apart
mod Machine
use shawn_os.Prelude.{
  ℕ, ◌/◌, ◌%◌, ◌<◌, ◌≡◌, refl, arith, [], ◌∷◌, replicate, get_or-replicate, ok, zero, suc,
}
use shawn_os.Bits.{bit, zero-bit}
use shawn_os.Kernel.{sub32}
use shawn_os.Bitset.{Bitset}
use shawn_os.Bitset.Laws
use shawn_os.Bitset.Laws.{fits_of_all, member}
use shawn_os.Asa.Scan.{RunAt}
use shawn_os.Heap.{Block}
use shawn_os.Heap.Sections.{search, mark_used, try_block, take_sections, release}
use shawn_os.Heap.Sections.Mark.{Marked, mark_used-Marked}
use shawn_os.Heap.Sections.Search.{Searchable, Searched, search-Searched}
use shawn_os.Heap.Sections.Take.{IsValid, Taken, Tried, try_block-Tried, take_sections-Taken}
use shawn_os.Heap.Sections.Release.{Held}
use native.Mathlib.Decide.{dec_lt}
use native.Mathlib.Nat.{mul-div_cancel}
use shawn_os.Prelude.{
  ◌+◌, ◌*◌, ◌^◌, ◌&&◌, List, length, length-replicate, get_or, get_or-replicate_below,
  get_or-outside, ltb, sym, ap, ◌∙◌, ◌-◌, ◌==◌, if◌then◌else◌, none, some, Bool-cases, inl, inr,
}
use shawn_os.Kernel.{u32, div_round_up}
use shawn_os.Paging.{PagingInterface, kpage_allocate, kpage_free}
use shawn_os.Asa.{Kasa}
use shawn_os.Heap.{
  Heap, kheap_init, kheap_add_block, section_size_default, min_block_size_default,
  kheap_auto_expand,
}
use shawn_os.Heap.Malloc.{try_blocks, pages_for, kheap_expand, kheap_malloc, kheap_free}
use shawn_os.Heap.Build.{IsMemory, Built, kheap_add_block-Built}
use shawn_os.Heap.Pages.{pages_needed, bitset_of, pages_for_lem}
use shawn_os.Heap.Mapping.{PagingLaws}
use shawn_os.Heap.Expand.{IsSpace, Expansion, kheap_expand-Expansion}
use shawn_os.Heap.Blocks.{InHeap, Taken-InHeap, IsHeap, Walked, try_blocks-Walked}
use shawn_os.Heap.Sound.{Sound}
use shawn_os.Heap.Allocate.{kheap_malloc-Allotted}
use shawn_os.Heap.Free.{Freed, kheap_free-Freed}
use shawn_os.Heap.Starve.{Refused, kheap_malloc-Refused}

abbrev forty : ℕ → Bitset
forty w = record { length = 40; start = w ∷ 0 ∷ [] }

forty-IsValid : (w : ℕ) → w < 0x1_0000_0000 → Laws.IsValid (forty w)
forty-IsValid w h = record {
  covered = omega arith;
  fits = λ n. fits_of_all (w ∷ 0 ∷ []) (omega arith) (n / 32);
}

abbrev no_delimiters : Bitset
no_delimiters = record { length = 40; start = replicate 2 0 }

abbrev block : Block
block = record {
  block_size = 640;
  section_size = 16;
  first_free_section = 4;
  free_sections = 36;
  start = 0x1000;
  used_sections = forty 0xf;
  delimiters = no_delimiters;
}

no_delimiter : (m : ℕ) → member no_delimiters m ≡ 0
unfolding member
no_delimiter m = rw (get_or-replicate {A = ℕ} 2 (m / 32) 0) (zero-bit (m % 32))

block-Searchable : Searchable block
block-Searchable = record {
  used_valid = forty-IsValid 0xf (omega arith);
  some_sections = omega arith;
  few_sections = omega arith;
  starts_in = omega arith;
}

block-IsValid : IsValid block
block-IsValid = record {
  searchable = block-Searchable;
  delimiters_valid = forty-IsValid 0 (omega arith);
  same_length = refl;
  delimits_used = λ m e. no_delimiter m;
  counted = omega arith;
}

free_run : RunAt (forty 0xf) 3 4
unfolding member bit
free_run zero lo hi = absurd (omega arith)
free_run (suc zero) lo hi = absurd (omega arith)
free_run (suc (suc zero)) lo hi = absurd (omega arith)
free_run (suc (suc (suc zero))) lo hi = absurd (omega arith)
free_run (suc (suc (suc (suc zero)))) lo hi = refl
free_run (suc (suc (suc (suc (suc zero))))) lo hi = refl
free_run (suc (suc (suc (suc (suc (suc zero)))))) lo hi = refl
free_run (suc (suc (suc (suc (suc (suc (suc n))))))) lo hi = absurd (omega arith)

header_used : member (forty 0xf) 0 ≡ 1
unfolding member bit
header_used = refl

taking : (b' : Block) × (take_sections block 4 3 ≡ ok b') × Taken block 3 4 b'
taking =
    take_sections-Taken block 4 3 block-IsValid (omega arith) (omega arith) (omega arith) free_run

at_section : sub32 0x1040 taking.0.start / taking.0.section_size ≡ 4
at_section = rw (taking.2.same_start, taking.2.same_section_size) refl

block-InHeap : InHeap block
block-InHeap = record {
  valid = block-IsValid;
  header = header_used;
  section = refl;
  at_page = refl;
  whole = refl;
  in_memory = omega arith;
}

-- A second allocation behind the first.
seven_free : (j : ℕ) → j < 3 → member (forty 0xf) (7 + j) ≡ 0
unfolding member bit
seven_free zero h = refl
seven_free (suc zero) h = refl
seven_free (suc (suc zero)) h = refl
seven_free (suc (suc (suc n))) h = absurd (omega arith)

next_run : RunAt taking.0.used_sections 3 7
next_run i lo hi =
    let at : 7 + (i - 7) ≡ i = omega arith in
    let free = ap (member (forty 0xf)) (sym at) ∙ seven_free (i - 7) (omega arith) in
    ground (arith, taking.2.used i, free)

again : (b' : Block) × (take_sections taking.0 7 3 ≡ ok b') × Taken taking.0 3 7 b'
again =
    take_sections-Taken taking.0 7 3 taking.2.valid (omega arith) (omega (arith, taking.2.fewer))
      (omega (arith, taking.2.same_sections)) next_run

first-Held : Held again.0 3 4
first-Held = record {
  some_sections = omega arith;
  inside = omega (arith, again.2.same_sections, taking.2.same_sections);
  not_first = omega arith;
  used = λ m lo hi. ground (arith, again.2.used m, taking.2.used m);
  undelimited =
      λ m lo hi. ground (arith, again.2.delimited m, taking.2.delimited m, no_delimiter m);
  delimited = ground (arith, again.2.delimited 6, taking.2.delimited 6);
  counted =
      omega (arith, again.2.fewer, taking.2.fewer, again.2.same_sections, taking.2.same_sections);
}

abbrev one_block : Heap
one_block = record {
  blocks = again.0 ∷ [];
  default_section_size = section_size_default;
  min_block_size = min_block_size_default;
  flags = 0;
  effective_size = 0;
  total_free_sections = u32 (again.0.free_sections + 0);
}

one_block-IsHeap : IsHeap one_block
one_block-IsHeap = record {
  section = refl;
  blocks_in = (
    Taken-InHeap taking.0 again.0 3 7 (Taken-InHeap block taking.0 3 4 block-InHeap taking.2)
        again.2,
    tt,
  );
  disjoint = (tt, tt);
  counted = refl;
}

-- The sections 4 to 7 and then 7 to 10 are allocated, and an address in section 5 is freed.
kheap_free-Freed_example :
    (heap' : Heap) × (d : Block) × Freed one_block again.0 [] [] 3 4 5
      (kheap_free one_block 0x1050)
      heap'
      d
kheap_free-Freed_example =
    kheap_free-Freed one_block [] [] again.0 3 4 5 0x1050 one_block-IsHeap refl first-Held
      (omega arith) (omega arith) (omega (arith, again.2.same_start, taking.2.same_start))
      (omega (arith, again.2.same_start, taking.2.same_start))
