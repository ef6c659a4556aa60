-- ===== src/Heap/Free.antt =====
-- `kheap_free` of kernel/mm/heap.c on a whole heap.
use shawn_os.Prelude.{
  ℕ, ◌+◌, ◌-◌, ◌*◌, ◌/◌, ◌%◌, ◌≤◌, ◌<◌, ◌≡◌, refl, arith, Bool, true, false, ltb, leb, ◌&&◌, ◌==◌,
  if◌then◌else◌, List, [], ◌∷◌, ◌++◌, All, ap, ◌∙◌, Option, none, some, Outcome, ok, ◌>>=◌,
}
use mathlib.Core.Path.{subst}
use shawn_os.Kernel.{add32, sub32}
use shawn_os.Bitset.Laws.{member}
use shawn_os.Heap.{Block, Heap}
use shawn_os.Heap.Sections.{release}
use shawn_os.Heap.Sections.Release.{Held, release-GivenBack}
use shawn_os.Heap.Malloc.{free_blocks, kheap_free}
use shawn_os.Heap.Blocks.{InHeap, InHeap-at, IsHeap, extents, Apart-at, swap-IsHeap, Disjoint}

module _ (c : Block) (after : List Block) (addr : ℕ) (lo : c.start < addr)
    (hi : addr < c.start + c.block_size) where
  -- The walk passes the blocks in front and releases in `c`.
  free_blocks_lem :
      (before : List Block) (count : ℕ) (d : Block)
      → All InHeap (before ++ c ∷ after)
      → Disjoint (extents (before ++ c ∷ after))
      → release c addr ≡ ok (count, d)
      → free_blocks addr (before ++ c ∷ after) ≡ ok (some (count, before ++ d ∷ after))
  unfolding free_blocks
  free_blocks_lem [] count d (h, all) apart e =
      let here : (ltb c.start addr && ltb addr (add32 c.start c.block_size)) ≡ true =
        ground (arith, h.in_memory) in
      rw (here, e) refl
  free_blocks_lem (b ∷ before) count d (h, all) (far, apart) e =
      let not_here : (ltb b.start addr && ltb addr (add32 b.start b.block_size)) ≡ false =
        ground (arith, h.in_memory, Apart-at (b.start, b.block_size) before after c far addr) in
      rw (not_here, free_blocks_lem before count d all apart e) refl

-- The heap after a release: the block `d` stands where `c` stood, with the sections from `g` up to
-- `f + n` free.
pub record Freed (heap : Heap) (c : Block) (before after : List Block) (n f g : ℕ)
    (r : Outcome (Bool × Heap)) (heap' : Heap) (d : Block) : Type 0 where
  pub returns : r ≡ ok (true, heap')
  pub in_place : heap'.blocks ≡ before ++ d ∷ after
  pub used :
      (m : ℕ)
      → member d.used_sections m
        ≡ (if leb g m && ltb m (f + n) then 0 else member c.used_sections m)
  pub delimited :
      (m : ℕ) → member d.delimiters m ≡ (if f + n - 1 == m then 0 else member c.delimiters m)
  pub counted : d.free_sections ≡ c.free_sections + (f + n - g)
  pub is_heap : IsHeap heap'

-- `kheap_free` on a sound heap, at an address in section `g` of any allocation of one of its blocks,
-- of the sections `f` to `f + n`: these are used, the last of them is the first with a delimiter,
-- the header is not among them, and the block does not count them as free. The call finds that
-- block and returns true. The sections from `g` to the end of the allocation are free again and
-- counted, its delimiter is gone, all other sections, delimiters and blocks are as they were, and
-- the heap stays sound. The sections from `f` up to `g` stay used: an address that was moved up
-- for its alignment into a later section does not give them back.
pub kheap_free-Freed :
    (heap : Heap) (before after : List Block) (c : Block) (n f g addr : ℕ)
    → IsHeap heap
    → heap.blocks ≡ before ++ c ∷ after
    → Held c n f
    → f ≤ g
    → g < f + n
    → c.start + 16 * g ≤ addr
    → addr < c.start + 16 * (g + 1)
    → (heap' : Heap) × (d : Block) × Freed heap c before after n f g (kheap_free heap addr) heap' d
unfolding kheap_free
kheap_free-Freed heap before after c n f g addr v at t from below lo hi =
    let (d, back) = release-GivenBack c n f g h.valid t from below addr in_section in
    let walk =
      free_blocks_lem c after addr (omega (arith, t.not_first)) (omega (arith, h.whole, t.inside))
        before (f + n - g) d (subst (All InHeap) at v.blocks_in)
        (subst (λ bs. Disjoint (extents bs)) at v.disjoint) back.returns in
    (
      record heap {
        blocks = before ++ d ∷ after;
        total_free_sections = add32 heap.total_free_sections (f + n - g);
      },
      d,
      record {
        returns = ap (λ r. r >>= gives heap) (ap (free_blocks addr) at ∙ walk);
        in_place = refl;
        used = back.used;
        delimited = back.delimited;
        counted = back.counted;
        is_heap =
            swap-IsHeap c d after heap before (add32 heap.total_free_sections (f + n - g)) at
              (record {
                valid = back.valid;
                header = ground (arith, back.used 0, h.header, t.not_first);
                section = back.same_section_size ∙ h.section;
                at_page = ap (λ (s : ℕ). s % 4096) back.same_start ∙ h.at_page;
                whole = omega (arith, back.same_block_size, back.same_sections, h.whole);
                in_memory = omega (arith, back.same_start, back.same_block_size, h.in_memory);
              })
              back.same_start back.same_block_size (λ others e. omega (arith, e, back.counted)) v;
      },
    )
  where
    gives : Heap → Option (ℕ × List Block) → Outcome (Bool × Heap)
    gives heap r = elim r [
      | none ↦ ok (false, heap)
      | some (count, blocks) ↦ ok (
        true,
        record heap { blocks = blocks; total_free_sections = add32 heap.total_free_sections count },
      )
    ]

    h : InHeap c
    h = InHeap-at before after c (subst (All InHeap) at v.blocks_in)

    in_section : sub32 addr c.start / c.section_size ≡ g
    in_section = rw h.section (omega (arith, h.in_memory, h.whole, t.inside))
