-- ===== src/Heap/Blocks.antt =====
-- The kernel heap as a whole: its blocks, and the walk of `kheap_malloc` over them.
use shawn_os.Prelude.{
  ℕ, ◌+◌, ◌-◌, ◌*◌, ◌%◌, ◌^◌, ◌≤◌, ◌<◌, ◌≡◌, refl, arith, List, [], ◌∷◌, ◌++◌, map, Option, none,
  some, Outcome, ok, ap, ◌∙◌, ◌>>=◌, All, sym,
}
use mathlib.Core.Path.{subst}
use shawn_os.Kernel.{u32}
use shawn_os.Bitset.Laws.{member}
use shawn_os.Heap.{Block, Heap}
use shawn_os.Heap.Sections.{try_block, sections_for}
use shawn_os.Heap.Sections.Take.{IsValid, Taken, Tried, served, passed, try_block-Tried}
use shawn_os.Heap.Malloc.{Served, try_blocks}

-- A block of the default section size at a page, whose first section, the header, is used.
pub record InHeap (b : Block) : Type 0 where
  pub valid : IsValid b
  pub header : member b.used_sections 0 ≡ 1
  pub section : b.section_size ≡ 16
  pub at_page : b.start % 4096 ≡ 0
  pub whole : b.block_size ≡ 16 * b.used_sections.length
  pub in_memory : b.start + b.block_size < 2 ^ 32

-- Taking sections of a block leaves it a block of the heap.
pub Taken-InHeap : (b b' : Block) (n f : ℕ) → InHeap b → Taken b n f b' → InHeap b'
Taken-InHeap b b' n f h t = record {
  valid = t.valid;
  header = ground (arith, t.used 0, h.header);
  section = t.same_section_size ∙ h.section;
  at_page = ap (λ (s : ℕ). s % 4096) t.same_start ∙ h.at_page;
  whole = omega (arith, t.same_block_size, t.same_sections, h.whole);
  in_memory = omega (arith, t.same_start, t.same_block_size, h.in_memory);
}

-- Where blocks lie: their addresses and sizes.
abbrev pub extents : List Block → List (ℕ × ℕ)
extents bs = map (λ (b : Block). (b.start, b.block_size)) bs

-- Two extents share no address.
abbrev pub Apart : ℕ × ℕ → ℕ × ℕ → Type 0
Apart (a, n) (b, m) = (x : ℕ) → a ≤ x → x < a + n → b ≤ x → x < b + m → ⊥

abbrev pub Disjoint : List (ℕ × ℕ) → Type 0
Disjoint [] = Unit {0}
Disjoint (e ∷ es) = All (Apart e) es × Disjoint es

abbrev pub free_total : List Block → ℕ
free_total [] = 0
free_total (b ∷ bs) = b.free_sections + free_total bs

-- A sound heap. Its count of free sections is that of its blocks, as far as 32 bits hold it.
pub record IsHeap (heap : Heap) : Type 0 where
  pub section : heap.default_section_size ≡ 16
  pub blocks_in : All InHeap heap.blocks
  pub disjoint : Disjoint (extents heap.blocks)
  pub counted : heap.total_free_sections ≡ u32 (free_total heap.blocks)

-- The blocks in front of the one that serves a request, and those behind it, stay as they are.
pub data Walked (size : ℕ) (bs : List Block) : Outcome (Option Served) → Type 0 where
  found :
      (before after : List Block) (b b' : Block) (f : ℕ)
      → bs ≡ before ++ b ∷ after
      → All (λ c. try_block size c ≡ ok none) before
      → InHeap b
      → Taken b (sections_for b size) f b'
      → Walked size bs (
          ok (
            some (record {
              start = b.start;
              section_size = b.section_size;
              first_free = f;
              n_sec = sections_for b size;
              blocks = before ++ b' ∷ after;
            })))
  not_found : All (λ c. try_block size c ≡ ok none) bs → Walked size bs (ok none)

-- A block that passes the request goes in front of the walk over the others.
pass_on :
    (size : ℕ) (b : Block) (bs : List Block) {r : Outcome (Option Served)}
    → try_block size b ≡ ok none
    → Walked size bs r
    → Walked size (b ∷ bs) (
        r >>= λ found. elim found [
          | none ↦ ok none
          | some s ↦ ok (some (record s { blocks = b ∷ s.blocks }))
        ])
pass_on size b bs e (not_found all) = not_found (e, all)
pass_on size b bs e (found before after c c' f at all h t) =
    found (b ∷ before) after c c' f (ap (λ (cs : List Block). b ∷ cs) at) (e, all) h t

pub try_blocks-Walked :
    (size : ℕ) (bs : List Block)
    → 0 < size
    → size < 2 ^ 31
    → All InHeap bs
    → Walked size bs (try_blocks size bs)
unfolding try_blocks
try_blocks-Walked size [] pos small all = not_found tt
try_blocks-Walked size (b ∷ bs) pos small (h, all) =
    tried (try_block-Tried size b h.valid some_sections) refl
      (try_blocks-Walked size bs pos small all)
  where
    some_sections : 0 < sections_for b size
    some_sections = rw h.section (omega arith)

    tried :
        {r : Outcome (Option (ℕ × Block))}
        → Tried b (sections_for b size) r
        → r ≡ try_block size b
        → Walked size bs (try_blocks size bs)
        → Walked size (b ∷ bs) (
            r >>= λ r. elim r [
              | some (first_free, b') ↦ ok (
                  some (record {
                    start = b.start;
                    section_size = b.section_size;
                    first_free = first_free;
                    n_sec = sections_for b size;
                    blocks = b' ∷ bs;
                  }))
              | none ↦ try_blocks size bs >>= λ found. elim found [
                | none ↦ ok none
                | some s ↦ ok (some (record s { blocks = b ∷ s.blocks }))
              ]
            ])
    tried (served f b' t) e rest = found [] bs b b' f refl tt h t
    tried passed e rest = pass_on size b bs (sym e) rest

-- A block in the middle of a heap.
pub InHeap-at :
    (before after : List Block) (b : Block) → All InHeap (before ++ b ∷ after) → InHeap b
InHeap-at [] after b (h, all) = h
InHeap-at (c ∷ before) after b (h, all) = InHeap-at before after b all

pub Apart-at :
    (e : ℕ × ℕ) (before after : List Block) (b : Block)
    → All (Apart e) (extents (before ++ b ∷ after))
    → Apart e (b.start, b.block_size)
Apart-at e [] after b (far, all) = far
Apart-at e (c ∷ before) after b (far, all) = Apart-at e before after b all

-- The heap with the block `b'` in the place of `b`.
module _ (b b' : Block) (after : List Block) where
  All-swap :
      (before : List Block)
      → InHeap b'
      → All InHeap (before ++ b ∷ after)
      → All InHeap (before ++ b' ∷ after)
  All-swap [] h (_, all) = (h, all)
  All-swap (c ∷ before) h (hc, all) = (hc, All-swap before h all)

  pub extents-swap :
      (before : List Block)
      → b'.start ≡ b.start
      → b'.block_size ≡ b.block_size
      → extents (before ++ b' ∷ after) ≡ extents (before ++ b ∷ after)
  extents-swap [] es ez = cc
  extents-swap (c ∷ before) es ez =
      ap (λ xs. (c.start, c.block_size) ∷ xs) (extents-swap before es ez)

  free_total-swap :
      (before : List Block)
      → free_total (before ++ b' ∷ after) + b.free_sections
        ≡ free_total (before ++ b ∷ after) + b'.free_sections
  free_total-swap [] = omega arith
  free_total-swap (c ∷ before) = omega (arith, free_total-swap before)

  free_total-least : (before : List Block) → b.free_sections ≤ free_total (before ++ b ∷ after)
  free_total-least [] = omega arith
  free_total-least (c ∷ before) = omega (arith, free_total-least before)

  -- The count of the heap's free sections changes by what the block's count changes.
  pub swap-IsHeap :
      (heap : Heap) (before : List Block) (total : ℕ)
      → heap.blocks ≡ before ++ b ∷ after
      → InHeap b'
      → b'.start ≡ b.start
      → b'.block_size ≡ b.block_size
      → ((others : ℕ)
          → heap.total_free_sections ≡ u32 (others + b.free_sections)
          → total ≡ u32 (others + b'.free_sections))
      → IsHeap heap
      → IsHeap (record heap { blocks = before ++ b' ∷ after; total_free_sections = total })
  swap-IsHeap heap before total at h es ez counts v = record {
    section = v.section;
    blocks_in = All-swap before h (subst (All InHeap) at v.blocks_in);
    disjoint = subst Disjoint (ap extents at ∙ sym (extents-swap before es ez)) v.disjoint;
    counted =
        counts others (v.counted ∙ ap (λ bs. u32 (free_total bs)) at ∙ ap u32 split)
        ∙ ap u32 (omega (arith, free_total-swap before, free_total-least before));
  }
    where
      others : ℕ
      others = free_total (before ++ b ∷ after) - b.free_sections

      split : free_total (before ++ b ∷ after) ≡ others + b.free_sections
      split = omega (arith, free_total-least before)
