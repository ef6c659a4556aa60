-- ===== src/Heap.antt =====
-- kernel/include/mm/heap.h and kernel/mm/heap.c: the kernel heap.
-- A heap is the list of its blocks in the order of their `next` pointers. A block owns the words
-- of its two bitsets, which stand in its first sections. `KHEAP_DEBUG` is undefined in heap.h, so
-- there is no `magic`, the integrity check holds trivially, and a block header takes 40 bytes.
pub mod Sections
pub mod Malloc
pub mod Build
pub mod Pages
pub mod Serve
pub mod Mapping
pub mod Expand
pub mod Blocks
pub mod Place
pub mod Sound
pub mod Allotted
pub mod Allocate
pub mod Free
pub mod Starve
pub mod Kalloc
pub mod Apart
pub mod I386
mod Tests
use shawn_os.Prelude.{
  ℕ, zero, suc, ◌+◌, ◌-◌, ◌*◌, ◌/◌, ◌%◌, ◌^◌, Bool, true, false, List, [], ◌∷◌, ltb, leb, ◌==◌,
  if◌then◌else◌, Outcome, ok, abort, ◌>>=◌, ◌>>◌, assert, length,
}
use shawn_os.Kernel.{add32, sub32, mul32, div_round_up}
use shawn_os.Bitset
use shawn_os.Bitset.{Bitset}
use shawn_os.Bitset.Range.{set_bits}

-- `kheap_block_t`
pub record Block : Type 0 where
  pub block_size : ℕ
  pub section_size : ℕ
  pub first_free_section : ℕ
  pub free_sections : ℕ
  pub start : ℕ
  pub used_sections : Bitset
  pub delimiters : Bitset

-- `kheap_t`; the head of `blocks` is `first`.
pub record Heap : Type 0 where
  pub blocks : List Block
  pub default_section_size : ℕ
  pub min_block_size : ℕ
  pub flags : ℕ
  pub effective_size : ℕ
  pub total_free_sections : ℕ

-- `sizeof(kheap_block_t)`
abbrev pub header_size : ℕ
header_size = 40

-- `SECTION_SIZE_DEFAULT`
abbrev pub section_size_default : ℕ
section_size_default = 0x10

abbrev pub min_block_size_default : ℕ
min_block_size_default = 0x10_0000

-- `KHEAP_AUTO_EXPAND`, kept and never read
abbrev pub kheap_auto_expand : ℕ
kheap_auto_expand = 1

unfoldable pub kheap_init : ℕ → ℕ → ℕ → Heap
kheap_init default_section_size min_block_size flags = record {
  blocks = [];
  default_section_size = default_section_size;
  min_block_size = min_block_size;
  flags = flags;
  effective_size = 0;
  total_free_sections = 0;
}

-- The size of one bitset in bytes, for a block cut into sections.
abbrev pub bitset_bytes : ℕ → ℕ → ℕ
bitset_bytes block_size section_size = mul32 (div_round_up block_size (mul32 section_size 32)) 4

-- `contents a n` is what the `n` words from address `a` hold before the block is made.
unfoldable pub kheap_add_block : (ℕ → ℕ → List ℕ) → Heap → ℕ → ℕ → ℕ → Outcome Heap
kheap_add_block contents heap addr block_size section_size = do
  assert (addr % 0x1000 == 0)
  assert (leb 4 section_size)
  let bitset_size = bitset_bytes block_size section_size
  let bitset_length = div_round_up block_size section_size
  let used_start = add32 addr header_size
  let delimiter_start = add32 used_start bitset_size
  let metadata = add32 header_size (mul32 bitset_size 2)
  assert (ltb metadata block_size)
  let used = Bitset.init (contents used_start (bitset_size / 4)) bitset_length
  let delimiters = Bitset.init (contents delimiter_start (bitset_size / 4)) bitset_length
  let reserved = div_round_up metadata section_size
  used' ← set_bits reserved 0 used
  let block : Block = record {
    block_size = block_size;
    section_size = section_size;
    first_free_section = reserved;
    free_sections = sub32 bitset_length reserved;
    start = addr;
    used_sections = used';
    delimiters = delimiters;
  }
  ok (record heap {
    blocks = block ∷ heap.blocks;
    total_free_sections = add32 heap.total_free_sections (sub32 bitset_length reserved);
    effective_size =
        add32 heap.effective_size (add32 (sub32 block_size header_size) (mul32 bitset_size 2));
  })
