-- ===== src/EarlyHeap.antt =====
-- kernel/arch/i386/mem.c, the placement allocator that serves `kmalloc` until the heap is there.
-- Of `meminfo` it reads and moves two fields. Where `phys` is not `NULL`, it gets the address.
pub mod Laws
mod Tests
use shawn_os.Prelude.{
  ℕ, zero, suc, ◌+◌, ◌-◌, ◌*◌, ◌/◌, ◌%◌, ◌^◌, Bool, true, false, ◌&&◌, not, ltb, ◌==◌,
  if◌then◌else◌, bit_and, bit_or, Option, none, some,
}
use shawn_os.Kernel.{u32, add32, sub32, page_size}

pub record EarlyHeap : Type 0 where
  pub start : ℕ
  pub curpos : ℕ

-- `EARLY_HEAP_MAXSIZE` and the flags of kernel/include/mm/alloc.h
abbrev pub max_size : ℕ
max_size = 0x50000

abbrev pub kalloc_critical : ℕ
kalloc_critical = 1

abbrev pub kalloc_general : ℕ
kalloc_general = 2

abbrev pub kalloc_page_align : ℕ
kalloc_page_align = 4

abbrev pub has_flag : ℕ → ℕ → Bool
has_flag flags flag = not (bit_and flags flag == 0)

-- The position that the block starts at.
unfoldable pub aligned : Bool → ℕ → ℕ
aligned page_align curpos =
    if page_align && not (curpos % page_size == 0)
    then add32 (bit_and curpos (0x1_0000_0000 - page_size)) page_size
    else if not page_align && not (curpos % 8 == 0)
    then add32 curpos (8 - curpos % 8)
    else curpos

-- What a call returns: the address, what it stores through `phys`, and the new state.
pub record Allocation : Type 0 where
  pub address : ℕ
  pub phys : Option ℕ
  pub heap : EarlyHeap

unfoldable pub kmalloc_real : ℕ → Bool → ℕ → EarlyHeap → Allocation
kmalloc_real size wants_phys flags s =
    if not (has_flag flags kalloc_critical)
    then record { address = 0; phys = none; heap = s }
    else if ltb (add32 s.start max_size) (add32 (add32 size s.curpos) page_size)
    then record { address = 0; phys = none; heap = s }
    else (let at = aligned (has_flag flags kalloc_page_align) s.curpos in
        record {
          address = at;
          phys = if wants_phys then some at else none;
          heap = record s { curpos = add32 at size };
        })

unfoldable pub kmalloc : ℕ → EarlyHeap → Allocation
unfolding kmalloc_real
kmalloc size = kmalloc_real size false kalloc_critical

unfoldable pub kmalloc_a : ℕ → EarlyHeap → Allocation
unfolding kmalloc_real
kmalloc_a size = kmalloc_real size false (bit_or kalloc_critical kalloc_page_align)

unfoldable pub kmalloc_p : ℕ → EarlyHeap → Allocation
unfolding kmalloc_real
kmalloc_p size = kmalloc_real size true kalloc_critical

unfoldable pub kmalloc_ap : ℕ → EarlyHeap → Allocation
unfolding kmalloc_real
kmalloc_ap size = kmalloc_real size true (bit_or kalloc_critical kalloc_page_align)

-- The allocator has nothing to give back.
unfoldable pub kfree : ℕ → EarlyHeap → EarlyHeap
kfree addr s = s
