-- ===== src/Mmu.antt =====
-- kernel/arch/i386/paging.c: the page directory and page tables of the kernel.
-- `memory` is the physical memory, the 1024 words of each frame. The code reaches a table through a
-- pointer that `get_virt_ptr` gives. What the processor does with one is `resolve`: until early
-- initialisation is done paging is off; from then on WINDOW_PAGE goes where its page-table entry
-- says at that moment, so that an older pointer to it has moved, and the other pages that the code
-- touches are identity mapped. `invlpg` drops a cached entry; nothing is cached here.
pub mod Access
pub mod Window
pub mod Pages
pub mod Init
pub mod Walk
mod Tests
use shawn_os.Prelude.{
  ℕ, zero, suc, ◌+◌, ◌-◌, ◌*◌, ◌/◌, ◌%◌, ◌^◌, Bool, true, false, ◌&&◌, not, ◌==◌, if◌then◌else◌,
  bit_and, bit_or, Outcome, ok, ◌>>=◌, ◌>>◌, assert,
}
use shawn_os.Kernel.{page_size}
use shawn_os.Frames.{Frames}
use shawn_os.EarlyHeap.{EarlyHeap}

-- Flags of a page-table entry and of a directory entry.
abbrev pub pt_present : ℕ
pt_present = 1

abbrev pub pt_rw : ℕ
pt_rw = 2

abbrev pub pd_present : ℕ
pd_present = 1

abbrev pub pd_rw : ℕ
pd_rw = 2

-- The bits of an entry that are an address.
abbrev pub address_mask : ℕ
address_mask = 0xffff_f000

-- `page_directory` is that of `i386_kernel_mmu_data`.
pub record Mmu : Type 0 where
  pub memory : ℕ → ℕ → ℕ
  pub frames : Frames
  pub early : EarlyHeap
  pub page_directory : ℕ
  pub window_page : ℕ
  pub early_init_done : Bool

abbrev pub update : (ℕ → ℕ → ℕ) → ℕ → ℕ → ℕ → ℕ → ℕ → ℕ
update memory frame index value f i = if f == frame && i == index then value else memory f i

-- `page_index / 1024` and `page_index % 1024`
abbrev pub table_index : ℕ → ℕ
table_index address = address / page_size / 1024

abbrev pub index_in_table : ℕ → ℕ
index_in_table address = address / page_size % 1024

-- The page table of WINDOW_PAGE: TABLE_IN_DIR at the directory, which is identity mapped.
unfoldable pub window_table : Mmu → ℕ
window_table s =
    bit_and (s.memory (s.page_directory / page_size) (table_index s.window_page)) address_mask

-- The frame that the processor reaches through a pointer to a page.
unfoldable pub resolve : Mmu → ℕ → ℕ
resolve s virt =
    if s.early_init_done && virt == s.window_page
    then bit_and (s.memory (window_table s / page_size) (index_in_table s.window_page)) address_mask
      / page_size
    else virt / page_size

unfoldable pub load : Mmu → ℕ → ℕ → ℕ
load s virt index = s.memory (resolve s virt) index

unfoldable pub store : ℕ → ℕ → ℕ → Mmu → Mmu
store virt index value s = record s { memory = update s.memory (resolve s virt) index value }
