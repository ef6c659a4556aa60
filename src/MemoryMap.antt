-- ===== src/MemoryMap.antt =====
-- kernel/arch/i386/mem.c, what the boot loader says of memory: `meminfo`, the walk over the
-- multiboot memory map and the ELF sections, and the frames that start out in use.
-- `entry_at` and `section_at` stand for the memory in which the boot loader left its tables.
pub mod Walk
pub mod Reserved
pub mod Marked
pub mod Sections
pub mod Start
pub mod Report
mod Tests
use shawn_os.Prelude.{
  ℕ, zero, suc, ◌+◌, ◌-◌, ◌*◌, ◌/◌, ◌%◌, ◌^◌, Bool, ◌&&◌, ◌||◌, not, ltb, leb, ◌==◌, if◌then◌else◌,
  bit_and, Outcome, ok, abort, out_of_fuel, ◌>>=◌, List,
}
use shawn_os.Kernel.{u32, add32, sub32, mul32, div_round_up, page_size}
use shawn_os.Bitset.{Bitset, set_bit}

-- `enum mem_states_t`
pub data MemState : Type 0 where
  reserved free nonexistant : MemState

-- `multiboot_memory_map_t`
pub record MmapEntry : Type 0 where
  pub size : ℕ
  pub addr : ℕ
  pub len : ℕ
  pub type : ℕ

-- `elf_section_header_t`, 40 bytes; the kernel reads this field.
pub record ElfSection : Type 0 where
  pub sh_addr : ℕ

-- `multiboot_info_t`, 88 bytes, with its own address.
pub record MultibootInfo : Type 0 where
  pub location : ℕ
  pub flags : ℕ
  pub mem_lower : ℕ
  pub mem_upper : ℕ
  pub elf_num : ℕ
  pub elf_addr : ℕ
  pub mmap_length : ℕ
  pub mmap_addr : ℕ

-- `i386_mem_info_t`
pub record MemInfo : Type 0 where
  pub mboot_header : MultibootInfo
  pub mmap_length : ℕ
  pub mmap : ℕ
  pub kernel_reserved_start : ℕ
  pub kernel_reserved_end : ℕ
  pub multiboot_reserved_start : ℕ
  pub multiboot_reserved_end : ℕ
  pub kernel_heap_start : ℕ
  pub kernel_heap_curpos : ℕ
  pub mem_lower : ℕ
  pub mem_upper : ℕ
  pub highest_free_address : ℕ

-- Does the entry hold the address? Its end is cut to 32 bits.
abbrev pub entry_end : MmapEntry → ℕ
entry_end e = u32 (e.addr + e.len)

abbrev pub holds : MmapEntry → ℕ → Bool
holds e addr = leb e.addr addr && leb addr (entry_end e)

-- What the entry says of a page at the address.
unfoldable pub classify : MmapEntry → ℕ → MemState
classify e addr =
    if e.type == 2
    then reserved
    else if ltb (entry_end e) (add32 addr page_size)
    then reserved
    else free

-- Does one end of the page from `addr` lie in the range?
abbrev pub touches : ℕ → ℕ → ℕ → ℕ → Bool
touches addr addr_end from to = leb from addr && leb addr to || leb from addr_end && leb addr_end to

module _ (entry_at : ℕ → MmapEntry) where
  -- The loop of `_i386_mmap_check_reserved`.
  unfoldable pub mmap_loop : ℕ → ℕ → ℕ → ℕ → Outcome MemState
  mmap_loop zero cur end addr = out_of_fuel
  mmap_loop (suc fuel) cur end addr =
      let e = entry_at cur in
      let rest = mmap_loop fuel (add32 cur (add32 e.size 4)) end addr in
      if ltb cur end then (if holds e addr then ok (classify e addr) else rest) else ok nonexistant

  -- An entry takes 4 bytes at least, so one round for each byte of the map is enough.
  unfoldable pub mmap_check_reserved : MemInfo → ℕ → Outcome MemState
  mmap_check_reserved m addr =
      mmap_loop (m.mmap_length + 1) m.mmap (add32 m.mmap m.mmap_length) addr

  unfoldable pub check_reserved : MemInfo → ℕ → Outcome MemState
  check_reserved m addr =
      let addr_end = add32 addr page_size in
      if leb addr_end 0x1000
      then ok reserved
      else if touches addr addr_end m.kernel_reserved_start m.kernel_reserved_end
      then ok reserved
      else if touches addr addr_end m.multiboot_reserved_start m.multiboot_reserved_end
      then ok reserved
      else mmap_check_reserved m addr

  -- `_i386_mem_init_bitset` from address `i`.
  unfoldable pub mark_reserved : ℕ → MemInfo → ℕ → Bitset → Outcome Bitset
  mark_reserved zero m i b = out_of_fuel
  mark_reserved (suc fuel) m i b =
      let marked = check_reserved m i >>= λ state. elim state [
        | reserved ↦ set_bit b (i / page_size)
        | _ ↦ ok b
      ] in
      let rest = marked >>= mark_reserved fuel m (add32 i page_size) in
      if ltb (add32 i page_size) m.highest_free_address then rest else ok b

  unfoldable pub init_bitset : MemInfo → Bitset → Outcome Bitset
  init_bitset m b = mark_reserved (m.highest_free_address / page_size + 1) m 0 b
