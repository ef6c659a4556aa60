-- ===== src/MemoryMap/Reserved.antt =====
-- `i386_mem_check_reserved`: what it means that a page is free.
use shawn_os.Prelude.{
  ℕ, ◌+◌, ◌^◌, ◌≤◌, ◌<◌, ◌≡◌, refl, arith, false, leb, ok, ◌⊎◌, inl, inr, Bool-cases,
}
use shawn_os.Kernel.{add32, page_size}
use shawn_os.MemoryMap.{
  MemState, reserved, free, MmapEntry, MemInfo, touches, mmap_check_reserved, check_reserved,
}
use shawn_os.MemoryMap.Walk.{Covered, Covered-of_free, NoWrap, mmap_loop_ends}

-- The byte ranges do not meet: one page from `addr`, and `from` up to `to`.
abbrev pub Apart : ℕ → ℕ → ℕ → Type 0
Apart addr from to = (addr + page_size < from) ⊎ (to < addr)

-- Neither end of the page lies in the range, and a range of a page or more cannot hide inside it.
Apart-of_ends :
    (addr from to : ℕ)
    → from + page_size ≤ to
    → touches addr (addr + page_size) from to ≡ false
    → Apart addr from to
Apart-of_ends addr from to wide h = ground arith

-- The end of the memory map.
abbrev pub map_end : MemInfo → ℕ
map_end m = add32 m.mmap m.mmap_length

module _ (entry_at : ℕ → MmapEntry) (m : MemInfo) where
  -- The walk over a map whose entries stay in the address space ends with an answer.
  mmap_check_ends :
      (addr : ℕ)
      → NoWrap entry_at m.mmap (map_end m)
      → (state : MemState) × (mmap_check_reserved entry_at m addr ≡ ok state)
  unfolding mmap_check_reserved
  mmap_check_ends addr fits =
      mmap_loop_ends entry_at (m.mmap_length + 1) m.mmap (map_end m) addr (omega arith) fits

  -- `i386_mem_check_reserved` always answers, if the entries of the map stay in the address space.
  pub check_reserved_ends :
      (addr : ℕ)
      → NoWrap entry_at m.mmap (map_end m)
      → (state : MemState) × (check_reserved entry_at m addr ≡ ok state)
  unfolding check_reserved
  check_reserved_ends addr fits = elim (Bool-cases (leb (add32 addr page_size) 0x1000)) [
    | inl low ↦ (reserved, rw low refl)
    | inr high ↦
        elim (Bool-cases
          (touches addr (add32 addr page_size) m.kernel_reserved_start m.kernel_reserved_end)) [
            | inl kernel ↦ (reserved, rw (high, kernel) refl)
            | inr no_kernel ↦
                elim (Bool-cases (
                  touches addr (add32 addr page_size) m.multiboot_reserved_start
                    m.multiboot_reserved_end)) [
                      | inl info ↦ (reserved, rw (high, no_kernel, info) refl)
                      | inr no_info ↦
                          let (state, e) = mmap_check_ends addr fits in
                          (state, rw (high, no_kernel, no_info) e)
                    ]
          ]
  ]

  free_checks :
      (addr : ℕ)
      → check_reserved entry_at m addr ≡ ok free
      → (leb (add32 addr page_size) 0x1000 ≡ false)
        × (touches addr (add32 addr page_size) m.kernel_reserved_start m.kernel_reserved_end
            ≡ false)
        × (touches addr (add32 addr page_size) m.multiboot_reserved_start m.multiboot_reserved_end
            ≡ false)
        × (mmap_check_reserved entry_at m addr ≡ ok free)
  unfolding check_reserved
  free_checks addr h = ground arith

  -- If `i386_mem_check_reserved` calls the page at `addr` free, and both reserved ranges are at
  -- least a page long, then the page lies above the first 4 KiB, meets neither the kernel nor the
  -- multiboot information, and lies whole within an entry of the memory map that is not reserved.
  pub check_reserved-free :
      (addr : ℕ)
      → addr + page_size < 2 ^ 32
      → m.kernel_reserved_start + page_size ≤ m.kernel_reserved_end
      → m.multiboot_reserved_start + page_size ≤ m.multiboot_reserved_end
      → check_reserved entry_at m addr ≡ ok free
      → (0x1000 < addr + page_size)
        × Apart addr m.kernel_reserved_start m.kernel_reserved_end
        × Apart addr m.multiboot_reserved_start m.multiboot_reserved_end
        × Covered entry_at m.mmap (map_end m) addr
  unfolding mmap_check_reserved
  check_reserved-free addr fits kernel info h =
      let (high, no_kernel, no_info, walked) = free_checks addr h in
      let same : add32 addr page_size ≡ addr + page_size = omega arith in
      (
        ground arith,
        Apart-of_ends addr m.kernel_reserved_start m.kernel_reserved_end kernel
            (rw same at no_kernel),
        Apart-of_ends addr m.multiboot_reserved_start m.multiboot_reserved_end info
            (rw same at no_info),
        Covered-of_free entry_at (m.mmap_length + 1) m.mmap (map_end m) addr walked,
      )
