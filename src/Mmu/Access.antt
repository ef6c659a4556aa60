-- ===== src/Mmu/Access.antt =====
-- `get_virt_ptr`, `allocate_page_table`, and the part that two callers share.
use shawn_os.Prelude.{
  ℕ, zero, suc, ◌+◌, ◌/◌, ◌%◌, ◌==◌, if◌then◌else◌, bit_and, bit_or, Outcome, ok, ◌>>=◌, ◌>>◌,
  assert,
}
use shawn_os.Kernel.{page_size, mul32, k_success, k_oom, k_failed}
use shawn_os.Frames.{allocate_frame}
use shawn_os.EarlyHeap.{kmalloc_ap}
use shawn_os.Mmu.{
  Mmu, pt_present, pt_rw, pd_present, address_mask, update, index_in_table, window_table, load,
  store,
}

-- The window's entry is written with `phys | PT_PRESENT | PT_RW`.
unfoldable pub move_window : ℕ → Mmu → Mmu
move_window phys s = record s {
  memory =
      update s.memory (window_table s / page_size) (index_in_table s.window_page)
        (bit_or (bit_or phys pt_present) pt_rw);
}

unfoldable pub get_virt_ptr : ℕ → Mmu → Outcome (ℕ × Mmu)
get_virt_ptr phys s =
    assert (phys % 0x1000 == 0)
    >> ok (if s.early_init_done then (s.window_page, move_window phys s) else (phys, s))

-- `memset32` of 1024 words, from word `index` on.
unfoldable pub memset32 : ℕ → ℕ → ℕ → ℕ → Mmu → Mmu
memset32 zero index virt value s = s
memset32 (suc left) index virt value s =
    memset32 left (index + 1) virt value (store virt index value s)

-- The result code, the physical address of the table, and the state.
unfoldable pub allocate_page_table : Mmu → Outcome (ℕ × ℕ × Mmu)
allocate_page_table s =
    if s.early_init_done
    then (allocate_frame s.frames >>= λ x.
        let s' = record s { frames = x.1 } in
        let phys = mul32 x.0 page_size in
        if x.0 == 0
        then ok (k_oom, 0, s')
        else (get_virt_ptr phys s' >>= λ y. ok (k_success, phys, memset32 1024 0 y.0 pt_rw y.1)))
    else (let a = kmalloc_ap page_size s.early in
        if a.address == 0
        then ok (k_oom, 0, s)
        else ok
            (k_success, a.address, memset32 1024 0 a.address pt_rw (record s { early = a.heap })))

-- The table at `index` is allocated if it is not present. The pointer to the directory is obtained
-- again, since the allocation has moved the window.
unfoldable pub ensure_table : ℕ → ℕ → ℕ → ℕ → Mmu → Outcome (ℕ × ℕ × Mmu)
ensure_table dir index pd_flags pd_virt s =
    if bit_and (load s pd_virt index) pd_present == 0
    then (allocate_page_table s >>= λ x.
        let (code, phys, s') = x in
        if k_failed code
        then ok (code, pd_virt, s')
        else (get_virt_ptr dir s' >>= λ y.
            ok (k_success, y.0, store y.0 index (bit_or phys pd_flags) y.1)))
    else ok (k_success, pd_virt, s)

-- `get_virt_ptr(TABLE_IN_DIR(index, pd_virt))`
unfoldable pub table_ptr : ℕ → ℕ → Mmu → Outcome (ℕ × Mmu)
table_ptr index pd_virt s = get_virt_ptr (bit_and (load s pd_virt index) address_mask) s
