-- ===== src/Mmu/Pages.antt =====
-- The operations on pages, and the kernel's paging interface over them.
use shawn_os.Prelude.{
  ℕ, ◌/◌, ◌%◌, some, ◌==◌, if◌then◌else◌, bit_and, bit_or, Outcome, ok, ◌>>=◌, ◌>>◌, assert,
}
use shawn_os.Kernel.{page_size, mul32, k_success, k_oom, k_invalop, k_failed}
use shawn_os.Bitset.{set_bit, clear_bit}
use shawn_os.Frames.{allocate_frame, free_frame}
use shawn_os.Paging.{PagingInterface}
use shawn_os.Mmu.{
  Mmu, pt_present, pt_rw, pd_present, address_mask, table_index, index_in_table, load, store,
}
use shawn_os.Mmu.Access.{get_virt_ptr, ensure_table, table_ptr}

-- The physical address, 0 where the page is not mapped. The table's address is read at the address
-- of the directory itself.
unfoldable pub page_get_phys : ℕ → ℕ → Mmu → Outcome (ℕ × Mmu)
page_get_phys dir address s = get_virt_ptr dir s >>= λ d.
    if bit_and (load d.1 d.0 (table_index address)) pd_present == 0
    then ok (0, d.1)
    else (table_ptr (table_index address) dir d.1 >>= λ t.
        let page = load t.1 t.0 (index_in_table address) in
        ok (if bit_and page pt_present == 0 then 0 else bit_and page address_mask, t.1))

-- The entry is written in the table, which is reached through the pointer to the directory.
unfoldable pub write_entry : ℕ → ℕ → ℕ → Mmu → Outcome Mmu
write_entry address page pd_virt s = table_ptr (table_index address) pd_virt s >>= λ t.
    ok (store t.0 (index_in_table address) page t.1)

-- The result code, the physical address, and the state.
unfoldable pub allocate_page : ℕ → ℕ → ℕ → ℕ → Mmu → Outcome (ℕ × ℕ × Mmu)
allocate_page dir address pt_flags pd_flags s =
    assert (address % page_size == 0)
    >> (allocate_frame s.frames >>= λ a.
        let s' = record s { frames = a.1 } in
        let page = bit_or (mul32 a.0 page_size) pt_flags in
        if a.0 == 0
        then ok (k_oom, 0, s')
        else (get_virt_ptr dir s' >>= λ d.
            ensure_table dir (table_index address) pd_flags d.0 d.1 >>= λ e.
            if k_failed e.0
            then (free_frame a.0 e.2.frames >>= λ f. ok (e.0, 0, record e.2 { frames = f }))
            else (write_entry address page e.1 e.2 >>= λ w.
                ok (k_success, bit_and page address_mask, w))))

-- The entry becomes `PT_RW`, and the frame that it named is given back, present or not.
unfoldable pub free_page : ℕ → ℕ → Mmu → Outcome (ℕ × Mmu)
free_page dir address s =
    assert (address % page_size == 0)
    >> (get_virt_ptr dir s >>= λ d.
        if bit_and (load d.1 d.0 (table_index address)) pd_present == 0
        then ok (k_invalop, d.1)
        else (table_ptr (table_index address) d.0 d.1 >>= λ t.
            let frame = load t.1 t.0 (index_in_table address) / page_size in
            let emptied = store t.0 (index_in_table address) pt_rw t.1 in
            clear_bit emptied.frames.bitset frame >>= λ b.
            ok (k_success, record emptied { frames = record emptied.frames { bitset = b } })))

-- The entry that is created; where a table cannot be allocated, the result code in its place.
unfoldable pub identity_map_page : ℕ → ℕ → ℕ → ℕ → Mmu → Outcome (ℕ × Mmu)
identity_map_page dir address pt_flags pd_flags s =
    assert (address % page_size == 0)
    >> (get_virt_ptr dir s >>= λ d. ensure_table dir (table_index address) pd_flags d.0 d.1 >>= λ e.
        let page = bit_or (mul32 (address / page_size) page_size) pt_flags in
        if k_failed e.0
        then ok (e.0, e.2)
        else (write_entry address page e.1 e.2 >>= λ w.
            set_bit w.frames.bitset (address / page_size) >>= λ b.
            ok (page, record w { frames = record w.frames { bitset = b } })))

unfoldable pub i386_kpage_allocate : ℕ → ℕ → Mmu → Outcome (ℕ × Mmu)
i386_kpage_allocate addr flags s =
    allocate_page s.page_directory addr flags flags s >>= λ r. ok (r.0, r.2)

unfoldable pub i386_kpage_free : ℕ → Mmu → Outcome (ℕ × Mmu)
i386_kpage_free addr s = free_page s.page_directory addr s

unfoldable pub i386_kpage_identity_map : ℕ → ℕ → Mmu → Outcome (ℕ × Mmu)
i386_kpage_identity_map addr flags s =
    identity_map_page s.page_directory addr flags flags s >>= λ r.
    ok (if r.0 == 0 then k_oom else k_success, r.1)

unfoldable pub i386_kpage_get_phys : ℕ → Mmu → Outcome (ℕ × Mmu)
i386_kpage_get_phys addr s = page_get_phys s.page_directory addr s

unfoldable pub i386_paging_interface : PagingInterface Mmu
i386_paging_interface = record {
  kpage_allocate = some i386_kpage_allocate;
  kpage_free = some i386_kpage_free;
  kpage_identity_map = some i386_kpage_identity_map;
  kpage_get_phys = some i386_kpage_get_phys;
}
