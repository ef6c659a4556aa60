-- ===== src/Mmu/Init.antt =====
-- `i386_paging_init` and the handler of page faults.
pub mod Fill
pub mod Identity
pub mod Start
pub mod Table
pub mod Done
use shawn_os.Prelude.{
  ℕ, zero, suc, ◌+◌, ◌-◌, ◌*◌, ◌/◌, ◌%◌, ◌^◌, Bool, true, false, not, ltb, leb, ◌==◌, if◌then◌else◌,
  bit_and, bit_or, List, [], ◌∷◌, ◌++◌, codes, Outcome, ok, abort, out_of_fuel, ◌>>=◌, ◌>>◌, assert,
}
use shawn_os.Kernel.{add32, page_size, kvirt_reserved, k_success, k_oom, k_failed}
use shawn_os.EarlyHeap.{Allocation, kmalloc_a, max_size}
use shawn_os.MemoryMap.{MemInfo}
use shawn_os.Paging.{PagingInterface}
use shawn_os.Textmode.{Textmode}
use shawn_os.Printf.{int32, printf}
use shawn_os.Isr.{Registers, isr_install_handler, panic_message}
use shawn_os.Mmu.{Mmu, pt_present, pt_rw, pd_present, pd_rw}
use shawn_os.Mmu.Access.{memset32}
use shawn_os.Mmu.Pages.{identity_map_page, i386_paging_interface}

-- The address of the directory is stored in the state. The early allocator takes the 4096 bytes.
unfoldable pub i386_mmu_data_init : Mmu → ℕ × Mmu
i386_mmu_data_init s =
    let a = kmalloc_a (4 * 1024) s.early in
    if a.address == 0 then (k_oom, record s { early = a.heap }) else (
      k_success,
      memset32 1024 0 a.address pd_rw (record s { early = a.heap; page_directory = a.address }),
    )

-- The loop over the pages below KVIRT_RESERVED, from address `i`. The entries that it creates are
-- not looked at.
unfoldable pub identity_map_kernel : ℕ → ℕ → Mmu → Outcome Mmu
identity_map_kernel zero i s = out_of_fuel
identity_map_kernel (suc fuel) i s =
    let rest =
      (identity_map_page s.page_directory i (bit_or pt_present pt_rw) (bit_or pd_present pd_rw) s
        >>= λ r.
            if ltb kvirt_reserved i
            then abort
            else identity_map_kernel fuel (add32 i 0x1000) r.1) in
    if ltb i kvirt_reserved then rest else ok s

-- `kpaging_data_t`
pub record KpagingData : Type 0 where
  pub interface : PagingInterface Mmu
  pub kernel_start : ℕ
  pub kernel_end : ℕ
  pub highest_page : ℕ
  pub page_size : ℕ
  pub mem_total : ℕ

-- `handler` is the address of `__i386_page_fault_handler`. The results are `kpaging_data`, the
-- handlers of exceptions and the state. A round for each of the 380 pages is enough fuel.
unfoldable pub i386_paging_init : ℕ → MemInfo → List ℕ → Mmu → Outcome (KpagingData × List ℕ × Mmu)
i386_paging_init handler meminfo routines s =
    let (code, s') = i386_mmu_data_init s in
    if k_failed code
    then abort
    else (identity_map_kernel 381 0 s' >>= λ t.
        let highest = add32 t.early.start max_size in
        assert (leb (add32 highest page_size) kvirt_reserved)
        >> ok (
          record {
            interface = i386_paging_interface;
            kernel_start = meminfo.kernel_reserved_start;
            kernel_end = t.early.curpos;
            highest_page = highest;
            page_size = page_size;
            mem_total = add32 meminfo.mem_lower meminfo.mem_upper;
          },
          isr_install_handler 14 handler routines,
          record t { window_page = add32 highest page_size; early_init_done = true },
        ))

-- `if (flag) printf(...)`
unfoldable pub print_if : Bool → List ℕ → Textmode → Textmode
print_if flag format t = if flag then printf format [] t else t

-- The screen on which the handler stops, `abort` included.
unfoldable pub page_fault_handler : ℕ → Registers → Textmode → Textmode
page_fault_handler faulting_address r t =
    let present = bit_and r.err_code 1 == 0 in
    let rw_error = not (bit_and r.err_code 2 == 0) in
    let us = not (bit_and r.err_code 4 == 0) in
    let reserved = not (bit_and r.err_code 8 == 0) in
    panic_message (
      print_if reserved (codes "Page reserved bits overwitten\n") (
        print_if us (codes "Page not writable from user-mode\n") (
          print_if rw_error (codes "Page not writable\n") (
            print_if present (codes "Page not present\n") (
              printf (codes "Faulting address: 0x%x\n") (int32 faulting_address ∷ []) (
                printf (codes "EIP: 0x%x\n") (int32 r.eip ∷ [])
                  (printf (codes "HALT - PAGE FAULT\n\n") [] t)))))))
