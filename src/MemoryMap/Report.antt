-- ===== src/MemoryMap/Report.antt =====
-- `_i386_print_reserved` of kernel/arch/i386/mem.c: the memory map on the screen.
use shawn_os.Prelude.{
  ℕ, zero, suc, ◌+◌, ◌-◌, ◌<◌, ◌≡◌, refl, ◌^◌, arith, ltb, ltb→lt, if◌then◌else◌, [], ◌∷◌, codes,
  Outcome, ok, out_of_fuel, ◌>>=◌, Bool-cases, inl, inr,
}
use shawn_os.Kernel.{add32}
use shawn_os.MemoryMap.Walk.{NoWrap}
use shawn_os.MemoryMap.{MmapEntry, MemInfo}
use shawn_os.Textmode.{Textmode}
use shawn_os.Printf.{int32, int64, printf}

-- What it prints in front of the entries.
abbrev print_sizes : MemInfo → Textmode → Textmode
print_sizes m t =
    printf (codes "[mem] mem_lower: %u, mem_upper: %u, mem_total: %u\n")
      (int32 m.mem_lower ∷ int32 m.mem_upper ∷ int32 (add32 m.mem_lower m.mem_upper) ∷ [])
      (printf (codes "[mem] kernel reserved start: 0x%x end: 0x%x\n")
        (int32 m.kernel_reserved_start ∷ int32 m.kernel_reserved_end ∷ []) t)

-- What it prints behind them. The line on the ELF file shows the range of the kernel again.
abbrev print_ranges : MemInfo → Textmode → Textmode
print_ranges m t =
    printf (codes "[mem] mboot reserved start: 0x%x end: 0x%x\n")
      (int32 m.multiboot_reserved_start ∷ int32 m.multiboot_reserved_end ∷ [])
      (printf (codes "[mem] elf reserved start: 0x%x end: 0x%x\n")
        (int32 m.kernel_reserved_start ∷ int32 m.kernel_reserved_end ∷ []) t)

module _ (entry_at : ℕ → MmapEntry) where
  -- The loop over the entries from `cur` on.
  unfoldable pub print_entries : ℕ → ℕ → ℕ → Textmode → Outcome Textmode
  print_entries zero cur end t = out_of_fuel
  print_entries (suc fuel) cur end t =
      let e = entry_at cur in
      let shown =
        printf (codes "[mem] addr: 0x%lx len: 0x%lx reserved: %u\n")
          (int64 e.addr ∷ int64 e.len ∷ int32 e.type ∷ []) t in
      let rest = print_entries fuel (add32 cur (add32 e.size 4)) end shown in
      if ltb cur end then rest else ok t

  unfoldable pub print_reserved : MemInfo → Textmode → Outcome Textmode
  print_reserved m t = do
    entries ←
        print_entries (m.mmap_length + 1) m.mmap (add32 m.mmap m.mmap_length) (print_sizes m t)
    ok (print_ranges m entries)

  print_entries_ends :
      (fuel cur end : ℕ) (t : Textmode)
      → end - cur < fuel
      → NoWrap entry_at cur end
      → (t' : Textmode) × (print_entries fuel cur end t ≡ ok t')
  unfolding print_entries
  print_entries_ends zero cur end t enough fits = absurd (omega arith)
  print_entries_ends (suc fuel) cur end t enough fits = elim (Bool-cases (ltb cur end)) [
    | inl inside ↦
        let lt : cur < end = ltb→lt cur end inside in
        let (t', e) =
          print_entries_ends fuel (add32 cur (add32 (entry_at cur).size 4)) end
            (printf (codes "[mem] addr: 0x%lx len: 0x%lx reserved: %u\n")
              (int64 (entry_at cur).addr
                ∷ int64 (entry_at cur).len
                ∷ int32 (entry_at cur).type
                ∷ [])
              t)
            (omega (arith, fits cur (omega arith) lt))
            (λ p lo hi. fits p (omega (arith, fits cur (omega arith) lt)) hi) in
        (t', rw inside e)
    | inr outside ↦ (t, rw outside refl)
  ]

  -- The report ends on every memory map whose entries stay in the address space.
  pub print_reserved_ends :
      (m : MemInfo) (t : Textmode)
      → NoWrap entry_at m.mmap (add32 m.mmap m.mmap_length)
      → m.mmap + m.mmap_length < 2 ^ 32
      → (t' : Textmode) × (print_reserved m t ≡ ok t')
  unfolding print_reserved
  print_reserved_ends m t fits small =
      let (t', e) =
        print_entries_ends (m.mmap_length + 1) m.mmap (add32 m.mmap m.mmap_length) (print_sizes m t)
          (omega arith) fits in
      (print_ranges m t', rw e refl)
