-- ===== src/MemoryMap/Sections.antt =====
-- `_i386_elf_sections_read`: the range that the kernel's sections are taken to fill.
use shawn_os.Prelude.{
  ℕ, zero, suc, ◌%◌, ◌≤◌, ◌<◌, ◌≡◌, arith, ltb, if◌then◌else◌, ◌⊎◌, inl, inr, ◌↔◌,
}
use native.Mathlib.Decide.{ℕ_discrete}
use shawn_os.Kernel.{add32, sub32}
use shawn_os.MemoryMap.{ElfSection, MemInfo}

module _ (section_at : ℕ → ElfSection) where
  -- The highest address of `left` section headers from `cur` on, or `highest`.
  unfoldable pub highest_section : ℕ → ℕ → ℕ → ℕ
  highest_section zero cur highest = highest
  highest_section (suc left) cur highest =
      highest_section left (add32 cur 40)
        (if ltb highest (section_at cur).sh_addr then (section_at cur).sh_addr else highest)

  -- The first header is passed over.
  unfoldable pub sections_read : MemInfo → MemInfo
  sections_read m =
      let cur = add32 m.mboot_header.elf_addr 40 in
      let last = highest_section (sub32 m.mboot_header.elf_num 1) cur 0 in
      record m {
        kernel_reserved_start = (section_at cur).sh_addr;
        kernel_reserved_end = add32 last (last % 0x1000);
      }

  -- The address of the header behind `n` others, from `cur` on.
  abbrev pub header : ℕ → ℕ → ℕ
  header cur zero = cur
  header cur (suc n) = header (add32 cur 40) n

  above_start : (left cur highest : ℕ) → highest ≤ highest_section left cur highest
  unfolding highest_section
  above_start zero cur highest = omega arith
  above_start (suc left) cur highest = ground (
    arith,
    above_start left (add32 cur 40)
        (if ltb highest (section_at cur).sh_addr then (section_at cur).sh_addr else highest),
  )

  highest_section-upper :
      (left cur highest n : ℕ)
      → n < left
      → (section_at (header cur n)).sh_addr ≤ highest_section left cur highest
  unfolding highest_section
  highest_section-upper zero cur highest n h = absurd (omega arith)
  highest_section-upper (suc left) cur highest zero h = ground (
    arith,
    above_start left (add32 cur 40)
        (if ltb highest (section_at cur).sh_addr then (section_at cur).sh_addr else highest),
  )
  highest_section-upper (suc left) cur highest (suc n) h =
      highest_section-upper left (add32 cur 40) _ n (omega arith)

doubled_offset :
    (x : ℕ) → (add32 x (x % 0x1000) % 0x1000 ≡ 0) ↔ ((x % 0x1000 ≡ 0) ⊎ (x % 0x1000 ≡ 0x800))
doubled_offset x = (
  λ h. elim (ℕ_discrete (x % 0x1000) 0) [ yes e ↦ inl e | no ne ↦ inr (omega arith) ],
  λ h. elim h [ inl e ↦ omega arith | inr e ↦ omega arith ],
)

-- The end that `_i386_elf_sections_read` computes is at a page boundary only where the highest
-- section starts at a boundary, or in the middle of a page.
reserved_end_aligned :
    (section_at : ℕ → ElfSection) (m : MemInfo)
    → let last =
        highest_section section_at
          (sub32 m.mboot_header.elf_num 1)
          (add32 m.mboot_header.elf_addr 40)
          0 in
      ((sections_read section_at m).kernel_reserved_end % 0x1000 ≡ 0)
      ↔ ((last % 0x1000 ≡ 0) ⊎ (last % 0x1000 ≡ 0x800))
unfolding sections_read
reserved_end_aligned section_at m = doubled_offset _
