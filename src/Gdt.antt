-- ===== src/Gdt.antt =====
-- kernel/arch/i386/descriptors/gdt.c and kernel/include/arch/i386/descriptors/gdt.h: the segment
-- descriptors. Loading the table into the processor is assembly.
pub mod Laws
mod Tests
use shawn_os.Prelude.{
  ℕ, ◌+◌, ◌-◌, ◌*◌, ◌/◌, ◌%◌, ◌^◌, bit_and, bit_or, List, [], ◌∷◌, set, replicate,
}

-- `struct gdt_entry`, 8 bytes
pub record GdtEntry : Type 0 where
  pub limit_low : ℕ
  pub base_low : ℕ
  pub base_middle : ℕ
  pub access : ℕ
  pub granularity : ℕ
  pub base_high : ℕ

unfoldable pub gdt_entry : ℕ → ℕ → ℕ → ℕ → GdtEntry
gdt_entry base limit access gran = record {
  limit_low = bit_and limit 0xffff;
  base_low = bit_and base 0xffff;
  base_middle = bit_and (base / 2 ^ 16) 0xff;
  access = access;
  granularity = bit_or (bit_and (limit / 2 ^ 16) 0x0f) (bit_and gran 0xf0);
  base_high = bit_and (base / 2 ^ 24) 0xff;
}

unfoldable pub gdt_set_gate : ℕ → ℕ → ℕ → ℕ → ℕ → List GdtEntry → List GdtEntry
gdt_set_gate num base limit access gran gdt = set gdt num (gdt_entry base limit access gran)

-- `struct gdt_ptr` with the table that it points to.
pub record Gdt : Type 0 where
  pub limit : ℕ
  pub base : ℕ
  pub entries : List GdtEntry

-- `location` is the address of the table, and `gdt` what is in its 5 places before.
unfoldable pub gdt_install : ℕ → List GdtEntry → Gdt
gdt_install location gdt = record {
  limit = 8 * 3 - 1;
  base = location;
  entries = gdt_set_gate 4 0 0xffff_ffff 0xf2 0xcf (
      gdt_set_gate 3 0 0xffff_ffff 0xfa 0xcf (
        gdt_set_gate 2 0 0xffff_ffff 0x92 0xcf
          (gdt_set_gate 1 0 0xffff_ffff 0x9a 0xcf (gdt_set_gate 0 0 0 0 0 gdt))));
}
