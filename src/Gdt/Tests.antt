-- ===== src/Gdt/Tests.antt =====
-- The descriptors that the kernel installs.
use shawn_os.Prelude.{
  ℕ, ◌-◌, ◌*◌, ◌/◌, ◌==◌, if◌then◌else◌, ◌≡◌, refl, arith, List, get_or, replicate,
}
use shawn_os.Gdt.{GdtEntry, gdt_entry, gdt_set_gate, gdt_install}
use shawn_os.Gdt.Laws.{base_of, limit_of, flags_of, gdt_set_gate_lem}

abbrev empty_entry : GdtEntry
empty_entry = record {
  limit_low = 0;
  base_low = 0;
  base_middle = 0;
  access = 0;
  granularity = 0;
  base_high = 0;
}

abbrev empty_table : List GdtEntry
empty_table = replicate 5 empty_entry

kernel_code : get_or (gdt_install 0x8000 empty_table).entries 1 empty_entry ≡ record {
  limit_low = 0xffff;
  base_low = 0;
  base_middle = 0;
  access = 0x9a;
  granularity = 0xcf;
  base_high = 0;
}
unfolding gdt_install gdt_set_gate gdt_entry
kernel_code = refl

-- The limit that is loaded ends behind the third of the five descriptors.
three_descriptors : (gdt_install 0x8000 empty_table).limit ≡ 3 * 8 - 1
unfolding gdt_install
three_descriptors = refl

gdt_set_gate_lem_example :
    let gdt = gdt_set_gate 1 0x1234_5678 0xf_ffff 0x9a 0xcf empty_table in
    let e = get_or gdt 1 empty_entry in
    (base_of e ≡ 0x1234_5678)
    × (limit_of e ≡ 0xf_ffff)
    × (flags_of e ≡ 0xcf / 16)
    × (e.access ≡ 0x9a)
    × ((k : ℕ)
        → get_or gdt k empty_entry ≡ (if 1 == k then e else get_or empty_table k empty_entry))
gdt_set_gate_lem_example =
    gdt_set_gate_lem 1 0x1234_5678 0xf_ffff 0x9a 0xcf empty_table empty_entry (omega arith)
      (omega arith) (omega arith)
