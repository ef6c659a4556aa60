-- ===== src/Gdt/Laws.antt =====
-- What the processor reads from a descriptor.
use shawn_os.Prelude.{
  ℕ, ◌+◌, ◌*◌, ◌/◌, ◌%◌, ◌^◌, ◌<◌, ◌≡◌, ◌==◌, if◌then◌else◌, refl, ap, ◌∙◌, arith, bit_and, bit_or,
  List, set, get_or, length, get_or-set_self, get_or-set_ne,
}
use native.Mathlib.Decide.{ℕ_discrete}
use shawn_os.Bits.{bit_and-low, bit_and-high, bit_or-low, bit_or_comm}
use shawn_os.Gdt.{GdtEntry, gdt_entry, gdt_set_gate}

-- The base address, the 20 bits of the limit and the 4 flags above them.
abbrev pub base_of : GdtEntry → ℕ
base_of e = e.base_low + e.base_middle * 2 ^ 16 + e.base_high * 2 ^ 24

abbrev pub limit_of : GdtEntry → ℕ
limit_of e = e.limit_low + e.granularity % 16 * 2 ^ 16

abbrev pub flags_of : GdtEntry → ℕ
flags_of e = e.granularity / 16

packed :
    (limit gran : ℕ)
    → gran < 256
    → bit_or (bit_and (limit / 2 ^ 16) 0x0f) (bit_and gran 0xf0)
      ≡ gran / 16 * 16 + limit / 2 ^ 16 % 16
packed limit gran small =
    let high : bit_and gran 0xf0 ≡ gran / 16 * 2 ^ 4 =
      omega (arith, bit_and-high 8 4 gran (omega arith) small) in
    let low : bit_and (limit / 2 ^ 16) 0x0f ≡ limit / 2 ^ 16 % 2 ^ 4 =
      bit_and-low 4 (limit / 2 ^ 16) in
    rw (high, low)
      (bit_or_comm (limit / 2 ^ 16 % 2 ^ 4) (gran / 16 * 2 ^ 4)
        ∙ bit_or-low 4 (gran / 16) (limit / 2 ^ 16 % 2 ^ 4) (omega arith)
        ∙ omega arith)

entry_lem :
    (base limit access gran : ℕ)
    → base < 2 ^ 32
    → gran < 256
    → let e = gdt_entry base limit access gran in
      (base_of e ≡ base)
      × (limit_of e ≡ limit % 2 ^ 20)
      × (flags_of e ≡ gran / 16)
      × (e.access ≡ access)
unfolding gdt_entry
entry_lem base limit access gran small byte = (
  omega (arith, bit_and-low 16 base, bit_and-low 8 (base / 2 ^ 16), bit_and-low 8 (base / 2 ^ 24)),
  omega (arith, bit_and-low 16 limit, packed limit gran byte),
  omega (arith, packed limit gran byte),
  refl,
)

-- A descriptor that `_gdt_set_gate` stores in the table gives the processor back what it was made
-- from: the 32-bit base, the low 20 bits of the limit, the upper 4 bits of the byte `gran` and the
-- access byte. The other descriptors stay.
pub gdt_set_gate_lem :
    (num base limit access gran : ℕ) (gdt : List GdtEntry) (d : GdtEntry)
    → num < length gdt
    → base < 2 ^ 32
    → gran < 256
    → let gdt' = gdt_set_gate num base limit access gran gdt in
      let e = get_or gdt' num d in
      (base_of e ≡ base)
      × (limit_of e ≡ limit % 2 ^ 20)
      × (flags_of e ≡ gran / 16)
      × (e.access ≡ access)
      × ((k : ℕ) → get_or gdt' k d ≡ (if num == k then e else get_or gdt k d))
unfolding gdt_set_gate
gdt_set_gate_lem num base limit access gran gdt d inside small byte =
    let there = get_or-set_self gdt num (gdt_entry base limit access gran) d inside in
    let l = entry_lem base limit access gran small byte in
    (
      ap base_of there ∙ l.0,
      ap limit_of there ∙ l.1,
      ap flags_of there ∙ l.2,
      ap (λ (e : GdtEntry). e.access) there ∙ l.3,
      λ k. elim (ℕ_discrete num k) [
        | yes same ↦ ground (
          arith,
          ap (λ (j : ℕ). get_or (set gdt num (gdt_entry base limit access gran)) j d) same,
        )
        | no ne ↦ ground (arith, get_or-set_ne gdt num k (gdt_entry base limit access gran) d ne)
      ],
    )
