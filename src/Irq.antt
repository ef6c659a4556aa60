-- ===== src/Irq.antt =====
-- kernel/arch/i386/irq.c and the gates of kernel/arch/i386/descriptors/idt.c.
-- A handler is an address, 0 for none; `events` is what an interrupt does, in order: the handler
-- that it calls and the bytes that it sends to the controllers.
pub mod Laws
mod Tests
use shawn_os.Prelude.{
  ℕ, zero, suc, ◌+◌, ◌-◌, ◌*◌, ◌/◌, ◌%◌, ◌^◌, List, [], ◌∷◌, ◌++◌, ltb, leb, ◌==◌, true, false,
  if◌then◌else◌, get_or, set,
}

pub data Event : Type 0 where
  called : ℕ → Event
  out_byte : ℕ → ℕ → Event
  not_handled : ℕ → Event

-- `irq_routines`, 16 places.
unfoldable pub install_handler : ℕ → ℕ → List ℕ → List ℕ
install_handler irq handler routines = set routines irq handler

unfoldable pub uninstall_handler : ℕ → List ℕ → List ℕ
uninstall_handler irq routines = set routines irq 0

-- Both controllers are set up to raise interrupts 32 to 47.
unfoldable pub irq_remap : List Event
irq_remap =
    out_byte 0x20 0x11
    ∷ out_byte 0xa0 0x11
    ∷ out_byte 0x21 0x20
    ∷ out_byte 0xa1 0x28
    ∷ out_byte 0x21 0x04
    ∷ out_byte 0xa1 0x02
    ∷ out_byte 0x21 0x01
    ∷ out_byte 0xa1 0x01
    ∷ out_byte 0x21 0x0
    ∷ out_byte 0xa1 0x0
    ∷ []

unfoldable pub run_handler : ℕ → List ℕ → Event
run_handler irq routines =
    let handler = get_or routines irq 0 in if handler == 0 then not_handled irq else called handler

-- `_irq_handler` on the interrupt `int_no`.
unfoldable pub irq_handler : ℕ → List ℕ → List Event
irq_handler int_no routines =
    run_handler (int_no - 32) routines
    ∷ (if leb 40 int_no
        then out_byte 0xa0 0x20 ∷ out_byte 0x20 0x20 ∷ []
        else out_byte 0x20 0x20 ∷ [])

-- `struct idt_entry`
pub record IdtEntry : Type 0 where
  pub base_lo : ℕ
  pub sel : ℕ
  pub always0 : ℕ
  pub flags : ℕ
  pub base_hi : ℕ

-- `_idt_set_gate`, without the copy for debugging.
unfoldable pub idt_set_gate : ℕ → ℕ → ℕ → ℕ → List IdtEntry → List IdtEntry
idt_set_gate num base sel flags idt = set idt num (record {
  base_lo = base % 2 ^ 16;
  sel = sel;
  always0 = 0;
  flags = flags;
  base_hi = base / 2 ^ 16 % 2 ^ 16;
})

-- The address that the processor reads from a gate.
abbrev pub base_of : IdtEntry → ℕ
base_of e = e.base_lo + e.base_hi * 2 ^ 16

-- `stubs` holds the addresses of `_irq0` to `_irq15`, in order.
unfoldable pub install_gates : ℕ → List ℕ → List IdtEntry → List IdtEntry
install_gates num [] idt = idt
install_gates num (stub ∷ stubs) idt =
    install_gates (num + 1) stubs (idt_set_gate num stub 0x08 0x8e idt)

unfoldable pub irq_install : List ℕ → List IdtEntry → List Event × List IdtEntry
irq_install stubs idt = (irq_remap, install_gates 32 stubs idt)
