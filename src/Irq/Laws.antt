-- ===== src/Irq/Laws.antt =====
-- Handlers, acknowledgements and gates.
use shawn_os.Prelude.{
  ℕ, zero, suc, ◌+◌, ◌-◌, ◌/◌, ◌%◌, ◌^◌, ◌≤◌, ◌<◌, ◌≡◌, ◌≢◌, refl, ap, ◌∙◌, arith, false, List, [],
  ◌∷◌, leb, ◌==◌, if◌then◌else◌, get_or, set, length, length-set, get_or-set_self, get_or-set_ne,
}
use shawn_os.Irq.{
  called, out_byte, not_handled, install_handler, uninstall_handler, run_handler, irq_handler,
  IdtEntry, idt_set_gate, base_of, install_gates,
}

-- A line on which a handler is installed calls it, and then acknowledges the interrupt: at both
-- controllers, the second one first, from line 8 on, and only at the first one below. After the
-- handler is uninstalled the line calls nothing, and is acknowledged all the same.
irq_handler-install_handler :
    (irq handler : ℕ) (routines : List ℕ)
    → irq < 16
    → length routines ≡ 16
    → handler ≢ 0
    → let eoi =
        if leb 8 irq
        then out_byte 0xa0 0x20 ∷ out_byte 0x20 0x20 ∷ []
        else out_byte 0x20 0x20 ∷ [] in
      (irq_handler (32 + irq) (install_handler irq handler routines) ≡ called handler ∷ eoi)
      × (irq_handler (32 + irq) (uninstall_handler irq (install_handler irq handler routines))
          ≡ not_handled irq ∷ eoi)
unfolding irq_handler install_handler uninstall_handler run_handler
irq_handler-install_handler irq handler routines line places real =
    let slot : 32 + irq - 32 ≡ irq = omega arith in
    let set_up : (handler == 0) ≡ false = ground (arith, real) in
    let same_test : leb 40 (32 + irq) ≡ leb 8 irq = ground arith in
    let there = get_or-set_self routines irq handler 0 (omega arith) in
    let gone =
      get_or-set_self (set routines irq handler) irq 0 0
        (omega (arith, length-set routines irq handler)) in
    rw (slot, same_test) (rw (there, set_up) refl, rw gone refl)

-- The gates that are installed one behind the other leave those in front of them alone.
pub gates_below :
    (num k : ℕ) (stubs : List ℕ) (idt : List IdtEntry) (d : IdtEntry)
    → k < num
    → get_or (install_gates num stubs idt) k d ≡ get_or idt k d
unfolding install_gates idt_set_gate
gates_below num k [] idt d below = refl
gates_below num k (stub ∷ stubs) idt d below =
    gates_below (num + 1) k stubs _ d (omega arith) ∙ get_or-set_ne idt num k _ d (omega arith)

pub gates_above :
    (num k : ℕ) (stubs : List ℕ) (idt : List IdtEntry) (d : IdtEntry)
    → num + length stubs ≤ k
    → get_or (install_gates num stubs idt) k d ≡ get_or idt k d
unfolding install_gates idt_set_gate
gates_above num k [] idt d above = refl
gates_above num k (stub ∷ stubs) idt d above =
    gates_above (num + 1) k stubs _ d (omega arith) ∙ get_or-set_ne idt num k _ d (omega arith)

set_gate_base :
    (num base sel flags : ℕ) (idt : List IdtEntry) (d : IdtEntry)
    → num < length idt
    → base < 2 ^ 32
    → base_of (get_or (idt_set_gate num base sel flags idt) num d) ≡ base
unfolding idt_set_gate
set_gate_base num base sel flags idt d inside small =
    ap base_of (
      get_or-set_self idt num
        (record {
          base_lo = base % 2 ^ 16;
          sel = sel;
          always0 = 0;
          flags = flags;
          base_hi = base / 2 ^ 16 % 2 ^ 16;
        })
        d inside)
    ∙ omega arith

length-idt_set_gate :
    (num base sel flags : ℕ) (idt : List IdtEntry)
    → length (idt_set_gate num base sel flags idt) ≡ length idt
unfolding idt_set_gate
length-idt_set_gate num base sel flags idt = length-set idt num _

pub length-install_gates :
    (num : ℕ) (stubs : List ℕ) (idt : List IdtEntry)
    → length (install_gates num stubs idt) ≡ length idt
unfolding install_gates
length-install_gates num [] idt = refl
length-install_gates num (stub ∷ stubs) idt =
    length-install_gates (num + 1) stubs (idt_set_gate num stub 0x08 0x8e idt)
    ∙ length-idt_set_gate num stub 0x08 0x8e idt

-- `_irq_install` gives the interrupt 32 + i a gate to the i-th stub, whose address the gate's two
-- halves put together again.
pub base_of-install_gates :
    (num i : ℕ) (stubs : List ℕ) (idt : List IdtEntry) (d : IdtEntry)
    → i < length stubs
    → num + length stubs ≤ length idt
    → get_or stubs i 0 < 2 ^ 32
    → base_of (get_or (install_gates num stubs idt) (num + i) d) ≡ get_or stubs i 0
unfolding install_gates
base_of-install_gates num i [] idt d inside room small = absurd (omega arith)
base_of-install_gates num zero (stub ∷ stubs) idt d inside room small =
    ap
      (λ (k : ℕ).
        base_of (get_or (install_gates (num + 1) stubs (idt_set_gate num stub 0x08 0x8e idt)) k d))
      (omega arith)
    ∙ ap base_of
        (gates_below (num + 1) num stubs (idt_set_gate num stub 0x08 0x8e idt) d (omega arith))
    ∙ set_gate_base num stub 0x08 0x8e idt d (omega arith) small
base_of-install_gates num (suc i) (stub ∷ stubs) idt d inside room small =
    ap
      (λ (k : ℕ).
        base_of (get_or (install_gates (num + 1) stubs (idt_set_gate num stub 0x08 0x8e idt)) k d))
      (omega arith)
    ∙ base_of-install_gates (num + 1) i stubs (idt_set_gate num stub 0x08 0x8e idt) d (omega arith)
        (omega (arith, length-idt_set_gate num stub 0x08 0x8e idt)) small
