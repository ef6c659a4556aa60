-- ===== src/Isr/Laws.antt =====
-- Which gate an exception goes through, and what handles it.
use shawn_os.Prelude.{
  ℕ, zero, suc, ◌-◌, ◌^◌, ◌≤◌, ◌<◌, ◌≡◌, ◌≢◌, refl, ap, sym, ◌∙◌, arith, false, true, List, [], ◌∷◌,
  ◌++◌, ◌==◌, if◌then◌else◌, none, get_or, set, length, get_or-replicate_below, get_or-set_self,
  get_or-set_ne, get_or-append_left, get_or-append_right, ◌⊎◌, inl, inr,
}
use native.Mathlib.Decide.{ℕ_discrete}
use shawn_os.Irq.{IdtEntry, base_of, install_gates, irq_install}
use shawn_os.Irq.Laws.{base_of-install_gates, gates_below, gates_above, length-install_gates}
use shawn_os.Textmode.{Textmode}
use shawn_os.Isr.{
  Registers, isr_install_handler, isr_install, wiped, idt_install, exception_messages, message_at,
  called, out_of_bounds, fault_handler,
}

-- Once a handler is installed for an exception, the exception calls it, and every other one does
-- what it did before.
fault_handler-isr_install_handler :
    (isr handler : ℕ) (routines : List ℕ) (r : Registers) (t : Textmode)
    → isr < length routines
    → handler ≢ 0
    → fault_handler (isr_install_handler isr handler routines) r t
      ≡ (if isr == r.int_no then called handler else fault_handler routines r t)
unfolding fault_handler isr_install_handler
fault_handler-isr_install_handler isr handler routines r t inside real =
    let set_up : (handler == 0) ≡ false = ground (arith, real) in
    elim (ℕ_discrete isr r.int_no) [
      | yes e ↦
          let same : (isr == r.int_no) ≡ true = ground arith in
          rw
            (
              same,
              ap (λ (k : ℕ). get_or (set routines isr handler) k 0) (sym e)
                  ∙ get_or-set_self routines isr handler 0 inside,
              set_up,
            )
            refl
      | no ne ↦
          let other : (isr == r.int_no) ≡ false = ground arith in
          rw (other, get_or-set_ne routines isr r.int_no handler 0 ne) refl
    ]

behind_messages :
    (messages : List (List ℕ)) (i : ℕ) → length messages ≤ i → message_at messages i ≡ none
unfolding message_at
behind_messages [] i behind = refl
behind_messages (m ∷ messages) zero behind = absurd (omega arith)
behind_messages (m ∷ messages) (suc i) behind = behind_messages messages i (omega arith)

-- Two commas are missing between the messages, so that there are 30: an exception from number 30 on
-- that has no handler reads its message behind the end of the array.
fault_handler_out_of_bounds :
    (routines : List ℕ) (r : Registers) (t : Textmode)
    → get_or routines r.int_no 0 ≡ 0
    → 30 ≤ r.int_no
    → fault_handler routines r t ≡ out_of_bounds
unfolding fault_handler
fault_handler_out_of_bounds routines r t free behind =
    rw (free, behind_messages exception_messages r.int_no behind) refl

at_least : (n i : ℕ) → (n ≤ i) ⊎ (i < n)
at_least n i = ground arith

-- In the table that `idt_install` leaves, from 32 stubs of exceptions and 16 of interrupt requests
-- at 32-bit addresses, entry i below 48 leads to the i-th of all the stubs, the exceptions first.
pub idt_install_lem :
    (location i : ℕ) (isr_stubs irq_stubs : List ℕ) (d : IdtEntry)
    → length isr_stubs ≡ 32
    → length irq_stubs ≡ 16
    → i < 48
    → get_or (isr_stubs ++ irq_stubs) i 0 < 2 ^ 32
    → base_of (get_or (idt_install location isr_stubs irq_stubs).entries i d)
      ≡ get_or (isr_stubs ++ irq_stubs) i 0
unfolding idt_install isr_install irq_install
idt_install_lem location i isr_stubs irq_stubs d isrs irqs inside small =
    let table = install_gates 0 isr_stubs wiped in
    let places : length table ≡ 256 = length-install_gates 0 isr_stubs wiped in
    elim (at_least 32 i) [
      | inl high ↦
          let at : get_or (isr_stubs ++ irq_stubs) i 0 ≡ get_or irq_stubs (i - 32) 0 =
            get_or-append_right isr_stubs irq_stubs i 0 (omega arith)
            ∙ ap (λ (n : ℕ). get_or irq_stubs (i - n) 0) isrs in
          ap (λ (k : ℕ). base_of (get_or (install_gates 32 irq_stubs table) k d)) (omega arith)
          ∙ base_of-install_gates 32 (i - 32) irq_stubs table d (omega arith) (omega arith)
              (omega arith)
          ∙ sym at
      | inr low ↦
          let at : get_or (isr_stubs ++ irq_stubs) i 0 ≡ get_or isr_stubs i 0 =
            get_or-append_left isr_stubs irq_stubs i 0 (omega arith) in
          ap base_of (gates_below 32 i irq_stubs table d low)
          ∙ ap (λ (k : ℕ). base_of (get_or table k d)) (omega arith)
          ∙ base_of-install_gates 0 i isr_stubs wiped d (omega arith) (omega arith) (omega arith)
          ∙ sym at
    ]

-- The entries from 48 on are not present.
idt_install_absent :
    (location i : ℕ) (isr_stubs irq_stubs : List ℕ) (d : IdtEntry)
    → length isr_stubs ≡ 32
    → length irq_stubs ≡ 16
    → 48 ≤ i
    → i < 256
    → (get_or (idt_install location isr_stubs irq_stubs).entries i d).flags ≡ 0
unfolding idt_install isr_install irq_install
idt_install_absent location i isr_stubs irq_stubs d isrs irqs above inside =
    ap (λ (e : IdtEntry). e.flags)
      (gates_above 32 i irq_stubs (install_gates 0 isr_stubs wiped) d (omega arith)
        ∙ gates_above 0 i isr_stubs wiped d (omega arith)
        ∙ get_or-replicate_below 256 i _ d inside)
