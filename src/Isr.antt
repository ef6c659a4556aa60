-- ===== src/Isr.antt =====
-- kernel/arch/i386/isr.c and `idt_install` of kernel/arch/i386/descriptors/idt.c: the exceptions.
-- `isr_routines` is a list of 32 addresses, 0 for none. The stubs of the exceptions and of the
-- interrupt requests are lists of addresses; loading the table into the processor is assembly.
pub mod Laws
mod Tests
use shawn_os.Prelude.{
  ℕ, zero, suc, ◌+◌, ◌-◌, ◌*◌, ◌==◌, if◌then◌else◌, List, [], ◌∷◌, ◌++◌, Option, none, some, get_or,
  set, replicate, codes,
}
use shawn_os.Irq.{Event, IdtEntry, install_gates, irq_install}
use shawn_os.Textmode.{Textmode, setcolor, writestring}
use shawn_os.Printf.{int32, printf}

-- The registers that a handler prints, of `struct i386_registers`.
pub record Registers : Type 0 where
  pub int_no : ℕ
  pub err_code : ℕ
  pub eip : ℕ
  pub esp : ℕ

unfoldable pub isr_install_handler : ℕ → ℕ → List ℕ → List ℕ
isr_install_handler isr handler routines = set routines isr handler

-- `stubs` holds the addresses of `_isr0` to `_isr31`, in order.
unfoldable pub isr_install : List ℕ → List IdtEntry → List IdtEntry
isr_install stubs idt = install_gates 0 stubs idt

-- `struct idt_ptr` and the table, with what is sent to the interrupt controllers.
pub record Idt : Type 0 where
  pub limit : ℕ
  pub base : ℕ
  pub entries : List IdtEntry
  pub events : List Event

-- The table is wiped: each field of its 256 entries of 8 bytes is 0.
abbrev pub wiped : List IdtEntry
wiped = replicate 256 (record { base_lo = 0; sel = 0; always0 = 0; flags = 0; base_hi = 0 })

-- `location` is the address of the table.
unfoldable pub idt_install : ℕ → List ℕ → List ℕ → Idt
idt_install location isr_stubs irq_stubs =
    let (events, entries) = irq_install irq_stubs (isr_install isr_stubs wiped) in
    record { limit = 8 * 256 - 1; base = location; entries = entries; events = events }

abbrev reserved_message : List ℕ
reserved_message = codes "Exception: INTEL RESERVED EXCEPTION"

-- Where the source has no comma, two literals make one string.
abbrev pub exception_messages : List (List ℕ)
exception_messages =
    codes "Exception: division by zero"
    ∷ codes "Exception: debug exception"
    ∷ codes "Exception: non-maskable interrupt"
    ∷ codes "Exception: breakpoint"
    ∷ codes "Exception: overflow"
    ∷ codes "Exception: out of bounds"
    ∷ codes "Exception: invalid opcode"
    ∷ codes "Exception: no coprocessor"
    ∷ codes "Exception: double fault"
    ∷ codes "Exception: coprocessor segment overrun"
    ∷ codes "Exception: bad TSS"
    ∷ codes "Exception: segment not present"
    ∷ codes "Exception: STACK FAULT"
    ∷ codes "Exception: GENERAL PROTECTION FAULT"
    ∷ codes "Exception: PAGE FAULT"
    ∷ codes "Exception: unknown interrupt"
    ∷ (codes "Exception: COPROCESSOR FAULT" ++ codes "Exception: alignment check")
    ∷ (codes "Exception: machine check" ++ reserved_message)
    ∷ replicate 12 reserved_message

-- `exception_messages[i]`, and `none` for an index behind the end of the array.
unfoldable pub message_at : List (List ℕ) → ℕ → Option (List ℕ)
message_at [] i = none
message_at (m ∷ messages) zero = some m
message_at (m ∷ messages) (suc i) = message_at messages i

abbrev pub color_red : ℕ
color_red = 4

-- The generic handler: what is on the screen when it stops the kernel.
unfoldable pub report : Registers → List ℕ → Textmode → Textmode
report r message t = printf (codes "\nHALT\n") [] (
    printf (codes "Error Code: %d\n") (int32 r.err_code ∷ []) (
      printf (codes "ESP: 0x%x\n") (int32 r.esp ∷ []) (
        printf (codes "EIP: 0x%x\n") (int32 r.eip ∷ []) (
          writestring (codes "\n\nStack Dump:\n")
            (writestring message (writestring (codes "\n") (setcolor color_red t)))))))

-- What an exception leads to: the handler that it calls, the screen on which `abort` stops, or a
-- read behind the array of messages.
pub data Fault : Type 0 where
  called : ℕ → Fault
  halted : Textmode → Fault
  out_of_bounds : Fault

-- `abort` of libsc/stdlib/abort.c, up to the point where it stops.
unfoldable pub panic_message : Textmode → Textmode
panic_message t = printf (codes "Kernel Panic: abort()\n") [] t

unfoldable pub fault_handler : List ℕ → Registers → Textmode → Fault
fault_handler routines r t =
    let handler = get_or routines r.int_no 0 in
    if handler == 0
    then (elim (message_at exception_messages r.int_no) [
      | none ↦ out_of_bounds
      | some message ↦ halted (panic_message (report r message t))
    ])
    else called handler
