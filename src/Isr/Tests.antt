-- ===== src/Isr/Tests.antt =====
-- The exceptions with given handlers and stubs.
use shawn_os.Prelude.{
  ℕ, zero, suc, ◌+◌, ◌≡◌, refl, arith, List, [], ◌∷◌, ◌++◌, some, codes, get_or, replicate,
}
use shawn_os.Irq.{IdtEntry, base_of}
use shawn_os.Textmode.{Textmode}
use shawn_os.Isr.{Registers, idt_install, exception_messages, message_at}
use shawn_os.Isr.Laws.{idt_install_lem}

abbrev screen : Textmode
screen = record { row = 0; column = 0; color = 7; buffer = replicate 2000 0; ports = [] }

abbrev registers : ℕ → Registers
registers int_no = record { int_no = int_no; err_code = 2; eip = 0x10_0000; esp = 0x17_0000 }

abbrev stubs : ℕ → ℕ → List ℕ
stubs zero address = []
stubs (suc n) address = address ∷ stubs n (address + 16)

abbrev no_entry : IdtEntry
no_entry = record { base_lo = 0; sel = 0; always0 = 0; flags = 0; base_hi = 0 }

-- The message of an alignment check is that of a machine check, followed by a third one.
shifted :
    message_at exception_messages 17
    ≡ some (codes "Exception: machine check" ++ codes "Exception: INTEL RESERVED EXCEPTION")
unfolding message_at
shifted = refl

idt_install_lem_example :
    base_of
      (get_or (idt_install 0x8000 (stubs 32 0x10_0000) (stubs 16 0x11_0000)).entries 33 no_entry)
    ≡ 0x11_0010
idt_install_lem_example =
    idt_install_lem 0x8000 33 (stubs 32 0x10_0000) (stubs 16 0x11_0000) no_entry refl refl
      (omega arith) (omega arith)
