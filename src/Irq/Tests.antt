-- ===== src/Irq/Tests.antt =====
-- The theorems on interrupts at the keyboard's line and at two gates.
use shawn_os.Irq.{IdtEntry}

abbrev empty_gate : IdtEntry
empty_gate = record { base_lo = 0; sel = 0; always0 = 0; flags = 0; base_hi = 0 }
