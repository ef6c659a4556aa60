-- ===== src/Boot/Early.antt =====
-- `kernel_early` of kernel/kernel/kernel.c: the whole start of the kernel.
pub mod Laws
use shawn_os.Prelude.{ℕ, ◌==◌, if◌then◌else◌, List, [], ◌∷◌, codes, Outcome, ok, ◌>>=◌}
use shawn_os.EarlyHeap.{EarlyHeap}
use shawn_os.MemoryMap.{MmapEntry, ElfSection, MultibootInfo}
use shawn_os.MemoryMap.Start.{known}
use shawn_os.Boot.{Booted, boot}
use shawn_os.Boot.Messages.{printk_debug}
use shawn_os.Textmode.{Textmode, initialize}
use shawn_os.Gdt.{Gdt, GdtEntry, gdt_install}
use shawn_os.Isr.{Idt, idt_install}
use shawn_os.Irq.{install_handler}
use shawn_os.Heap.{
  Heap, kheap_init, section_size_default, min_block_size_default, kheap_auto_expand,
}
use shawn_os.Pit.{Pit, Routine, set_timer_phase, timer_constant, install_scheduler_routine}
use shawn_os.Pckbd.{Driver, Pckbd, install_driver_irq}
use shawn_os.Pckbd.Us.{us_qwerty}
use shawn_os.Printf.{int32}

-- Where the linker puts functions and tables.
pub record Addresses : Type 0 where
  pub page_fault_handler : ℕ
  pub timer_handler : ℕ
  pub keyboard_handler : ℕ
  pub kernel_task : ℕ
  pub gdt : ℕ
  pub idt : ℕ
  pub isr_stubs : List ℕ
  pub irq_stubs : List ℕ

-- The variables of the parts that the start touches, besides those of the memory subsystem, as the
-- boot loader leaves them; `low_memory` is the 16-bit words from address 0 on.
pub record Machine : Type 0 where
  pub screen : Textmode
  pub low_memory : List ℕ
  pub gdt_entries : List GdtEntry
  pub isr_routines : List ℕ
  pub irq_routines : List ℕ
  pub pit : Pit
  pub pckbd : Pckbd

-- The same once the kernel has started; `phase` is what the timer was sent.
pub record Started : Type 0 where
  pub memory : Booted
  pub screen : Textmode
  pub low_memory : List ℕ
  pub gdt : Gdt
  pub idt : Idt
  pub kheap_default : Heap
  pub irq_routines : List ℕ
  pub pit : Pit
  pub phase : List (ℕ × ℕ)
  pub pckbd : Pckbd

-- `MULTIBOOT_BOOTLOADER_MAGIC`
abbrev pub bootloader_magic : ℕ
bootloader_magic = 0x2bad_b002

-- The message on a magic number that is not the boot loader's. It comes before
-- `vga_textmode_initialize` has set `vga_textmode_buffer`, which is `NULL` still, so that it is
-- written to the memory from address 0 on. The display and the memory at address 0 after it.
unfoldable pub check_magic : ℕ → Textmode → List ℕ → Textmode × List ℕ
check_magic mboot_magic t low_memory =
    let written =
      printk_debug (codes "Invalid Multiboot Magic!") [] (record t { buffer = low_memory }) in
    if mboot_magic == bootloader_magic
    then (t, low_memory)
    else (record written { buffer = t.buffer }, written.buffer)

-- The messages from then on; `heap_start` is printed by `i386_mem_init`.
unfoldable pub messages : ℕ → Textmode → Textmode
messages heap_start t =
    let tables =
      printk_debug (codes "IDT Installed!") []
        (printk_debug (codes "GDT Installed!") [] (initialize t)) in
    let memory =
      printk_debug (codes "Memory Allocation functions enabled!") []
        (printk_debug (codes "Heap started at 0x%x") (int32 heap_start ∷ []) tables) in
    printk_debug (codes "Interrupts Enabled!") [] (printk_debug (codes "Paging enabled!") [] memory)

unfoldable pub pit_timer_install_irq : ℕ → List ℕ → Outcome (List (ℕ × ℕ) × List ℕ)
pit_timer_install_irq handler irq_routines = do
  phase ← set_timer_phase timer_constant
  ok (phase, install_handler 0 handler irq_routines)

unfoldable pub pckbd_install_irq : ℕ → Driver → List ℕ → Pckbd → List ℕ × Pckbd
pckbd_install_irq handler driver irq_routines k =
    (install_handler 1 handler irq_routines, install_driver_irq driver k)

-- What the drivers and the heap leave, behind the memory subsystem. What the memory subsystem reads
-- is taken to be there as it is, also where the message on the magic number has been written.
unfoldable pub install_rest : Addresses → ℕ → ℕ → Machine → Booted → List (ℕ × ℕ) → List ℕ → Started
install_rest a mboot_magic heap_start s booted phase with_timer =
    let (checked, low_memory) = check_magic mboot_magic s.screen s.low_memory in
    let (irq_routines, pckbd) = pckbd_install_irq a.keyboard_handler us_qwerty with_timer s.pckbd in
    let (index, pit) =
      install_scheduler_routine (record { hz = timer_constant; func = a.kernel_task }) s.pit in
    record {
      memory = booted;
      screen = messages heap_start checked;
      low_memory = low_memory;
      gdt = gdt_install a.gdt s.gdt_entries;
      idt = idt_install a.idt a.isr_stubs a.irq_stubs;
      kheap_default = kheap_init section_size_default min_block_size_default kheap_auto_expand;
      irq_routines = irq_routines;
      pit = pit;
      phase = phase;
      pckbd = pckbd;
    }

unfoldable pub kernel_early :
    Addresses
    → (ℕ → MmapEntry)
    → (ℕ → ElfSection)
    → (ℕ → List ℕ)
    → (ℕ → ℕ → ℕ)
    → ℕ
    → MultibootInfo
    → Machine
    → Outcome Started
kernel_early a entry_at section_at words_at memory mboot_magic h s = do
  booted ← boot a.page_fault_handler entry_at section_at words_at memory h s.isr_routines
  (phase, with_timer) ← pit_timer_install_irq a.timer_handler s.irq_routines
  ok (install_rest a mboot_magic (known section_at h).kernel_heap_start s booted phase with_timer)
