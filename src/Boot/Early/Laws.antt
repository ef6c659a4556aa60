-- ===== src/Boot/Early/Laws.antt =====
-- What the kernel does on an interrupt once it has started.
use shawn_os.Prelude.{
  ℕ, ◌%◌, ◌≡◌, ◌≢◌, refl, arith, List, [], ◌∷◌, ◌==◌, if◌then◌else◌, length, length-set, set,
  get_or-set_self, get_or-set_ne, ok, false, ◌∙◌, sym,
}
use mathlib.Core.Path.{subst}
use shawn_os.Kernel.{add32}
use shawn_os.MemoryMap.Start.{known}
use shawn_os.MemoryMap.{MmapEntry, ElfSection, MultibootInfo}
use shawn_os.Boot.{Booted, boot}
use shawn_os.Boot.Early.{
  Addresses, Machine, Started, kernel_early, install_rest, check_magic, bootloader_magic,
  pit_timer_install_irq, pckbd_install_irq,
}
use shawn_os.Irq.{called, out_byte, install_handler, run_handler, irq_handler}
use shawn_os.Heap.{kheap_init}
use shawn_os.Heap.Blocks.{IsHeap}
use shawn_os.Pit.{
  Pit, Routine, no_routine, timer_constant, take_turn, set_timer_phase, install_scheduler_routine,
  trigger, irq_timer_handler,
}

-- Every 1000th tick calls the kernel's task, and the others call nothing.
abbrev pub Ticks : ℕ → Pit → Type 0
Ticks task p =
    (n : ℕ)
    → irq_timer_handler 32 (record p { total_ticks = n })
      ≡ ok (if add32 n 1 % 1000 == 0 then task ∷ [] else [], record p { total_ticks = add32 n 1 })

-- The interrupts of the timer and of the keyboard reach their handlers, every 1000th tick calls
-- the kernel's task and no other tick calls anything, the empty heap is sound, and the memory at
-- address 0 is as it was.
pub record Ready (a : Addresses) (s : Machine) (b : Booted) (r : Started) : Type 0 where
  pub memory : r.memory ≡ b
  pub timer : irq_handler 32 r.irq_routines ≡ called a.timer_handler ∷ out_byte 0x20 0x20 ∷ []
  pub keyboard : irq_handler 33 r.irq_routines ≡ called a.keyboard_handler ∷ out_byte 0x20 0x20 ∷ []
  pub rate : r.phase ≡ (0x43, 0x36) ∷ (0x40, 1193 % 256) ∷ (0x40, 4) ∷ []
  pub ticks : Ticks a.kernel_task r.pit
  pub heap : IsHeap r.kheap_default
  pub low : r.low_memory ≡ s.low_memory

-- The handlers of the lines 0 and 1.
lines :
    (timer keyboard : ℕ) (routines : List ℕ)
    → length routines ≡ 16
    → timer ≢ 0
    → keyboard ≢ 0
    → (irq_handler 32 (install_handler 1 keyboard (install_handler 0 timer routines))
        ≡ called timer ∷ out_byte 0x20 0x20 ∷ [])
      × (irq_handler 33 (install_handler 1 keyboard (install_handler 0 timer routines))
          ≡ called keyboard ∷ out_byte 0x20 0x20 ∷ [])
unfolding irq_handler install_handler run_handler
lines timer keyboard routines places real_timer real_keyboard =
    let zeroth =
      get_or-set_ne (set routines 0 timer) 1 0 keyboard 0 (omega arith)
      ∙ get_or-set_self routines 0 timer 0 (omega arith) in
    let first =
      get_or-set_self (set routines 0 timer) 1 keyboard 0
        (omega (arith, length-set routines 0 timer)) in
    let set_up : (timer == 0) ≡ false = ground (arith, real_timer) in
    let set_up' : (keyboard == 0) ≡ false = ground (arith, real_keyboard) in
    (rw (zeroth, set_up) refl, rw (first, set_up') refl)

-- The first routine in an empty table.
abbrev with_task : ℕ → List Routine → ℕ → Pit
with_task task routines ticks = record {
  routines = set routines 0 (record { hz = timer_constant; func = task });
  size = 1;
  total_ticks = ticks;
}

installs :
    (task : ℕ) (routines : List Routine) (size ticks : ℕ)
    → size ≡ 0
    → install_scheduler_routine
        (record { hz = timer_constant; func = task })
        (record { routines = routines; size = size; total_ticks = ticks })
      ≡ (0, with_task task routines ticks)
unfolding install_scheduler_routine
installs task routines size ticks e = rw e refl

task_ticks :
    (task : ℕ) (routines : List Routine) (ticks : ℕ)
    → length routines ≡ 64
    → Ticks task (with_task task routines ticks)
unfolding irq_timer_handler trigger take_turn
task_ticks task routines ticks places n =
    rw
      (get_or-set_self routines 0 (record { hz = timer_constant; func = task }) no_routine
        (omega arith))
      refl

-- `kernel_early`, with the magic number of a multiboot loader, where the memory subsystem starts, from
-- an empty table of 64 timer routines and 16 interrupt lines, with handlers that are not at address
-- 0: the kernel starts. From then on the timer's and the keyboard's interrupts call their handlers
-- and are acknowledged, the timer is set to 1193180 / 1000, every 1000th tick calls the kernel's
-- task and the other ticks nothing, the kernel's heap is sound, and the memory at address 0 is as it
-- was.
pub kernel_early-Ready :
    (a : Addresses) (entry_at : ℕ → MmapEntry) (section_at : ℕ → ElfSection) (words_at : ℕ → List ℕ)
    (memory : ℕ → ℕ → ℕ) (h : MultibootInfo) (s : Machine) (b : Booted)
    → boot a.page_fault_handler entry_at section_at words_at memory h s.isr_routines ≡ ok b
    → length s.irq_routines ≡ 16
    → a.timer_handler ≢ 0
    → a.keyboard_handler ≢ 0
    → s.pit.size ≡ 0
    → length s.pit.routines ≡ 64
    → (r : Started) × (kernel_early a entry_at section_at words_at memory bootloader_magic h s
        ≡ ok r)
      × Ready a s b r
unfolding kernel_early install_rest check_magic pit_timer_install_irq pckbd_install_irq
    set_timer_phase kheap_init
kernel_early-Ready a entry_at section_at words_at memory h s b starts lines_16 timer keyboard
      none_yet places =
    (
      install_rest a bootloader_magic (known section_at h).kernel_heap_start s b
          ((0x43, 0x36) ∷ (0x40, 1193 % 256) ∷ (0x40, 4) ∷ [])
          (install_handler 0 a.timer_handler s.irq_routines),
      rw starts refl,
      record {
        memory = refl;
        timer = (lines a.timer_handler a.keyboard_handler s.irq_routines lines_16 timer keyboard).0;
        keyboard =
            (lines a.timer_handler a.keyboard_handler s.irq_routines lines_16 timer keyboard).1;
        rate = refl;
        ticks =
            subst (λ (x : ℕ × Pit). Ticks a.kernel_task x.1)
              (sym (installs a.kernel_task s.pit.routines s.pit.size s.pit.total_ticks none_yet))
              (task_ticks a.kernel_task s.pit.routines s.pit.total_ticks places);
        heap = record { section = refl; blocks_in = tt; disjoint = tt; counted = refl };
        low = refl;
      },
    )
