-- ===== src/Pit.antt =====
-- kernel/drivers/pc/pit.c: the routines that the timer's interrupt calls.
-- A routine is the address of its function, and a call of it is the address in a list, the first
-- call first: the routines themselves, and what they do to this table, are not part of the state.
pub mod Laws
pub mod Wait
mod Tests
use shawn_os.Prelude.{
  ℕ, zero, suc, ◌+◌, ◌-◌, ◌*◌, ◌/◌, ◌%◌, ◌^◌, List, [], ◌∷◌, ltb, leb, ◌==◌, not, true, false,
  if◌then◌else◌, get_or, set, Outcome, ok, abort, ◌>>=◌, ◌>>◌, assert,
}
use shawn_os.Kernel.{add32}

abbrev pub timer_constant : ℕ
timer_constant = 1000

-- `struct pit_routine`
pub record Routine : Type 0 where
  pub hz : ℕ
  pub func : ℕ

pub record Pit : Type 0 where
  pub routines : List Routine
  pub size : ℕ
  pub total_ticks : ℕ

abbrev pub no_routine : Routine
no_routine = record { hz = 0; func = 0 }

-- The index, or -1 as a `uint16_t`.
unfoldable pub install_scheduler_routine : Routine → Pit → ℕ × Pit
install_scheduler_routine r p =
    if leb 64 p.size
    then (0xffff, p)
    else (p.size, record p { routines = set p.routines p.size r; size = (p.size + 1) % 2 ^ 16 })

unfoldable pub uninstall_scheduler_routine : ℕ → Pit → Pit
uninstall_scheduler_routine index p = record p {
  routines = set p.routines index (record (get_or p.routines index no_routine) { hz = 0 });
}

-- `1193180 / hz` as an `int16_t`, whose argument is one too; a division by 0 is a fault. The ports
-- and bytes are those of the three `outportb`, in order.
unfoldable pub set_timer_phase : ℕ → Outcome (List (ℕ × ℕ))
set_timer_phase hz =
    assert (not (hz == 0))
    >> (let divisor =
          if ltb hz (2 ^ 15)
          then 1193180 / hz % 2 ^ 16
          else (2 ^ 32 - 1193180 / (2 ^ 16 - hz)) % 2 ^ 16 in
        ok ((0x43, 0x36) ∷ (0x40, divisor % 256) ∷ (0x40, divisor / 256) ∷ []))

-- A routine's turn in a tick; `%` by a rate of 0 is a fault of the processor.
unfoldable pub take_turn : ℕ → Routine → Outcome (List ℕ) → Outcome (List ℕ)
take_turn ticks r rest =
    if r.hz == 0
    then abort
    else (rest >>= λ calls. ok (if ticks % r.hz == 0 then r.func ∷ calls else calls))

-- The loop over the routines from `i` on.
unfoldable pub trigger : ℕ → ℕ → ℕ → List Routine → Outcome (List ℕ)
trigger zero i ticks routines = ok []
trigger (suc left) i ticks routines =
    take_turn ticks (get_or routines i no_routine) (trigger left (i + 1) ticks routines)

-- Any interrupt but 32 ends in `abort()`.
unfoldable pub irq_timer_handler : ℕ → Pit → Outcome (List ℕ × Pit)
irq_timer_handler int_no p =
    assert (int_no == 32)
    >> (trigger p.size 0 (add32 p.total_ticks 1) p.routines >>= λ calls.
        ok (calls, record p { total_ticks = add32 p.total_ticks 1 }))

unfoldable pub get_total_ticks : Pit → ℕ
get_total_ticks p = p.total_ticks
