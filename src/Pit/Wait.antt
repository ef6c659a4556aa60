-- ===== src/Pit/Wait.antt =====
-- `pit_timer_wait` and `pit_timer_wait_ms` of kernel/drivers/pc/pit.c.
-- The processor halts until an interrupt. The interrupts that come are a list; those that are not
-- the timer's leave its state alone. A list that is too short leaves the caller waiting.
pub mod Laws
mod Tests
use shawn_os.Prelude.{
  ℕ, zero, suc, ◌+◌, ◌*◌, ◌/◌, ◌%◌, ◌^◌, List, [], ◌∷◌, ltb, if◌then◌else◌, true, false, Outcome,
  ok, ◌>>=◌,
}
use shawn_os.Kernel.{add32, mul32}
use shawn_os.Pit.{Pit, timer_constant, irq_timer_handler}

pub data Interrupt : Type 0 where
  timer other : Interrupt

-- Whether the call has returned, the interrupts that are still to come, and the timer's state.
pub data Wait : Type 0 where
  returned : List Interrupt → Pit → Wait
  waiting : Pit → Wait

-- What an interrupt does to the timer.
unfoldable pub interrupt : Interrupt → Pit → Outcome Pit
interrupt timer p = irq_timer_handler 32 p >>= λ r. ok r.1
interrupt other p = ok p

-- `while (desired_ticks > pit_total_timer_ticks)`
unfoldable pub wait_until : ℕ → List Interrupt → Pit → Outcome Wait
wait_until desired [] p = if ltb p.total_ticks desired then ok (waiting p) else ok (returned [] p)
wait_until desired (i ∷ coming) p =
    let rest = interrupt i p >>= wait_until desired coming in
    if ltb p.total_ticks desired then rest else ok (returned (i ∷ coming) p)

unfoldable pub timer_wait : ℕ → List Interrupt → Pit → Outcome Wait
timer_wait seconds coming p =
    wait_until (add32 p.total_ticks (mul32 seconds timer_constant)) coming p

unfoldable pub timer_wait_ms : ℕ → List Interrupt → Pit → Outcome Wait
timer_wait_ms ms coming p =
    wait_until (add32 p.total_ticks (mul32 ms (timer_constant / 1000))) coming p
