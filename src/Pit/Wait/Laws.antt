-- ===== src/Pit/Wait/Laws.antt =====
-- A wait ends after as many ticks as it is to last, if the counter does not wrap.
use shawn_os.Prelude.{
  ℕ, zero, suc, ◌+◌, ◌*◌, ◌%◌, ◌^◌, ◌≤◌, ◌<◌, ◌≡◌, ◌≢◌, refl, ap, ◌∙◌, arith, true, false, List, [],
  ◌∷◌, ltb, ◌==◌, if◌then◌else◌, get_or, ok,
}
use shawn_os.Kernel.{add32, mul32}
use shawn_os.Pit.{Pit, Routine, no_routine, timer_constant, trigger, take_turn, irq_timer_handler}
use shawn_os.Pit.Wait.{Interrupt, timer, other, returned, interrupt, wait_until, timer_wait}

-- The ticks among the interrupts.
abbrev pub ticks : List Interrupt → ℕ
ticks [] = 0
ticks (timer ∷ coming) = suc (ticks coming)
ticks (other ∷ coming) = ticks coming

-- No routine has a rate of 0.
unfoldable pub Running : Pit → Type 0
Running p = (i : ℕ) → i < p.size → (get_or p.routines i no_routine).hz ≢ 0

trigger_runs :
    (left i now : ℕ) (routines : List Routine)
    → ((k : ℕ) → i ≤ k → k < i + left → (get_or routines k no_routine).hz ≢ 0)
    → (calls : List ℕ) × (trigger left i now routines ≡ ok calls)
unfolding trigger take_turn
trigger_runs zero i now routines rates = ([], refl)
trigger_runs (suc left) i now routines rates =
    let (calls, run) =
      trigger_runs left (i + 1) now routines (λ k low high. rates k (omega arith) (omega arith)) in
    let r = get_or routines i no_routine in
    let rate : (r.hz == 0) ≡ false = ground (arith, rates i (omega arith) (omega arith)) in
    ((if now % r.hz == 0 then r.func ∷ calls else calls), rw (rate, run) refl)

abbrev ticked : Pit → Pit
ticked p = record p { total_ticks = add32 p.total_ticks 1 }

tick_lem : (p : Pit) → Running p → interrupt timer p ≡ ok (ticked p)
unfolding interrupt irq_timer_handler Running
tick_lem p running =
    let (calls, run) =
      trigger_runs p.size 0 (add32 p.total_ticks 1) p.routines
        (λ k low high. running k (omega arith)) in
    rw run refl

-- The state after a number of ticks.
abbrev pub after : ℕ → Pit → Pit
after n p = record p { total_ticks = p.total_ticks + n }

stops :
    (desired : ℕ) (coming : List Interrupt) (p : Pit)
    → desired ≤ p.total_ticks
    → wait_until desired coming p ≡ ok (returned coming p)
unfolding wait_until
stops desired [] p reached =
    let done : ltb p.total_ticks desired ≡ false = ground arith in rw done refl
stops desired (i ∷ coming) p reached =
    let done : ltb p.total_ticks desired ≡ false = ground arith in rw done refl

tick_step :
    (desired : ℕ) (coming : List Interrupt) (p : Pit)
    → Running p
    → p.total_ticks < desired
    → desired < 2 ^ 32
    → wait_until desired (timer ∷ coming) p ≡ wait_until desired coming (after 1 p)
unfolding wait_until
tick_step desired coming p running short small =
    let next : add32 p.total_ticks 1 ≡ p.total_ticks + 1 = omega arith in
    let more : ltb p.total_ticks desired ≡ true = ground arith in
    rw (more, tick_lem p running)
      (ap (λ (n : ℕ). wait_until desired coming (record p { total_ticks = n })) next)

wait_until_lem :
    (left desired : ℕ) (coming : List Interrupt) (p : Pit)
    → Running p
    → desired ≡ p.total_ticks + left
    → desired < 2 ^ 32
    → left ≤ ticks coming
    → (later : List Interrupt) × (wait_until desired coming p ≡ ok (returned later (after left p)))
      × (ticks coming ≡ left + ticks later)
unfolding Running wait_until interrupt
wait_until_lem zero desired coming p running e small enough =
    let same : p.total_ticks ≡ p.total_ticks + 0 = omega arith in
    (
      coming,
      stops desired coming p (omega arith)
          ∙ ap (λ (n : ℕ). ok (returned coming (record p { total_ticks = n }))) same,
      omega arith,
    )
wait_until_lem (suc left) desired [] p running e small enough = absurd (omega arith)
wait_until_lem (suc left) desired (other ∷ coming) p running e small enough =
    let (later, run, count) = wait_until_lem (suc left) desired coming p running e small enough in
    let more : ltb p.total_ticks desired ≡ true = ground arith in (later, rw more run, count)
wait_until_lem (suc left) desired (timer ∷ coming) p running e small enough =
    let (later, run, count) =
      wait_until_lem left desired coming (after 1 p) running (omega arith) small (omega arith) in
    let total : p.total_ticks + 1 + left ≡ p.total_ticks + suc left = omega arith in
    (
      later,
      tick_step desired coming p running (omega arith) small
          ∙ run
          ∙ ap (λ (n : ℕ). ok (returned later (record p { total_ticks = n }))) total,
      omega arith,
    )

-- `pit_timer_wait`, where no routine has a rate of 0 and the counter reaches its goal without
-- wrapping, returns once as many ticks have come as it is to last, whatever other interrupts come
-- between them, and not before: the ticks that it has taken are the milliseconds of its argument.
pub timer_wait_lem :
    (seconds : ℕ) (coming : List Interrupt) (p : Pit)
    → Running p
    → p.total_ticks + seconds * 1000 < 2 ^ 32
    → seconds * 1000 ≤ ticks coming
    → (later : List Interrupt) × (timer_wait seconds coming p
        ≡ ok (returned later (after (seconds * 1000) p)))
      × (ticks coming ≡ seconds * 1000 + ticks later)
unfolding timer_wait
timer_wait_lem seconds coming p running fits enough =
    let goal : add32 p.total_ticks (mul32 seconds timer_constant) ≡ p.total_ticks + seconds * 1000 =
      omega arith in
    let (later, run, count) =
      wait_until_lem (seconds * 1000) (p.total_ticks + seconds * 1000) coming p running refl fits
        enough in
    (later, ap (λ (n : ℕ). wait_until n coming p) goal ∙ run, count)

-- Where the counter's goal wraps round to what it is now or less, the wait is over at once.
timer_wait_wraps :
    (seconds : ℕ) (coming : List Interrupt) (p : Pit)
    → p.total_ticks < 2 ^ 32
    → seconds * 1000 < 2 ^ 32
    → 2 ^ 32 ≤ p.total_ticks + seconds * 1000
    → timer_wait seconds coming p ≡ ok (returned coming p)
unfolding timer_wait
timer_wait_wraps seconds coming p small short wraps =
    stops (add32 p.total_ticks (mul32 seconds timer_constant)) coming p (omega arith)
