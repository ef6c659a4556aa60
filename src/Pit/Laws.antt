-- ===== src/Pit/Laws.antt =====
-- Installing a routine, the ticks afterwards, and uninstalling it.
use shawn_os.Prelude.{
  ℕ, zero, suc, ◌+◌, ◌%◌, ◌^◌, ◌≤◌, ◌<◌, ◌≡◌, ◌≢◌, refl, ap, ◌∙◌, arith, List, [], ◌∷◌, ◌++◌, leb,
  ◌==◌, true, false, if◌then◌else◌, get_or, set, length, get_or-set_self, get_or-set_ne, Outcome,
  ok, abort, ◌>>=◌, inl, inr, Bool, ◌⊎◌, out_of_fuel,
}
use native.Mathlib.Decide.{ℕ_discrete}
use shawn_os.Kernel.{add32}
use shawn_os.Pit.{
  Pit, Routine, no_routine, install_scheduler_routine, uninstall_scheduler_routine, trigger,
  take_turn, irq_timer_handler,
}

-- The calls that a routine adds to a tick.
abbrev pub due : ℕ → Routine → List ℕ
due ticks r = if ticks % r.hz == 0 then r.func ∷ [] else []

take_turn_alone :
    (ticks : ℕ) (r : Routine) → r.hz ≢ 0 → take_turn ticks r (ok []) ≡ ok (due ticks r)
unfolding take_turn
take_turn_alone ticks r rate = let test : (r.hz == 0) ≡ false = ground (arith, rate) in rw test refl

turn_append :
    (stop now : Bool) (f : ℕ) (rest : Outcome (List ℕ)) (more : List ℕ)
    → (if stop
        then abort
        else ((rest >>= λ calls. ok (calls ++ more)) >>= λ calls.
            ok (if now then f ∷ calls else calls)))
      ≡ ((if stop then abort else (rest >>= λ calls. ok (if now then f ∷ calls else calls)))
          >>= λ calls. ok (calls ++ more))
turn_append true now f rest more = refl
turn_append false now f abort more = refl
turn_append false now f out_of_fuel more = refl
turn_append false true f (ok calls) more = refl
turn_append false false f (ok calls) more = refl

take_turn_append :
    (ticks : ℕ) (r : Routine) (rest : Outcome (List ℕ)) (more : List ℕ)
    → take_turn ticks r (rest >>= λ calls. ok (calls ++ more))
      ≡ (take_turn ticks r rest >>= λ calls. ok (calls ++ more))
unfolding take_turn
take_turn_append ticks r rest more = turn_append (r.hz == 0) (ticks % r.hz == 0) r.func rest more

trigger_last :
    (left i k ticks : ℕ) (routines : List Routine) (r : Routine)
    → k ≡ i + left
    → k < length routines
    → r.hz ≢ 0
    → trigger (suc left) i ticks (set routines k r)
      ≡ (trigger left i ticks routines >>= λ calls. ok (calls ++ due ticks r))
unfolding trigger
trigger_last zero i k ticks routines r at room rate =
    let here : get_or (set routines k r) i no_routine ≡ r =
      ap (λ (n : ℕ). get_or (set routines k r) n no_routine) (omega arith)
      ∙ get_or-set_self routines k r no_routine room in
    rw here (take_turn_alone ticks r rate)
trigger_last (suc left) i k ticks routines r at room rate =
    rw
      (
        get_or-set_ne routines k i r no_routine (omega arith),
        trigger_last left (i + 1) k ticks routines r (omega arith) room rate,
      )
      (take_turn_append ticks (get_or routines i no_routine) (trigger left (i + 1) ticks routines)
        (due ticks r))

install_fresh :
    (r : Routine) (p : Pit)
    → p.size < 64
    → install_scheduler_routine r p
      ≡ (p.size, record p { routines = set p.routines p.size r; size = suc p.size })
unfolding install_scheduler_routine
install_fresh r p room =
    let not_full : leb 64 p.size ≡ false = ground arith in
    let one_more : (p.size + 1) % 2 ^ 16 ≡ suc p.size = omega arith in rw (not_full, one_more) refl

abbrev answer : Pit → ℕ → List ℕ → Outcome (List ℕ × Pit)
answer p t calls = ok (calls, record p { total_ticks = t })

abbrev answer_more : Routine → Pit → List ℕ × Pit → Outcome (List ℕ × Pit)
answer_more r q x = ok (x.0 ++ due x.1.total_ticks r, record q { total_ticks = x.1.total_ticks })

ticked :
    (calls : Outcome (List ℕ)) (r : Routine) (p q : Pit) (t : ℕ)
    → ((calls >>= λ c. ok (c ++ due t r)) >>= answer q t)
      ≡ ((calls >>= answer p t) >>= answer_more r q)
ticked (ok calls) r p q t = refl
ticked abort r p q t = refl
ticked out_of_fuel r p q t = refl

-- With fewer than 64 routines installed and a rate that is not 0, the routine gets the next index,
-- and from then on a tick does what it did before, and then calls the routine if the number of
-- ticks is a multiple of its rate.
pub install-irq_timer_handler :
    (r : Routine) (p : Pit)
    → p.size < 64
    → length p.routines ≡ 64
    → r.hz ≢ 0
    → let (index, q) = install_scheduler_routine r p in
      (index ≡ p.size)
      × (irq_timer_handler 32 q ≡ (
          irq_timer_handler 32 p >>= λ x.
          ok (x.0 ++ due x.1.total_ticks r, record q { total_ticks = x.1.total_ticks })))
unfolding irq_timer_handler
install-irq_timer_handler r p room places rate =
    let t = add32 p.total_ticks 1 in
    rw (install_fresh r p room) (
      refl,
      rw (trigger_last p.size 0 p.size t p.routines r (omega arith) (omega arith) rate) (
          ticked (trigger p.size 0 t p.routines) r p
            (record p { routines = set p.routines p.size r; size = suc p.size }) t),
    )

stopped : (b : Bool) → (let a : Outcome (List ℕ) = abort in if b then a else a) ≡ abort
stopped true = refl
stopped false = refl

take_turn_faults :
    (ticks : ℕ) (r : Routine) (rest : Outcome (List ℕ))
    → (r.hz ≡ 0) ⊎ (rest ≡ abort)
    → take_turn ticks r rest ≡ abort
unfolding take_turn
take_turn_faults ticks r rest (inl e) = rw e refl
take_turn_faults ticks r rest (inr e) = rw e (stopped (r.hz == 0))

trigger_faults :
    (left i k ticks : ℕ) (routines : List Routine)
    → i ≤ k
    → k < i + left
    → (get_or routines k no_routine).hz ≡ 0
    → trigger left i ticks routines ≡ abort
unfolding trigger
trigger_faults zero i k ticks routines lo hi none_left = absurd (omega arith)
trigger_faults (suc left) i k ticks routines lo hi none_left = elim (ℕ_discrete i k) [
  | yes e ↦
      let zero_rate : (get_or routines i no_routine).hz ≡ 0 =
        ap (λ (n : ℕ). (get_or routines n no_routine).hz) e ∙ none_left in
      take_turn_faults ticks (get_or routines i no_routine) _ (inl zero_rate)
  | no ne ↦
      take_turn_faults ticks (get_or routines i no_routine) _
        (inr (trigger_faults left (i + 1) k ticks routines (omega arith) (omega arith) none_left))
]

-- After a routine is uninstalled, the next tick divides by its rate of 0: the processor faults.
uninstall_faults :
    (index : ℕ) (p : Pit)
    → index < p.size
    → p.size ≤ length p.routines
    → irq_timer_handler 32 (uninstall_scheduler_routine index p) ≡ abort
unfolding uninstall_scheduler_routine irq_timer_handler
uninstall_faults index p inside places =
    rw
      (trigger_faults p.size 0 index (add32 p.total_ticks 1) _ (omega arith) (omega arith) (
        ap (λ (r : Routine). r.hz)
          (get_or-set_self p.routines index (record (get_or p.routines index no_routine) { hz = 0 })
            no_routine (omega arith))))
      refl
