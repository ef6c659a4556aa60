-- ===== src/Vfs/Lock/Exclusion.antt =====
-- One thread at a time is between lock and unlock, and no change of the count is lost.
use shawn_os.Prelude.{ℕ, ◌≡◌, ◌≢◌, refl, ap, sym, ◌∙◌, arith, true, false, List, ◌∷◌}
use native.Mathlib.Decide.{ℕ_discrete}
use shawn_os.Vfs.Lock.{
  Op, Pc, outside, spinning, reading, writing, unlocking, System, changed, moved, Step, enter,
  swap_fails, swap, read, write, unlock, start_state, Reach, start, later, critical, replay,
}

pub record Inv (count : ℕ) (s : System) : Type 0 where
  pub held : (i : ℕ) → critical (s.pc i) ≡ true → s.locked ≡ 1
  pub unique : (i j : ℕ) → critical (s.pc i) ≡ true → critical (s.pc j) ≡ true → i ≡ j
  pub owned : s.locked ≢ 0 → (i : ℕ) × (critical (s.pc i) ≡ true)
  pub fresh : (i : ℕ) (op : Op) (n : ℕ) → s.pc i ≡ writing op n → n ≡ s.refcount
  pub total : s.refcount ≡ replay count s.history

start-Inv : (count : ℕ) → Inv count (start_state count)
start-Inv count = record {
  held = λ i c. ground (arith, c);
  unique = λ i j c d. ground (arith, c);
  owned = λ ne. absurd (ne refl);
  fresh = λ i op n e. ground (arith, e);
  total = refl;
}

enter-Inv :
    {count : ℕ} {s : System}
    → Inv count s
    → (i : ℕ) (op : Op) → s.pc i ≡ outside
    → Inv count (record s { pc = moved s.pc i (spinning op) })
enter-Inv v i op at = record {
  held = λ j c. ground (arith, v.held j, c);
  unique = λ j k c d. ground (arith, v.unique j k, c, d);
  owned = λ ne. let (j, c) = v.owned ne in (j, ground (arith, at, c));
  fresh = λ j o n e. ground (arith, v.fresh j o n, e);
  total = v.total;
}

swap-Inv :
    {count : ℕ} {s : System}
    → Inv count s
    → (i : ℕ) (op : Op) → s.pc i ≡ spinning op
    → s.locked ≡ 0
    → Inv count (record s { locked = 1; pc = moved s.pc i (reading op) })
swap-Inv {s} v i op at free = record {
  held = λ j c. refl;
  unique = λ j k c d. ground (arith, nobody j, nobody k, c, d);
  owned = λ ne. (i, ground arith);
  fresh = λ j o n e. ground (arith, v.fresh j o n, e);
  total = v.total;
}
  where
    nobody : (j : ℕ) → critical (s.pc j) ≡ false
    nobody j = ground (arith, v.held j, free)

-- A step from one point between lock and unlock to the next.
inside-Inv :
    {count : ℕ} {s : System}
    → Inv count s
    → (i : ℕ) (p : Pc) (refcount : ℕ) (history : List Op) → critical (s.pc i) ≡ true
    → critical p ≡ true
    → ((op : Op) (n : ℕ) → p ≡ writing op n → n ≡ refcount)
    → refcount ≡ replay count history
    → Inv count (record s { refcount = refcount; history = history; pc = moved s.pc i p })
inside-Inv {s} v i p refcount history at to seen total = record {
  held = λ j c. v.held j (before j c);
  unique = λ j k c d. v.unique j k (before j c) (before k d);
  owned = λ ne. let (j, c) = v.owned ne in (i, ground (arith, to));
  fresh = λ j o n e. elim (ℕ_discrete j i) [
    | yes here ↦ seen o n (ground (arith, e))
    | no other ↦
        let same : s.pc j ≡ writing o n = ground (arith, e) in
        absurd (other (v.unique j i (ap critical same) at))
  ];
  total = total;
}
  where
    before : (j : ℕ) → critical (moved s.pc i p j) ≡ true → critical (s.pc j) ≡ true
    before j c = elim (ℕ_discrete j i) [
      | yes here ↦ ap (λ (k : ℕ). critical (s.pc k)) here ∙ at
      | no other ↦ ground (arith, c)
    ]

unlock-Inv :
    {count : ℕ} {s : System}
    → Inv count s
    → (i : ℕ) (op : Op) → s.pc i ≡ unlocking op
    → Inv count (record s { locked = 0; pc = moved s.pc i outside })
unlock-Inv {s} v i op at = record {
  held = λ j c. absurd (alone j c);
  unique = λ j k c d. absurd (alone j c);
  owned = λ ne. absurd (ne refl);
  fresh = λ j o n e. ground (arith, v.fresh j o n, e);
  total = v.total;
}
  where
    alone : (j : ℕ) → critical (moved s.pc i outside j) ≡ true → ⊥
    alone j c = elim (ℕ_discrete j i) [
      | yes here ↦ ground (arith, c)
      | no other ↦ other (v.unique j i (ground (arith, c)) (ap critical at))
    ]

Step-Inv : {count : ℕ} {s t : System} → Inv count s → Step s t → Inv count t
Step-Inv v (enter i op at) = enter-Inv v i op at
Step-Inv v (swap_fails i op at taken) = v
Step-Inv v (swap i op at free) = swap-Inv v i op at free
Step-Inv {s} v (read i op at) =
    inside-Inv v i (writing op s.refcount) s.refcount s.history (ap critical at) refl
      (λ o n e. ground (arith, e)) v.total
Step-Inv {s} v (write i op n at) =
    inside-Inv v i (unlocking op) (changed op n) (op ∷ s.history) (ap critical at) refl
      (λ o m e. ground (arith, e)) (ap (changed op) (v.fresh i op n at ∙ v.total))
Step-Inv v (unlock i op at) = unlock-Inv v i op at

Reach-Inv : {count : ℕ} {s : System} → Reach count s → Inv count s
Reach-Inv {count} start = start-Inv count
Reach-Inv (later r st) = Step-Inv (Reach-Inv r) st

-- In every state that threads reach from a free lock, two threads that are between the locking and
-- the unlocking are one.
pub lock_excludes :
    {count : ℕ} {s : System}
    → Reach count s
    → (i j : ℕ) → critical (s.pc i) ≡ true
    → critical (s.pc j) ≡ true
    → i ≡ j
lock_excludes r = (Reach-Inv r).unique

-- In every reachable state the reference count is what the changes written so far make of the first
-- one, each applied to the result of the one before: none is lost.
pub no_change_lost : {count : ℕ} {s : System} → Reach count s → s.refcount ≡ replay count s.history
no_change_lost r = (Reach-Inv r).total

-- Steps one after the other.
pub data Steps : System → System → Type 0 where
  done : {s : System} → Steps s s
  next : {s t u : System} → Step s t → Steps t u → Steps s u

-- Steps that lead to a state in which thread `i` still spins and the lock is free.
abbrev pub Freeing : System → ℕ → Op → Type 0
Freeing s i op = (t : System) × Steps s t × (t.locked ≡ 0) × (t.pc i ≡ spinning op)

module _ (i : ℕ) (op : Op) (j : ℕ) (other : i ≢ j) where
  stays : (s : System) (p : Pc) → s.pc i ≡ spinning op → moved s.pc j p i ≡ spinning op
  stays s p at = ground (arith, at, other)

  arrives : (s : System) (p : Pc) → moved s.pc j p j ≡ p
  arrives s p = ground arith

  from_unlocking :
      (s : System) (o : Op) → s.pc i ≡ spinning op → s.pc j ≡ unlocking o → Freeing s i op
  from_unlocking s o at e = (_, next (unlock j o e) done, refl, stays s outside at)

  from_writing :
      (s : System) (o : Op) (n : ℕ) → s.pc i ≡ spinning op → s.pc j ≡ writing o n → Freeing s i op
  from_writing s o n at e =
      let (t, run, free, spins) =
        from_unlocking
          (record s {
            refcount = changed o n;
            history = o ∷ s.history;
            pc = moved s.pc j (unlocking o);
          })
          o (stays s (unlocking o) at) (arrives s (unlocking o)) in
      (t, next (write j o n e) run, free, spins)

  from_reading : (s : System) (o : Op) → s.pc i ≡ spinning op → s.pc j ≡ reading o → Freeing s i op
  from_reading s o at e =
      let (t, run, free, spins) =
        from_writing (record s { pc = moved s.pc j (writing o s.refcount) }) o s.refcount
          (stays s (writing o s.refcount) at) (arrives s (writing o s.refcount)) in
      (t, next (read j o e) run, free, spins)

-- From every reachable state in which a thread spins, there are steps after which the lock is free
-- and the thread still spins, so that its next compare-and-swap succeeds.
pub no_deadlock :
    {count : ℕ} {s : System}
    → Reach count s
    → (i : ℕ) (op : Op) → s.pc i ≡ spinning op
    → Freeing s i op
no_deadlock {s} r i op at = elim (ℕ_discrete s.locked 0) [
  | yes free ↦ (s, done, free, at)
  | no taken ↦ let (j, c) = (Reach-Inv r).owned taken in run_on j (s.pc j) refl c
]
  where
    by_place : (j : ℕ) → i ≢ j → (p : Pc) → s.pc j ≡ p → critical p ≡ true → Freeing s i op
    by_place j other outside e c = absurd (ground (arith, c))
    by_place j other (spinning o) e c = absurd (ground (arith, c))
    by_place j other (reading o) e c = from_reading i op j other s o at e
    by_place j other (writing o n) e c = from_writing i op j other s o n at e
    by_place j other (unlocking o) e c = from_unlocking i op j other s o at e

    run_on : (j : ℕ) (p : Pc) → s.pc j ≡ p → critical p ≡ true → Freeing s i op
    run_on j p e c = elim (ℕ_discrete i j) [
      | yes same ↦ absurd (ground (arith, ap critical (sym at ∙ ap s.pc same ∙ e), c))
      | no other ↦ by_place j other p e c
    ]
