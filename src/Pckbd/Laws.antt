-- ===== src/Pckbd/Laws.antt =====
-- The modifier keys, and what the US layout prints.
use shawn_os.Prelude.{
  ℕ, zero, suc, ◌+◌, ◌-◌, ◌<◌, ◌≡◌, refl, ap, sym, ◌∙◌, ◌≢◌, arith, Bool, true, false, not, ◌&&◌,
  ltb, leb, ◌==◌, if◌then◌else◌, get_or, Bool-cases, inl, inr,
}
use native.Mathlib.Decide.{ℕ_discrete}
use shawn_os.Pckbd.{
  Pckbd, Driver, set_contains, toggle_shift, toggle_capslock, char_of, press, handle_scancode,
}
use shawn_os.Pckbd.Us.{us_qwerty, us_sc, us_sc_shift, us_sc_capslock, us_sc_shift_capslock}

not-not : (b : Bool) → not (not b) ≡ b
not-not true = refl
not-not false = refl

toggle_shift-toggle_shift : (key : ℕ) (k : Pckbd) → toggle_shift key (toggle_shift key k) ≡ k
unfolding toggle_shift
toggle_shift-toggle_shift key k = elim (Bool-cases (set_contains k.selected_driver.shift key)) [
  | inl e ↦ rw (e, e, not-not k.is_shift) refl
  | inr e ↦ rw (e, e) refl
]

driver-toggle_shift :
    (key : ℕ) (k : Pckbd) → (toggle_shift key k).selected_driver ≡ k.selected_driver
unfolding toggle_shift
driver-toggle_shift key k = elim (Bool-cases (set_contains k.selected_driver.shift key)) [
  | inl e ↦ rw e refl
  | inr e ↦ rw e refl
]

toggle_capslock_other :
    (key : ℕ) (k : Pckbd) → (key == k.selected_driver.caps_sc) ≡ false → toggle_capslock key k ≡ k
unfolding toggle_capslock
toggle_capslock_other key k other = rw other refl

pressed :
    (key : ℕ) (k : Pckbd)
    → key < 128
    → (handle_scancode key k).1 ≡ toggle_capslock key (toggle_shift key k)
unfolding handle_scancode press
pressed key k low = let test : ltb key 128 ≡ true = ground arith in rw test refl

released : (key : ℕ) (k : Pckbd) → (handle_scancode (key + 128) k).1 ≡ toggle_shift key k
unfolding handle_scancode
released key k =
    let test : ltb (key + 128) 128 ≡ false = ground arith in
    let back : key + 128 - 128 ≡ key = omega arith in rw (test, back) refl

-- Pressing and releasing a key that is not Caps Lock leaves the keyboard as it was: a Shift key is
-- on exactly while it is held.
handle_scancode_released :
    (key : ℕ) (k : Pckbd)
    → key < 128
    → (key == k.selected_driver.caps_sc) ≡ false
    → (handle_scancode (key + 128) (handle_scancode key k).1).1 ≡ k
handle_scancode_released key k low other =
    rw
      (
        released key (handle_scancode key k).1,
        pressed key k low,
        toggle_capslock_other key (toggle_shift key k)
            (ap (λ (d : Driver). key == d.caps_sc) (driver-toggle_shift key k) ∙ other),
      )
      (toggle_shift-toggle_shift key k)

abbrev all_below : ℕ → (ℕ → Bool) → Bool
all_below zero p = true
all_below (suc n) p = if p n then all_below n p else false

no_truth : false ≢ true
no_truth e = ground (arith, e)

all_below_lem : (n k : ℕ) (p : ℕ → Bool) → all_below n p ≡ true → k < n → p k ≡ true
all_below_lem zero k p all h = absurd (omega arith)
all_below_lem (suc n) k p all h = elim (Bool-cases (p n)) [
  | inl e ↦ elim (ℕ_discrete k n) [
    | yes same ↦ ap p same ∙ e
    | no ne ↦
        all_below_lem n k p (sym (ap (λ (b : Bool). if b then all_below n p else false) e) ∙ all)
          (omega arith)
  ]
  | inr e ↦ absurd (no_truth (sym (ap (λ (b : Bool). if b then all_below n p else false) e) ∙ all))
]

same_of_test : (a b : ℕ) → (a == b) ≡ true → a ≡ b
same_of_test a b e = ground (arith, e)

-- Every code of the tables, with and without Shift.
exchanged :
    (key : ℕ)
    → key < 128
    → (letter : Bool) → (leb 97 (get_or us_sc key 0) && leb (get_or us_sc key 0) 122) ≡ letter
    → get_or us_sc_shift_capslock key 0
      ≡ (if letter then get_or us_sc key 0 else get_or us_sc_shift key 0)
exchanged key low letter e =
    let checked =
      all_below_lem 128 key
        (λ k. get_or us_sc_shift_capslock k 0 == (
          if leb 97 (get_or us_sc k 0) && leb (get_or us_sc k 0) 122
          then get_or us_sc k 0
          else get_or us_sc_shift k 0))
        refl low in
    rw (sym e) (same_of_test _ _ checked)

exchanged_plain :
    (key : ℕ)
    → key < 128
    → (letter : Bool) → (leb 97 (get_or us_sc key 0) && leb (get_or us_sc key 0) 122) ≡ letter
    → get_or us_sc_capslock key 0
      ≡ (if letter then get_or us_sc_shift key 0 else get_or us_sc key 0)
exchanged_plain key low letter e =
    let checked =
      all_below_lem 128 key
        (λ k. get_or us_sc_capslock k 0 == (
          if leb 97 (get_or us_sc k 0) && leb (get_or us_sc k 0) 122
          then get_or us_sc_shift k 0
          else get_or us_sc k 0))
        refl low in
    rw (sym e) (same_of_test _ _ checked)

-- Of all scancodes, Caps Lock exchanges the characters of the two cases of a letter, with and
-- without Shift, and no others.
pub us_capslock_lem :
    (key : ℕ) (shift : Bool)
    → key < 128
    → let letter = leb 97 (get_or us_sc key 0) && leb (get_or us_sc key 0) 122 in
      char_of key (record { selected_driver = us_qwerty; is_capslock = true; is_shift = shift })
      ≡ char_of key (record {
        selected_driver = us_qwerty;
        is_capslock = false;
        is_shift = if letter then not shift else shift;
      })
unfolding char_of us_qwerty
us_capslock_lem key shift low =
    by_case shift (leb 97 (get_or us_sc key 0) && leb (get_or us_sc key 0) 122) refl
  where
    by_case :
        (shift letter : Bool)
        → (leb 97 (get_or us_sc key 0) && leb (get_or us_sc key 0) 122) ≡ letter
        → char_of key (record { selected_driver = us_qwerty; is_capslock = true; is_shift = shift })
          ≡ char_of key (record {
            selected_driver = us_qwerty;
            is_capslock = false;
            is_shift = if letter then not shift else shift;
          })
    by_case true true e = exchanged key low true e
    by_case true false e = exchanged key low false e
    by_case false true e = exchanged_plain key low true e
    by_case false false e = exchanged_plain key low false e
