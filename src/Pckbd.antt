-- ===== src/Pckbd.antt =====
-- kernel/drivers/pc/pckbd.c: scancodes of the PS/2 keyboard to characters.
-- The scancode, a byte, is what the interrupt reads from port 0x60; the character, if any, is what
-- it prints.
pub mod Us
pub mod Laws
mod Tests
use shawn_os.Prelude.{
  ℕ, zero, suc, ◌+◌, ◌-◌, Bool, true, false, not, ◌&&◌, Option, none, some, List, ltb, ◌==◌,
  if◌then◌else◌, get_or, Outcome, ok, ◌>>◌, assert,
}

pub record ScancodeSet : Type 0 where
  pub scancodes : List ℕ
  pub len : ℕ

-- `struct pckbd_driver` without `pckbd_special`, which nothing reads.
pub record Driver : Type 0 where
  pub sc : ScancodeSet
  pub sc_shift : ScancodeSet
  pub shift : ScancodeSet
  pub sc_capslock : ScancodeSet
  pub sc_shift_capslock : ScancodeSet
  pub caps_sc : ℕ

pub record Pckbd : Type 0 where
  pub selected_driver : Driver
  pub is_capslock : Bool
  pub is_shift : Bool

-- `set_contains_sc`, from index `s` on.
unfoldable pub contains_from : ℕ → ℕ → List ℕ → ℕ → Bool
contains_from zero s scancodes i = false
contains_from (suc left) s scancodes i =
    let rest = contains_from left (s + 1) scancodes i in
    if get_or scancodes s 0 == i then true else rest

unfoldable pub set_contains : ScancodeSet → ℕ → Bool
set_contains scs i = contains_from scs.len 0 scs.scancodes i

unfoldable pub toggle_shift : ℕ → Pckbd → Pckbd
toggle_shift key k =
    if set_contains k.selected_driver.shift key then record k { is_shift = not k.is_shift } else k

unfoldable pub toggle_capslock : ℕ → Pckbd → Pckbd
toggle_capslock key k =
    if key == k.selected_driver.caps_sc then record k { is_capslock = not k.is_capslock } else k

unfoldable pub char_of : ℕ → Pckbd → ℕ
char_of key k =
    if k.is_capslock && k.is_shift
    then get_or k.selected_driver.sc_shift_capslock.scancodes key 0
    else if k.is_shift
    then get_or k.selected_driver.sc_shift.scancodes key 0
    else if k.is_capslock
    then get_or k.selected_driver.sc_capslock.scancodes key 0
    else get_or k.selected_driver.sc.scancodes key 0

unfoldable pub press : ℕ → Pckbd → Option ℕ × Pckbd
press key k =
    let k' = toggle_capslock key (toggle_shift key k) in
    (if char_of key k' == 0 then none else some (char_of key k'), k')

-- A scancode of 128 and more is the release of a key.
unfoldable pub handle_scancode : ℕ → Pckbd → Option ℕ × Pckbd
handle_scancode scancode k =
    if ltb scancode 128 then press scancode k else (none, toggle_shift (scancode - 128) k)

-- Any interrupt but 33 ends in `abort()`.
unfoldable pub irq_input_handler : ℕ → ℕ → Pckbd → Outcome (Option ℕ × Pckbd)
irq_input_handler int_no scancode k = assert (int_no == 33) >> ok (handle_scancode scancode k)

unfoldable pub install_driver_irq : Driver → Pckbd → Pckbd
install_driver_irq d k = record k { selected_driver = d }
