-- ===== src/Pckbd/Tests.antt =====
-- The theorems on the keyboard at the US layout.
use shawn_os.Prelude.{◌≡◌, arith, true, false}
use shawn_os.Pckbd.{Pckbd, char_of}
use shawn_os.Pckbd.Us.{us_qwerty}
use shawn_os.Pckbd.Laws.{us_capslock_lem}

abbrev with_us : Pckbd
with_us = record { selected_driver = us_qwerty; is_capslock = false; is_shift = false }

-- The key A.
us_capslock_lem_example :
    char_of 30 (record { selected_driver = us_qwerty; is_capslock = true; is_shift = false })
    ≡ char_of 30 (record { selected_driver = us_qwerty; is_capslock = false; is_shift = true })
us_capslock_lem_example = us_capslock_lem 30 false (omega arith)
