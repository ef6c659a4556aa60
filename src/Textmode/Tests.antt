-- ===== src/Textmode/Tests.antt =====
-- The theorems on the text mode, at a screen of blanks.
use shawn_os.Prelude.{◌≡◌, arith, [], ◌∷◌, replicate, length}
use shawn_os.Textmode.{Textmode, writestring}
use shawn_os.Textmode.Bounds.{OnScreen, writestring-OnScreen}

-- The cursor stands at the last place of the screen.
abbrev blanks : Textmode
blanks = record { row = 24; column = 79; color = 7; buffer = replicate 2080 0x720; ports = [] }

blanks-OnScreen : OnScreen blanks
blanks-OnScreen = record { row_in = omega arith; column_in = omega arith }

writestring-OnScreen_example :
    OnScreen (writestring (65 ∷ 10 ∷ 66 ∷ []) blanks)
    × (length (writestring (65 ∷ 10 ∷ 66 ∷ []) blanks).buffer ≡ length blanks.buffer)
writestring-OnScreen_example = writestring-OnScreen (65 ∷ 10 ∷ 66 ∷ []) blanks blanks-OnScreen
