-- ===== src/Terminal/Tests.antt =====
-- The theorems on the terminal at the last place of the screen.
use shawn_os.Prelude.{ℕ, refl, arith, false, [], ◌∷◌, replicate, length-replicate}
use shawn_os.Stdio.{Stdio}
use shawn_os.Terminal.{Terminal, update_tick}
use shawn_os.Terminal.Bounds.{InBounds}
use shawn_os.Terminal.Position.{update_tick-InBounds}

abbrev at_end : Terminal
at_end = record {
  xpos = 80;
  ypos = 24;
  color = 7;
  is_ansi_escape = false;
  ansi_escape_length = 0;
  buffer = replicate 2000 0x720;
  behind = λ k. 0;
  screen = record { row = 0; column = 0; color = 7; buffer = replicate 2000 0x720; ports = [] };
}

at_end-InBounds : InBounds (λ k. 0) at_end
at_end-InBounds = record {
  column_in = omega arith;
  row_in = omega arith;
  places = length-replicate {A = ℕ} 2000 0x720;
  behind = λ k ne. refl;
}

abbrev one_line : Stdio
one_line = record { stdin = []; stdout = 72 ∷ 105 ∷ 10 ∷ []; stdin_length = 0; stdout_length = 3 }

update_tick-InBounds_example : InBounds (λ k. 0) (update_tick (replicate 256 0) at_end one_line).0
update_tick-InBounds_example =
    update_tick-InBounds (λ k. 0) (replicate 256 0) at_end one_line at_end-InBounds
