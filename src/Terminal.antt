-- ===== src/Terminal.antt =====
-- kernel/kernel/kernel_terminal.c: the terminal, which shows what standard output holds.
-- The terminal keeps a copy of the screen, 25 rows of 80. What is written behind its end goes to the
-- memory there, which `behind` gives by the place, counted from the start of the copy.
pub mod Bounds
pub mod Position
mod Tests
use shawn_os.Prelude.{
  ℕ, zero, suc, ◌+◌, ◌-◌, ◌*◌, ◌/◌, ◌%◌, ◌^◌, Bool, true, false, ◌||◌, ◌&&◌, not, List, [], ◌∷◌,
  ltb, leb, ◌==◌, if◌then◌else◌, get_or, set, Outcome, ok, ◌>>◌, assert,
}
use shawn_os.Kernel.{add32, sub32, mul32}
use shawn_os.Stdio.{Stdio, stdout_get}
use shawn_os.Pit.{Pit, install_scheduler_routine}
use shawn_os.Textmode.{
  Textmode, make_color, make_vgaentry, initialize, clear, putentryat, blank_rows, writebuffer,
  vga_width, vga_height, color_black, color_light_grey, space, newline,
}

abbrev pub backspace_code : ℕ
backspace_code = 8

abbrev pub escape_code : ℕ
escape_code = 27

abbrev pub left_bracket : ℕ
left_bracket = 91

abbrev pub underscore : ℕ
underscore = 95

-- `kernel_terminal_escapecodes`
abbrev pub escapecodes : List ℕ
escapecodes = newline ∷ backspace_code ∷ 0 ∷ 0 ∷ 0 ∷ 0 ∷ 0 ∷ 0 ∷ 0 ∷ 0 ∷ 0 ∷ 0 ∷ 0 ∷ 0 ∷ 0 ∷ []

pub record Terminal : Type 0 where
  pub xpos : ℕ
  pub ypos : ℕ
  pub color : ℕ
  pub is_ansi_escape : Bool
  pub ansi_escape_length : ℕ
  pub buffer : List ℕ
  pub behind : ℕ → ℕ
  pub screen : Textmode

-- The memory behind the copy after a write at `index`.
abbrev written : ℕ → ℕ → (ℕ → ℕ) → ℕ → ℕ
written index entry behind k =
    if k == index && leb (vga_width * vga_height) k then entry else behind k

-- Into the display and into the terminal's copy.
unfoldable pub putentry : ℕ → ℕ → ℕ → ℕ → Terminal → Terminal
putentry c color x y t = record t {
  screen = putentryat c color x y t.screen;
  buffer = set t.buffer (add32 (mul32 y vga_width) x) (make_vgaentry c color);
  behind = written (add32 (mul32 y vga_width) x) (make_vgaentry c color) t.behind;
}

unfoldable pub update_cursor : Terminal → Terminal
update_cursor t =
    if t.xpos == 0
    then putentry underscore t.color t.xpos t.ypos t
    else putentry underscore t.color t.xpos t.ypos t

-- A row moves up, and the last one is blanked.
unfoldable pub lift_row : ℕ → ℕ → ℕ → Terminal → Terminal
lift_row zero x y t = t
lift_row (suc left) x y t =
    let index = y * vga_width + x in
    lift_row left (x + 1) y (
      if y == vga_height - 1
      then putentry space t.color x y t
      else record t { buffer = set t.buffer index (get_or t.buffer (index + vga_width) 0) })

unfoldable pub lift_rows : ℕ → ℕ → Terminal → Terminal
lift_rows zero y t = t
lift_rows (suc left) y t = lift_rows left (y + 1) (lift_row vga_width 0 y t)

unfoldable pub lift_all : Terminal → Terminal
lift_all t = let lifted = lift_rows vga_height 0 t in record lifted { ypos = sub32 lifted.ypos 1 }

unfoldable pub handle_scroll : Terminal → Terminal
handle_scroll t = if t.ypos == vga_height then lift_all t else t

unfoldable pub contains : List ℕ → ℕ → Bool
contains [] c = false
contains (code ∷ codes) c = if c == code then true else contains codes c

unfoldable pub check_escapecode : ℕ → Terminal → Bool × Terminal
check_escapecode c t =
    if contains escapecodes c
    then (true, t)
    else if c == escape_code
    then (true, record t { is_ansi_escape = true; ansi_escape_length = 1 })
    else (false, t)

unfoldable pub handle_overflow : Terminal → Terminal
handle_overflow t = if leb vga_width t.xpos then record t { xpos = 0; ypos = add32 t.ypos 1 } else t

unfoldable pub backspace : Terminal → Terminal
backspace t =
    let cleared = putentry space t.color t.xpos t.ypos t in
    if t.xpos == 0 && t.ypos == 0
    then putentry space t.color 0 0 cleared
    else if t.xpos == 0
    then cleared
    else record (putentry space t.color t.xpos t.ypos cleared) { xpos = sub32 t.xpos 1 }

-- `ansi_fail`
unfoldable pub end_ansi : Terminal → Terminal
end_ansi t = record t { is_ansi_escape = false; ansi_escape_length = 0 }

-- The second character of an ANSI escape code, a bracket, runs on into `ansi_fail` as well.
unfoldable pub handle_ansi : ℕ → Terminal → Terminal
handle_ansi c t =
    let longer = record t { ansi_escape_length = (t.ansi_escape_length + 1) % 256 } in
    if t.is_ansi_escape && t.ansi_escape_length == 1 && c == escape_code
    then longer
    else if t.is_ansi_escape && t.ansi_escape_length == 2 && c == left_bracket
    then end_ansi longer
    else end_ansi t

unfoldable pub start_line : Terminal → Terminal
start_line t =
    update_cursor
      (record (putentry space t.color t.xpos t.ypos t) { ypos = add32 t.ypos 1; xpos = 0 })

unfoldable pub handle_escapecode : ℕ → Terminal → Terminal
handle_escapecode c t =
    if c == newline
    then start_line t
    else if c == backspace_code
    then backspace t
    else handle_ansi c t

unfoldable pub show_char : ℕ → Terminal → Terminal
show_char c t =
    let placed = handle_scroll (handle_overflow t) in
    update_cursor (record (putentry c placed.color placed.xpos placed.ypos placed) {
      xpos = add32 placed.xpos 1;
    })

-- The body of the loop over the characters.
unfoldable pub show : ℕ → Terminal → Terminal
show c t =
    let (is_code, checked) = check_escapecode c t in
    if is_code || checked.is_ansi_escape
    then update_cursor (handle_scroll (handle_escapecode c checked))
    else show_char c checked

unfoldable pub show_from : ℕ → ℕ → List ℕ → Terminal → Terminal
show_from zero i chars t = t
show_from (suc left) i chars t = show_from left (i + 1) chars (show (get_or chars i 0) t)

-- `stack` is what the local array holds before it is filled.
unfoldable pub update_tick : List ℕ → Terminal → Stdio → Terminal × Stdio
update_tick stack t s =
    let (chars, n, s') = stdout_get stack s in
    if n == 0
    then (t, s')
    else (let shown = show_from n 0 chars (record t { screen = clear t.screen }) in
        (
          record shown { screen = writebuffer shown.buffer (vga_width * vga_height) shown.screen },
          s',
        ))

-- `task` is the address of `kernel_terminal_update_tick`; a rate of 0 is a fault.
unfoldable pub terminal_init :
    ℕ → ℕ → List ℕ → Terminal → Stdio → Pit → Outcome (Terminal × Stdio × Pit)
terminal_init refresh_rate task stack t s p =
    let color = make_color color_light_grey color_black in
    let blank = record t {
      screen = initialize t.screen;
      color = color;
      buffer = blank_rows vga_height 0 (make_vgaentry space color) t.buffer;
    } in
    assert (not (refresh_rate == 0))
    >> (let (index, p') =
          install_scheduler_routine (record { hz = 10000 / refresh_rate; func = task }) p in
        let (shown, s') = update_tick stack blank s in ok (shown, s', p'))
