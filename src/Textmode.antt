-- ===== src/Textmode.antt =====
-- kernel/drivers/vga/textmode.c: the text mode of the VGA.
-- `buffer` is the video memory from 0xb8000 on, 16 bits to a character; a write behind the end of
-- the list is lost. A `char` is its bit pattern, and signed. `ports` is what `outportb` sent, the
-- last value first.
pub mod Bounds
pub mod Scroll
mod Tests
use shawn_os.Prelude.{
  ℕ, zero, suc, ◌+◌, ◌-◌, ◌*◌, ◌/◌, ◌%◌, ◌^◌, Bool, true, false, List, [], ◌∷◌, ltb, leb, ◌==◌,
  if◌then◌else◌, get_or, set, length, bit_or,
}
use shawn_os.Kernel.{add32, sub32, mul32, u32}

abbrev pub vga_width : ℕ
vga_width = 80

abbrev pub vga_height : ℕ
vga_height = 25

-- `enum vga_color`: the two that the code names.
abbrev pub color_black : ℕ
color_black = 0

abbrev pub color_light_grey : ℕ
color_light_grey = 7

abbrev pub newline : ℕ
newline = 10

abbrev pub space : ℕ
space = 32

pub record Textmode : Type 0 where
  pub row : ℕ
  pub column : ℕ
  pub color : ℕ
  pub buffer : List ℕ
  pub ports : List (ℕ × ℕ)

unfoldable pub make_color : ℕ → ℕ → ℕ
make_color fg bg = bit_or fg (bg * 16) % 256

-- `uint16_t c16 = c` extends the sign of a `char`.
abbrev pub char_to_u16 : ℕ → ℕ
char_to_u16 c = if ltb c 128 then c else c + 0xff00

unfoldable pub make_vgaentry : ℕ → ℕ → ℕ
make_vgaentry c color = bit_or (char_to_u16 c) (color * 256) % 2 ^ 16

unfoldable pub setcolor : ℕ → Textmode → Textmode
setcolor color t = record t { color = color }

unfoldable pub putentryat : ℕ → ℕ → ℕ → ℕ → Textmode → Textmode
putentryat c color x y t = record t {
  buffer = set t.buffer (add32 (mul32 y vga_width) x) (make_vgaentry c color);
}

-- One row of blanks, and all the rows, as the two loops over `x` and `y` write them.
unfoldable pub blank_row : ℕ → ℕ → ℕ → ℕ → List ℕ → List ℕ
blank_row zero x y entry xs = xs
blank_row (suc left) x y entry xs =
    blank_row left (x + 1) y entry (set xs (y * vga_width + x) entry)

unfoldable pub blank_rows : ℕ → ℕ → ℕ → List ℕ → List ℕ
blank_rows zero y entry xs = xs
blank_rows (suc left) y entry xs = blank_rows left (y + 1) entry (blank_row vga_width 0 y entry xs)

-- `outportb`: an `unsigned char` goes to the port.
abbrev pub outportb : ℕ → ℕ → Textmode → Textmode
outportb port value t = record t { ports = (port, value % 256) ∷ t.ports }

-- The cursor's position goes to registers 14 and 15 of the CRT controller.
unfoldable pub send_cursor : ℕ → Textmode → Textmode
send_cursor position t =
    outportb 0x3d5 position
      (outportb 0x3d4 15 (outportb 0x3d5 (position / 256) (outportb 0x3d4 14 t)))

unfoldable pub initialize : Textmode → Textmode
initialize t =
    let colored =
      setcolor (make_color color_light_grey color_black) (record t { row = 0; column = 0 }) in
    record colored {
      buffer = blank_rows vga_height 0 (make_vgaentry space colored.color) colored.buffer;
    }

unfoldable pub clear : Textmode → Textmode
clear t = send_cursor 0 (initialize t)

-- `y == VGA_HEIGHT` stands in the body of a loop over `y < VGA_HEIGHT`.
unfoldable pub scroll_row : ℕ → ℕ → ℕ → ℕ → List ℕ → List ℕ
scroll_row zero x y entry xs = xs
scroll_row (suc left) x y entry xs =
    let index = y * vga_width + x in
    let nextrow_index = index + vga_width in
    let value = if y == vga_height then entry else get_or xs nextrow_index 0 in
    scroll_row left (x + 1) y entry (set xs index value)

unfoldable pub scroll_rows : ℕ → ℕ → ℕ → List ℕ → List ℕ
scroll_rows zero y entry xs = xs
scroll_rows (suc left) y entry xs =
    scroll_rows left (y + 1) entry (scroll_row vga_width 0 y entry xs)

unfoldable pub scroll : Textmode → Textmode
scroll t = record t {
  buffer = scroll_rows vga_height 0 (make_vgaentry space t.color) t.buffer;
  row = vga_height - 1;
  column = 0;
}

-- A newline, or a character at the cursor and the cursor behind it.
unfoldable pub advance : ℕ → Textmode → Textmode
advance c t =
    if c == newline
    then record t { row = add32 t.row 1; column = 0 }
    else (let put = putentryat c t.color t.column t.row t in
        if add32 t.column 1 == vga_width
        then record put { column = 0; row = add32 t.row 1 }
        else record put { column = add32 t.column 1 })

-- A scroll if all rows are taken up.
unfoldable pub settle : Textmode → Textmode
settle t = if t.row == vga_height then scroll t else t

unfoldable pub putchar : ℕ → Textmode → Textmode
putchar c t =
    let shown = settle (advance c t) in send_cursor (add32 (mul32 shown.row 80) shown.column) shown

-- The string is the characters in front of its terminating 0.
unfoldable pub writestring : List ℕ → Textmode → Textmode
writestring [] t = t
writestring (c ∷ text) t = writestring text (putchar c t)

-- `newbuffer_length` counts the entries that are copied, from the first on.
unfoldable pub copy_from : ℕ → ℕ → List ℕ → List ℕ → List ℕ
copy_from zero i new xs = xs
copy_from (suc left) i new xs = copy_from left (i + 1) new (set xs i (get_or new i 0))

unfoldable pub writebuffer : List ℕ → ℕ → Textmode → Textmode
writebuffer new new_length t = record t { buffer = copy_from new_length 0 new t.buffer }
