-- ===== src/Textmode/Bounds.antt =====
-- The cursor of `vga_textmode_putchar` stays on the screen.
use shawn_os.Prelude.{
  ◌%◌, ℕ, zero, suc, ◌+◌, ◌*◌, ◌^◌, ◌≤◌, ◌<◌, ◌≡◌, refl, arith, List, [], ◌∷◌, ◌==◌, length,
  length-set, ◌∙◌, Bool-cases, inl, inr,
}
use shawn_os.Textmode.{
  settle, Textmode, advance, putchar, scroll, scroll_row, scroll_rows, putentryat, send_cursor,
  writestring, newline,
}

pub record OnScreen (t : Textmode) : Type 0 where
  pub row_in : t.row < 25
  pub column_in : t.column < 80

pub length-scroll_row :
    (left x y entry : ℕ) (xs : List ℕ) → length (scroll_row left x y entry xs) ≡ length xs
unfolding scroll_row
length-scroll_row zero x y entry xs = refl
length-scroll_row (suc left) x y entry xs =
    length-scroll_row left (x + 1) y entry _ ∙ length-set xs (y * 80 + x) _

length-scroll_rows :
    (left y entry : ℕ) (xs : List ℕ) → length (scroll_rows left y entry xs) ≡ length xs
unfolding scroll_rows
length-scroll_rows zero y entry xs = refl
length-scroll_rows (suc left) y entry xs =
    length-scroll_rows left (y + 1) entry _ ∙ length-scroll_row 80 0 y entry xs

-- The cursor after a character, in front of the test for a scroll.
record Moved (t t' : Textmode) : Type 0 where
  row_in : t'.row ≤ 25
  column_in : t'.column < 80
  kept : length t'.buffer ≡ length t.buffer

advance-Moved : (c : ℕ) (t : Textmode) → OnScreen t → Moved t (advance c t)
unfolding advance putentryat
advance-Moved c t on = elim (Bool-cases (c == newline)) [
  | inl e ↦
      rw e (record { row_in = omega (arith, on.row_in); column_in = omega arith; kept = refl })
  | inr e ↦ elim (Bool-cases ((t.column + 1) % 2 ^ 32 == 80)) [
    | inl full ↦
        rw (e, full)
          (record {
            row_in = omega (arith, on.row_in);
            column_in = omega arith;
            kept = length-set t.buffer _ _;
          })
    | inr room ↦
        rw (e, room)
          (record {
            row_in = omega (arith, on.row_in);
            column_in = ground (arith, on.column_in, room);
            kept = length-set t.buffer _ _;
          })
  ]
]

settle-OnScreen :
    (t t' : Textmode)
    → Moved t t'
    → OnScreen (settle t') × (length (settle t').buffer ≡ length t.buffer)
unfolding settle scroll
settle-OnScreen t t' moved = elim (Bool-cases (t'.row == 25)) [
  | inl e ↦ rw e (
    record { row_in = omega arith; column_in = omega arith },
    length-scroll_rows 25 0 _ t'.buffer ∙ moved.kept,
  )
  | inr e ↦
      rw e (
        record { row_in = ground (arith, moved.row_in, e); column_in = moved.column_in },
        moved.kept,
      )
]

-- From a cursor on the screen, `vga_textmode_putchar` leaves the cursor on the screen, and the
-- video memory as long as it was.
putchar-OnScreen :
    (c : ℕ) (t : Textmode)
    → OnScreen t
    → OnScreen (putchar c t) × (length (putchar c t).buffer ≡ length t.buffer)
unfolding putchar send_cursor
putchar-OnScreen c t on =
    let (settled, kept) = settle-OnScreen t (advance c t) (advance-Moved c t on) in
    (record { row_in = settled.row_in; column_in = settled.column_in }, kept)

-- So does `vga_textmode_writestring`, whatever the string.
pub writestring-OnScreen :
    (text : List ℕ) (t : Textmode)
    → OnScreen t
    → OnScreen (writestring text t) × (length (writestring text t).buffer ≡ length t.buffer)
unfolding writestring
writestring-OnScreen [] t on = (on, refl)
writestring-OnScreen (c ∷ text) t on =
    let (next_on, next_kept) = putchar-OnScreen c t on in
    let (last_on, last_kept) = writestring-OnScreen text (putchar c t) next_on in
    (last_on, last_kept ∙ next_kept)
