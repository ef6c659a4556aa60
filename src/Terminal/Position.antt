-- ===== src/Terminal/Position.antt =====
-- The terminal's position through each character that it shows, and through a tick.
use shawn_os.Prelude.{
  ℕ, zero, suc, ◌+◌, ◌*◌, ◌%◌, ◌≤◌, ◌^◌, refl, arith, List, ◌==◌, ◌||◌, ◌&&◌, ◌∙◌, get_or,
  Bool-cases, inl, inr,
}
use shawn_os.Stdio.{Stdio, stdout_get}
use shawn_os.Textmode.{clear}
use shawn_os.Terminal.{
  Terminal, putentry, update_cursor, handle_scroll, check_escapecode, handle_overflow, backspace,
  end_ansi, handle_ansi, start_line, handle_escapecode, show_char, show, show_from, update_tick,
  contains, escapecodes,
}
use shawn_os.Terminal.Bounds.{
  InBounds, Due, Same, putentry-Same, update_cursor-Same, InBounds-Same, Same-trans,
  handle_scroll-InBounds, handle_overflow-Due, xpos-handle_scroll,
}

Due-of_bounds : {m : ℕ → ℕ} (t : Terminal) → InBounds m t → Due m t
Due-of_bounds t v = record {
  column_in = v.column_in;
  row_in = omega (arith, v.row_in);
  places = v.places;
  behind = v.behind;
}

Same-refl : (t : Terminal) → Same t t
Same-refl t = record {
  same_xpos = refl;
  same_ypos = refl;
  same_places = refl;
  same_behind = λ k ne. refl;
}

check_escapecode-Same : (c : ℕ) (t : Terminal) → Same t (check_escapecode c t).1
unfolding check_escapecode
check_escapecode-Same c t = elim (Bool-cases (contains escapecodes c)) [
  | inl e ↦ rw e (Same-refl t)
  | inr e ↦ elim (Bool-cases (c == 27)) [
    | inl f ↦
        rw (e, f)
          (record {
            same_xpos = refl;
            same_ypos = refl;
            same_places = refl;
            same_behind = λ k ne. refl;
          })
    | inr f ↦ rw (e, f) (Same-refl t)
  ]
]

handle_ansi-Same : (c : ℕ) (t : Terminal) → Same t (handle_ansi c t)
unfolding handle_ansi end_ansi
handle_ansi-Same c t =
    elim (Bool-cases (t.is_ansi_escape && t.ansi_escape_length == 1 && c == 27)) [
      | inl e ↦ rw e (record {
        same_xpos = refl;
        same_ypos = refl;
        same_places = refl;
        same_behind = λ k ne. refl;
      })
      | inr e ↦ elim (Bool-cases (t.is_ansi_escape && t.ansi_escape_length == 2 && c == 91)) [
        | inl f ↦
            rw (e, f)
              (record {
                same_xpos = refl;
                same_ypos = refl;
                same_places = refl;
                same_behind = λ k ne. refl;
              })
        | inr f ↦
            rw (e, f)
              (record {
                same_xpos = refl;
                same_ypos = refl;
                same_places = refl;
                same_behind = λ k ne. refl;
              })
      ]
    ]

start_line-Due : {m : ℕ → ℕ} (t : Terminal) → InBounds m t → Due m (start_line t)
unfolding start_line
start_line-Due t v =
    let put = putentry-Same 32 t.color t.xpos t.ypos t (omega (arith, v.column_in, v.row_in)) in
    let cursor =
      update_cursor-Same
        (record (putentry 32 t.color t.xpos t.ypos t) { ypos = (t.ypos + 1) % 2 ^ 32; xpos = 0 })
        (omega (arith, v.row_in)) in
    record {
      column_in = omega (arith, cursor.same_xpos);
      row_in = omega (arith, cursor.same_ypos, v.row_in);
      places = omega (arith, cursor.same_places, put.same_places, v.places);
      behind = λ k ne. cursor.same_behind k ne ∙ put.same_behind k ne ∙ v.behind k ne;
    }

-- Backspace never leaves the row.
backspace-InBounds : {m : ℕ → ℕ} (t : Terminal) → InBounds m t → InBounds m (backspace t)
unfolding backspace
backspace-InBounds t v =
    let at : t.ypos * 80 + t.xpos ≤ 2000 = omega (arith, v.column_in, v.row_in) in
    let cleared = putentry-Same 32 t.color t.xpos t.ypos t at in
    elim (Bool-cases (t.xpos == 0 && t.ypos == 0)) [
      | inl e ↦ rw e (
          InBounds-Same t _
            (Same-trans t _ _ cleared
              (putentry-Same 32 t.color 0 0 (putentry 32 t.color t.xpos t.ypos t) (omega arith)))
            v)
      | inr e ↦ elim (Bool-cases (t.xpos == 0)) [
        | inl f ↦ rw (e, f) (InBounds-Same t _ cleared v)
        | inr f ↦
            let twice =
              putentry-Same 32 t.color t.xpos t.ypos (putentry 32 t.color t.xpos t.ypos t) at in
            rw (e, f)
              (record {
                column_in = ground (arith, f, v.column_in);
                row_in = omega (arith, twice.same_ypos, cleared.same_ypos, v.row_in);
                places = omega (arith, twice.same_places, cleared.same_places, v.places);
                behind = λ k ne. twice.same_behind k ne ∙ cleared.same_behind k ne ∙ v.behind k ne;
              })
      ]
    ]

handle_escapecode-Due :
    {m : ℕ → ℕ} (c : ℕ) (t : Terminal) → InBounds m t → Due m (handle_escapecode c t)
unfolding handle_escapecode
handle_escapecode-Due c t v = elim (Bool-cases (c == 10)) [
  | inl e ↦ rw e (start_line-Due t v)
  | inr e ↦ elim (Bool-cases (c == 8)) [
    | inl f ↦ rw (e, f) (Due-of_bounds _ (backspace-InBounds t v))
    | inr f ↦ rw (e, f) (Due-of_bounds _ (InBounds-Same t _ (handle_ansi-Same c t) v))
  ]
]

show_char-InBounds : {m : ℕ → ℕ} (c : ℕ) (t : Terminal) → InBounds m t → InBounds m (show_char c t)
unfolding show_char
show_char-InBounds c t v =
    let (due, column) = handle_overflow-Due t v in
    let wrapped = handle_overflow t in
    let placed = handle_scroll wrapped in
    let placed_in = handle_scroll-InBounds wrapped due in
    let put =
      putentry-Same c placed.color placed.xpos placed.ypos placed
        (omega (arith, placed_in.column_in, placed_in.row_in)) in
    let moved = record (putentry c placed.color placed.xpos placed.ypos placed) {
      xpos = (placed.xpos + 1) % 2 ^ 32;
    } in
    InBounds-Same moved (update_cursor moved)
      (update_cursor-Same moved
        (omega (arith, xpos-handle_scroll wrapped, column, put.same_ypos, placed_in.row_in)))
      (record {
        column_in = omega (arith, xpos-handle_scroll wrapped, column);
        row_in = omega (arith, put.same_ypos, placed_in.row_in);
        places = put.same_places ∙ placed_in.places;
        behind = λ k ne. put.same_behind k ne ∙ placed_in.behind k ne;
      })

-- Whatever the character, an escape code or not, the terminal's position stays on the screen: a
-- row below 25, and a column below 80, or 80 behind a line that is full.
show-InBounds : {m : ℕ → ℕ} (c : ℕ) (t : Terminal) → InBounds m t → InBounds m (show c t)
unfolding show
show-InBounds c t v =
    let checked = (check_escapecode c t).1 in
    let checked_in = InBounds-Same t checked (check_escapecode-Same c t) v in
    elim (Bool-cases ((check_escapecode c t).0 || checked.is_ansi_escape)) [
      | inl e ↦ rw e (
          let scrolled =
            handle_scroll-InBounds (handle_escapecode c checked)
              (handle_escapecode-Due c checked checked_in) in
          InBounds-Same (handle_scroll (handle_escapecode c checked)) _
            (update_cursor-Same _ (omega (arith, scrolled.column_in, scrolled.row_in))) scrolled)
      | inr e ↦ rw e (show_char-InBounds c checked checked_in)
    ]

show_from-InBounds :
    {m : ℕ → ℕ} (left i : ℕ) (chars : List ℕ) (t : Terminal)
    → InBounds m t
    → InBounds m (show_from left i chars t)
unfolding show_from
show_from-InBounds zero i chars t v = v
show_from-InBounds (suc left) i chars t v =
    show_from-InBounds left (i + 1) chars (show (get_or chars i 0) t)
      (show-InBounds (get_or chars i 0) t v)

-- A tick of the terminal, whatever standard output holds, keeps its row below 25 and its column at
-- 80 at most. Of the memory behind the terminal's copy of the screen, it changes at most the
-- first place, 2000, where the cursor is stored behind a full last row.
pub update_tick-InBounds :
    (m : ℕ → ℕ) (stack : List ℕ) (t : Terminal) (s : Stdio)
    → InBounds m t
    → InBounds m (update_tick stack t s).0
unfolding update_tick
update_tick-InBounds m stack t s v = elim (Bool-cases ((stdout_get stack s).1 == 0)) [
  | inl e ↦ rw e v
  | inr e ↦
      let cleared = record t { screen = clear t.screen } in
      let shown =
        show_from-InBounds (stdout_get stack s).1 0 (stdout_get stack s).0 cleared (record {
          column_in = v.column_in;
          row_in = v.row_in;
          places = v.places;
          behind = v.behind;
        }) in
      rw e (record {
        column_in = shown.column_in;
        row_in = shown.row_in;
        places = shown.places;
        behind = shown.behind;
      })
]
