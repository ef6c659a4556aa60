-- ===== src/Terminal/Bounds.antt =====
-- The terminal's position stays on the screen, character by character.
use shawn_os.Prelude.{
  ℕ, zero, suc, ◌+◌, ◌*◌, ◌≢◌, ◌≤◌, ◌<◌, ◌≡◌, refl, ◌∙◌, arith, leb, ◌==◌, length, length-set,
  Bool-cases, inl, inr,
}
use shawn_os.Terminal.{
  Terminal, putentry, update_cursor, lift_row, lift_rows, lift_all, handle_scroll, handle_overflow,
}

-- A line that is full keeps its position behind the last column until the next character. Behind
-- the copy of the screen, `m` is the memory, but for the first place.
pub record InBounds (m : ℕ → ℕ) (t : Terminal) : Type 0 where
  pub column_in : t.xpos ≤ 80
  pub row_in : t.ypos < 25
  pub places : length t.buffer ≡ 2000
  pub behind : (k : ℕ) → k ≢ 2000 → t.behind k ≡ m k

-- The same while a scroll is due.
pub record Due (m : ℕ → ℕ) (t : Terminal) : Type 0 where
  pub column_in : t.xpos ≤ 80
  pub row_in : t.ypos ≤ 25
  pub places : length t.buffer ≡ 2000
  pub behind : (k : ℕ) → k ≢ 2000 → t.behind k ≡ m k

-- The two agree on what the bounds speak of.
pub record Same (t u : Terminal) : Type 0 where
  pub same_xpos : u.xpos ≡ t.xpos
  pub same_ypos : u.ypos ≡ t.ypos
  pub same_places : length u.buffer ≡ length t.buffer
  pub same_behind : (k : ℕ) → k ≢ 2000 → u.behind k ≡ t.behind k

pub putentry-Same :
    (c color x y : ℕ) (t : Terminal) → y * 80 + x ≤ 2000 → Same t (putentry c color x y t)
unfolding putentry
putentry-Same c color x y t at = record {
  same_xpos = refl;
  same_ypos = refl;
  same_places = length-set t.buffer _ _;
  same_behind = λ k ne. ground (arith, ne, at);
}

pub update_cursor-Same : (t : Terminal) → t.ypos * 80 + t.xpos ≤ 2000 → Same t (update_cursor t)
unfolding update_cursor
update_cursor-Same t at = elim (Bool-cases (t.xpos == 0)) [
  | inl e ↦ rw e (putentry-Same _ _ _ _ t at)
  | inr e ↦ rw e (putentry-Same _ _ _ _ t at)
]

pub InBounds-Same : {m : ℕ → ℕ} (t u : Terminal) → Same t u → InBounds m t → InBounds m u
InBounds-Same t u same v = record {
  column_in = omega (arith, same.same_xpos, v.column_in);
  row_in = omega (arith, same.same_ypos, v.row_in);
  places = same.same_places ∙ v.places;
  behind = λ k ne. same.same_behind k ne ∙ v.behind k ne;
}

pub Same-trans : (t u w : Terminal) → Same t u → Same u w → Same t w
Same-trans t u w a b = record {
  same_xpos = b.same_xpos ∙ a.same_xpos;
  same_ypos = b.same_ypos ∙ a.same_ypos;
  same_places = b.same_places ∙ a.same_places;
  same_behind = λ k ne. b.same_behind k ne ∙ a.same_behind k ne;
}

lift_row-Same : (left x y : ℕ) (t : Terminal) → x + left ≤ 80 → Same t (lift_row left x y t)
unfolding lift_row
lift_row-Same zero x y t fits = record {
  same_xpos = refl;
  same_ypos = refl;
  same_places = refl;
  same_behind = λ k ne. refl;
}
lift_row-Same (suc left) x y t fits = elim (Bool-cases (y == 24)) [
  | inl e ↦ rw e (
      Same-trans t _ _ (putentry-Same _ _ x y t (ground (arith, e)))
        (lift_row-Same left (x + 1) y _ (omega arith)))
  | inr e ↦ rw e (
      Same-trans t _ _
        (record {
          same_xpos = refl;
          same_ypos = refl;
          same_places = length-set t.buffer _ _;
          same_behind = λ k ne. refl;
        })
        (lift_row-Same left (x + 1) y _ (omega arith)))
]

lift_rows-Same : (left y : ℕ) (t : Terminal) → Same t (lift_rows left y t)
unfolding lift_rows
lift_rows-Same zero y t = record {
  same_xpos = refl;
  same_ypos = refl;
  same_places = refl;
  same_behind = λ k ne. refl;
}
lift_rows-Same (suc left) y t =
    Same-trans t _ _ (lift_row-Same 80 0 y t (omega arith))
      (lift_rows-Same left (y + 1) (lift_row 80 0 y t))

pub handle_scroll-InBounds : {m : ℕ → ℕ} (t : Terminal) → Due m t → InBounds m (handle_scroll t)
unfolding handle_scroll lift_all
handle_scroll-InBounds t due = elim (Bool-cases (t.ypos == 25)) [
  | inl e ↦
      let lifted = lift_rows-Same 25 0 t in
      rw e (record {
        column_in = omega (arith, lifted.same_xpos, due.column_in);
        row_in = ground (arith, e, lifted.same_ypos);
        places = lifted.same_places ∙ due.places;
        behind = λ k ne. lifted.same_behind k ne ∙ due.behind k ne;
      })
  | inr e ↦ rw e (record {
    column_in = due.column_in;
    row_in = ground (arith, e, due.row_in);
    places = due.places;
    behind = due.behind;
  })
]

pub xpos-handle_scroll : (t : Terminal) → (handle_scroll t).xpos ≡ t.xpos
unfolding handle_scroll lift_all
xpos-handle_scroll t = elim (Bool-cases (t.ypos == 25)) [
  | inl e ↦ rw e (lift_rows-Same 25 0 t).same_xpos
  | inr e ↦ rw e refl
]

pub handle_overflow-Due :
    {m : ℕ → ℕ} (t : Terminal)
    → InBounds m t
    → Due m (handle_overflow t) × ((handle_overflow t).xpos < 80)
unfolding handle_overflow
handle_overflow-Due t v = elim (Bool-cases (leb 80 t.xpos)) [
  | inl e ↦ rw e (
    record {
      column_in = omega arith;
      row_in = omega (arith, v.row_in);
      places = v.places;
      behind = v.behind;
    },
    omega arith,
  )
  | inr e ↦ rw e (
    record {
      column_in = v.column_in;
      row_in = omega (arith, v.row_in);
      places = v.places;
      behind = v.behind;
    },
    ground (arith, e),
  )
]
