-- ===== src/Textmode/Scroll.antt =====
-- `vga_textmode_scroll`: what each place of the video memory holds afterwards.
use shawn_os.Prelude.{
  ℕ, zero, suc, ◌+◌, ◌*◌, ◌≤◌, ◌<◌, ◌≡◌, refl, arith, List, ltb, ◌==◌, if◌then◌else◌, length, set,
  get_or, length-set, get_or-set_self, get_or-set_ne, ap,
}
use native.Mathlib.Decide.{ℕ_discrete}
use shawn_os.Textmode.{make_vgaentry, Textmode, scroll, scroll_row, scroll_rows}
use shawn_os.Textmode.Bounds.{length-scroll_row}

get_or-scroll_row :
    (left x y entry k : ℕ) (xs : List ℕ)
    → x + left ≤ 80
    → y < 25
    → y * 80 + 80 ≤ length xs
    → get_or (scroll_row left x y entry xs) k 0 ≡ (
        if ltb k (y * 80 + x)
        then get_or xs k 0
        else (if ltb k (y * 80 + x + left) then get_or xs (k + 80) 0 else get_or xs k 0))
unfolding scroll_row
get_or-scroll_row zero x y entry k xs fits on memory = ground arith
get_or-scroll_row (suc left) x y entry k xs fits on memory =
    let value = if y == 25 then entry else get_or xs (y * 80 + x + 80) 0 in
    let below : value ≡ get_or xs (y * 80 + x + 80) 0 = ground (arith, on) in
    let rest =
      get_or-scroll_row left (x + 1) y entry k (set xs (y * 80 + x) value) (omega arith) on
        (omega (arith, length-set {0} xs (y * 80 + x) value)) in
    elim (ℕ_discrete (y * 80 + x) k) [
      | yes e ↦ ground (
        arith,
        rest,
        below,
        get_or-set_self xs (y * 80 + x) value 0 (omega arith),
        ap (λ (t : ℕ). get_or (set xs (y * 80 + x) value) t 0) e,
        ap (λ (t : ℕ). get_or xs (t + 80) 0) e,
      )
      | no ne ↦ ground (
        arith,
        rest,
        get_or-set_ne xs (y * 80 + x) k value 0 ne,
        get_or-set_ne xs (y * 80 + x) (k + 80) value 0,
      )
    ]

get_or-scroll_rows :
    (left y entry k : ℕ) (xs : List ℕ)
    → y + left ≤ 25
    → 2000 ≤ length xs
    → get_or (scroll_rows left y entry xs) k 0 ≡ (
        if ltb k (y * 80)
        then get_or xs k 0
        else (if ltb k ((y + left) * 80) then get_or xs (k + 80) 0 else get_or xs k 0))
unfolding scroll_rows
get_or-scroll_rows zero y entry k xs fits memory = ground arith
get_or-scroll_rows (suc left) y entry k xs fits memory = ground (
  arith,
  get_or-scroll_rows left (y + 1) entry k (scroll_row 80 0 y entry xs) (omega arith)
      (omega (arith, length-scroll_row 80 0 y entry xs)),
  get_or-scroll_row 80 0 y entry k xs (omega arith) (omega arith) (omega arith),
  get_or-scroll_row 80 0 y entry (k + 80) xs (omega arith) (omega arith) (omega arith),
)

-- Scrolling moves each row up by one. The last row is not blanked: it is filled with what stands in
-- the 80 places of video memory behind the screen. All places behind the screen keep their
-- contents, and the cursor goes to the start of the last row.
pub scroll_lem :
    (t : Textmode)
    → 2000 ≤ length t.buffer
    → ((k : ℕ)
        → get_or (scroll t).buffer k 0
          ≡ (if ltb k 2000 then get_or t.buffer (k + 80) 0 else get_or t.buffer k 0))
      × ((scroll t).row ≡ 24)
      × ((scroll t).column ≡ 0)
unfolding scroll
scroll_lem t memory = (
  λ k.
      ground
        (arith, get_or-scroll_rows 25 0 (make_vgaentry 32 t.color) k t.buffer (omega arith) memory),
  refl,
  refl,
)
