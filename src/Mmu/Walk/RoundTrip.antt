-- ===== src/Mmu/Walk/RoundTrip.antt =====
-- Allocating a page and freeing it again.
use shawn_os.Prelude.{ℕ, ◌*◌, ◌/◌, ◌%◌, ◌^◌, ◌<◌, ◌≡◌, ◌≢◌, refl, ap, sym, ◌∙◌, arith, ok}
use mathlib.Core.Path.{subst}
use shawn_os.Kernel.{k_success}
use shawn_os.Bitset.{without_bit}
use shawn_os.Bitset.Laws
use shawn_os.Bitset.Laws.{member, clear_bit-ok}
use shawn_os.Frames.{Frames, allocate_frame, free_frame}
use shawn_os.Frames.Alloc
use shawn_os.Frames.Alloc.{allocate_frame-Allocated, free_frame-allocate_frame, Grant-of_answer}
use shawn_os.Mmu.{Mmu}
use shawn_os.Mmu.Pages.{allocate_page, free_page}
use shawn_os.Mmu.Walk.{dir_entry, table_entry, walk, IsValid}
use shawn_os.Mmu.Walk.Alloc.{allocate_page_lem, free_page_lem}

module _ (s t : Frames) (f : ℕ) (v : Alloc.IsValid s) (e : allocate_frame s ≡ ok (f, t))
    (ne : f ≢ 0) where
  bits-Grant : Laws.IsValid t.bitset × (f < t.bitset.length)
  bits-Grant =
      let g = Grant-of_answer f t (allocate_frame-Allocated s v) e ne in
      (g.valid.bits, omega (arith, g.valid.sized, g.same, g.inside))

  freed_members : (m : ℕ) → member (without_bit t.bitset f) m ≡ member s.bitset m
  unfolding free_frame
  freed_members m =
      let (u, eu, ms) = free_frame-allocate_frame s t f v e ne in
      let freed : free_frame f t ≡ ok (record t { bitset = without_bit t.bitset f }) =
        rw (clear_bit-ok t.bitset f bits-Grant.0 bits-Grant.1) refl in
      let same : u ≡ record t { bitset = without_bit t.bitset f } = cc in
      ap (λ (w : Frames). member w.bitset m) (sym same) ∙ ms m

-- A page other than the window, allocated where its table is present and there is a frame for it,
-- and then freed: both calls succeed, the page is unmapped, and the bitset says of every frame what
-- it said before.
pub free_page-allocate_page :
    (s : Mmu) (address pt_flags pd_flags frame : ℕ) (frames : Frames)
    → IsValid s
    → Alloc.IsValid s.frames
    → address % 4096 ≡ 0
    → dir_entry s address % 2 ≡ 1
    → address / 4096 ≢ s.window_page / 4096
    → pt_flags < 4096
    → pt_flags % 2 ≡ 1
    → allocate_frame s.frames ≡ ok (frame, frames)
    → frame ≢ 0
    → frame < 2 ^ 20
    → (t : Mmu) × (u : Mmu) × (allocate_page s.page_directory address pt_flags pd_flags s
        ≡ ok (k_success, frame * 4096, t))
      × (free_page t.page_directory address t ≡ ok (k_success, u))
      × (walk u address ≡ 0)
      × ((m : ℕ) → member u.frames.bitset m ≡ member s.frames.bitset m)
free_page-allocate_page s address pt_flags pd_flags frame frames v fv aligned present other low on
      got real small =
    let (t, first, c, here, kept) =
      allocate_page_lem s address pt_flags pd_flags frame frames v aligned present low on got real
        small in
    let (bits, inside) = bits-Grant s.frames frames frame fv got real in
    let named : table_entry t address / 4096 ≡ frame = omega (arith, c.entry) in
    let (u, second, d, gone, fb) =
      free_page_lem t address c.valid aligned (ap (λ (e : ℕ). e % 2) c.same_table ∙ present)
        (omega (arith, c.same_window, other))
        (subst (λ (w : Frames). Laws.IsValid w.bitset) (sym kept) bits)
        (omega (arith, ap (λ (w : Frames). w.bitset.length) kept)) in
    (
      t,
      u,
      first,
      second,
      gone,
      λ m.
          ap (λ (w : Frames). member w.bitset m) fb
          ∙ ap (λ (w : Frames). member (without_bit w.bitset (table_entry t address / 4096)) m) kept
          ∙ ap (λ (n : ℕ). member (without_bit frames.bitset n) m) named
          ∙ freed_members s.frames frames frame fv got real m,
    )
