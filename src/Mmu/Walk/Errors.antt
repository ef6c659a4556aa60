-- ===== src/Mmu/Walk/Errors.antt =====
-- A page that is freed twice, and a page table that cannot be allocated.
use shawn_os.Prelude.{ℕ, ◌/◌, ◌%◌, ◌<◌, ◌≡◌, ◌≢◌, refl, ap, sym, ◌∙◌, arith, ok}
use mathlib.Core.Path.{subst}
use shawn_os.Bits.{bit_and-one}
use shawn_os.Kernel.{k_success}
use shawn_os.Bitset.{Bitset, without_bit}
use shawn_os.Bitset.Laws
use shawn_os.Bitset.Laws.{without_bit-IsValid}
use shawn_os.Frames.{Frames, allocate_frame}
use shawn_os.Mmu.{Mmu, table_index}
use shawn_os.Mmu.Access.{move_window, ensure_table, allocate_page_table}
use shawn_os.Mmu.Pages.{free_page, identity_map_page, i386_kpage_identity_map}
use shawn_os.Mmu.Walk.{dir_entry, table_entry, walk, IsValid, at_dir, dir_ptr, load_dir}
use shawn_os.Mmu.Walk.Phys.{at_dir-Moved, absent_value}
use shawn_os.Mmu.Walk.Alloc.{free_page_lem}

-- A page whose table is present, other than the window, of which the entry names a frame inside the
-- bitset, freed and then freed again, in a valid state: the second call succeeds as well, where the
-- comment on the function promises `K_INVALOP`, and it marks frame 0 as free, the one that no
-- allocation may return.
pub free_page-free_page :
    (s : Mmu) (address : ℕ)
    → IsValid s
    → address % 4096 ≡ 0
    → dir_entry s address % 2 ≡ 1
    → address / 4096 ≢ s.window_page / 4096
    → Laws.IsValid s.frames.bitset
    → table_entry s address / 4096 < s.frames.bitset.length
    → (t : Mmu) × (u : Mmu) × (free_page s.page_directory address s ≡ ok (k_success, t))
      × (free_page t.page_directory address t ≡ ok (k_success, u))
      × (u.frames.bitset
          ≡ without_bit (without_bit s.frames.bitset (table_entry s address / 4096)) 0)
unfolding without_bit
free_page-free_page s address v aligned present other bits inside =
    let (t, first, c, gone, fb) = free_page_lem s address v aligned present other bits inside in
    let b = ap (λ (w : Frames). w.bitset) fb in
    let again : table_entry t address / 4096 ≡ 0 = omega (arith, c.entry) in
    let same_length : t.frames.bitset.length ≡ s.frames.bitset.length =
      ap (λ (x : Bitset). x.length) b in
    let (u, second, d, gone', fb') =
      free_page_lem t address c.valid aligned (ap (λ (e : ℕ). e % 2) c.same_table ∙ present)
        (omega (arith, c.same_window, other))
        (subst Laws.IsValid (sym b)
          (without_bit-IsValid s.frames.bitset (table_entry s address / 4096) bits inside))
        (omega (arith, inside, same_length)) in
    (
      t,
      u,
      first,
      second,
      ap (λ (w : Frames). w.bitset) fb'
          ∙ ap (without_bit t.frames.bitset) again
          ∙ ap (λ (x : Bitset). without_bit x 0) b,
    )

frames_walk : (t : Mmu) (f : Frames) (b : ℕ) → walk (record t { frames = f }) b ≡ walk t b
unfolding walk
frames_walk t f b = refl

-- Where the table of a page is not present and there is no frame for it, `__i386_kpage_identity_map`
-- reports success all the same; the page stays unmapped.
pub identity_map_out_of_frames :
    (s : Mmu) (address flags : ℕ) (frames : Frames)
    → IsValid s
    → address % 4096 ≡ 0
    → dir_entry s address % 2 ≡ 0
    → address / 4096 ≢ s.window_page / 4096
    → allocate_frame s.frames ≡ ok (0, frames)
    → (t : Mmu) × (i386_kpage_identity_map address flags s ≡ ok (k_success, t))
      × (walk t address ≡ 0)
unfolding i386_kpage_identity_map identity_map_page ensure_table allocate_page_table move_window
identity_map_out_of_frames s address flags frames v aligned absent other none_left = (
  record (at_dir s) { frames = frames },
  rw
      (
        aligned,
        dir_ptr s v.ready,
        load_dir s v.ready (table_index address),
        bit_and-one (dir_entry s address),
        absent,
        v.ready.done,
        none_left,
      )
      refl,
  frames_walk (at_dir s) frames address
      ∙ (at_dir-Moved s v).same_walk address other
      ∙ absent_value s address absent,
)
