-- ===== src/Mmu/Walk/Alloc.antt =====
-- Allocating and freeing a page whose table is present.
use shawn_os.Prelude.{
  ℕ, ◌+◌, ◌*◌, ◌/◌, ◌%◌, ◌^◌, ◌<◌, ◌≡◌, ◌≢◌, refl, ◌∙◌, arith, false, ◌==◌, bit_and, bit_or, ok,
}
use shawn_os.Bits.{bit_and-one}
use shawn_os.Kernel.{mul32, k_success}
use shawn_os.Bitset.{without_bit}
use shawn_os.Bitset.Laws
use shawn_os.Bitset.Laws.{clear_bit-ok}
use shawn_os.Frames.{Frames, allocate_frame}
use shawn_os.Mmu.{Mmu, address_mask, table_index, window_table}
use shawn_os.Mmu.Access.{move_window, ensure_table}
use shawn_os.Mmu.Pages.{allocate_page, free_page}
use shawn_os.Mmu.Window.{masked, flagged}
use shawn_os.Mmu.Walk.{
  dir_entry, table_entry, walk, leaf, IsValid, at_dir, at_table, dir_ptr, load_dir,
  table_ptr_window,
}
use shawn_os.Mmu.Walk.Phys.{load_entry}
use shawn_os.Mmu.Walk.Entry.{Changed, with_entry, store_entry, write_entry_lem, with_entry-Changed}

pub frames-IsValid : (s : Mmu) (f : Frames) → IsValid s → IsValid (record s { frames = f })
unfolding window_table
frames-IsValid s f v = record {
  ready = record {
    done = v.ready.done;
    aligned = v.ready.aligned;
    small = v.ready.small;
    apart = v.ready.apart;
    own_table = v.ready.own_table;
    words = v.ready.words;
  };
  window_present = v.window_present;
  off_dir = v.off_dir;
  separate = v.separate;
}

Changed-of_frames :
    (s t : Mmu) (f : Frames) (address value : ℕ)
    → Changed (record s { frames = f }) t address value
    → Changed s t address value
unfolding walk
Changed-of_frames s t f address value c = record {
  valid = c.valid;
  same_dir = c.same_dir;
  same_window = c.same_window;
  same_table = c.same_table;
  entry = c.entry;
  here = c.here;
  others = c.others;
  same_dirs = c.same_dirs;
}

frames-Changed :
    (s t : Mmu) (f : Frames) (address value : ℕ)
    → Changed s t address value
    → Changed s (record t { frames = f }) address value
unfolding walk
frames-Changed s t f address value c = record {
  valid = frames-IsValid t f c.valid;
  same_dir = c.same_dir;
  same_window = c.same_window;
  same_table = c.same_table;
  entry = c.entry;
  here = c.here;
  others = c.others;
  same_dirs = c.same_dirs;
}

ensure_present :
    (s : Mmu) (v : IsValid s) (address flags : ℕ)
    → dir_entry s address % 2 ≡ 1
    → ensure_table s.page_directory (table_index address) flags s.window_page (at_dir s)
      ≡ ok (k_success, s.window_page, at_dir s)
unfolding ensure_table
ensure_present s v address flags present =
    rw (load_dir s v.ready (table_index address), bit_and-one (dir_entry s address), present) refl

page_word :
    (frame flags : ℕ)
    → frame < 2 ^ 20
    → flags < 4096
    → bit_or (mul32 frame 4096) flags ≡ frame * 4096 + flags
page_word frame flags small low = flagged (mul32 frame 4096) flags (omega arith) low ∙ omega arith

-- `i386_allocate_page` at a page whose table is present, with the flag for present among `pt_flags`
-- and a frame to be had: it succeeds and stores the frame's address. From then on the walk leads
-- from the address to that frame, and from every other page, but the window, where it led before.
pub allocate_page_lem :
    (s : Mmu) (address pt_flags pd_flags frame : ℕ) (frames : Frames)
    → IsValid s
    → address % 4096 ≡ 0
    → dir_entry s address % 2 ≡ 1
    → pt_flags < 4096
    → pt_flags % 2 ≡ 1
    → allocate_frame s.frames ≡ ok (frame, frames)
    → frame ≢ 0
    → frame < 2 ^ 20
    → (s' : Mmu) × (allocate_page s.page_directory address pt_flags pd_flags s
        ≡ ok (k_success, frame * 4096, s'))
      × Changed s s' address (frame * 4096 + pt_flags)
      × (walk s' address ≡ frame * 4096)
      × (s'.frames ≡ frames)
unfolding allocate_page move_window leaf
allocate_page_lem s address pt_flags pd_flags frame frames v aligned present low on got real small =
    let t = record s { frames = frames } in
    let tv = frames-IsValid s frames v in
    let word = page_word frame pt_flags small low in
    let out : bit_and (frame * 4096 + pt_flags) address_mask ≡ frame * 4096 =
      masked (frame * 4096 + pt_flags) (omega arith) ∙ omega arith in
    let test : (frame == 0) ≡ false = ground (arith, real) in
    let changed = with_entry-Changed t tv address (frame * 4096 + pt_flags) present (omega arith) in
    (
      with_entry address (frame * 4096 + pt_flags) (at_table t address),
      rw (aligned, got, test, dir_ptr t tv.ready)
          (rw
            (
              ensure_present t tv address pd_flags present,
              word,
              write_entry_lem t tv address (frame * 4096 + pt_flags) present,
              out,
            )
            refl),
      Changed-of_frames s _ frames address (frame * 4096 + pt_flags) changed,
      changed.here ∙ ground (arith, on),
      refl,
    )

-- `i386_free_page` at a page whose table is present, other than the window: it succeeds, the walk
-- finds nothing there any more and all else but the window's as before, and the frame that the
-- entry named, present or not, is free.
pub free_page_lem :
    (s : Mmu) (address : ℕ)
    → IsValid s
    → address % 4096 ≡ 0
    → dir_entry s address % 2 ≡ 1
    → address / 4096 ≢ s.window_page / 4096
    → Laws.IsValid s.frames.bitset
    → table_entry s address / 4096 < s.frames.bitset.length
    → (s' : Mmu) × (free_page s.page_directory address s ≡ ok (k_success, s'))
      × Changed s s' address 2
      × (walk s' address ≡ 0)
      × (s'.frames
          ≡ record s.frames { bitset = without_bit s.frames.bitset (table_entry s address / 4096) })
unfolding free_page move_window leaf walk
free_page_lem s address v aligned present other bits inside =
    let changed = with_entry-Changed s v address 2 present (omega arith) in
    let emptied = with_entry address 2 (at_table s address) in
    (
      record emptied {
        frames = record s.frames {
          bitset = without_bit s.frames.bitset (table_entry s address / 4096);
        };
      },
      rw
          (
            aligned,
            dir_ptr s v.ready,
            load_dir s v.ready (table_index address),
            bit_and-one (dir_entry s address),
            present,
            table_ptr_window s v address present,
            load_entry s v address present other,
            store_entry s v address 2 present,
            clear_bit-ok s.frames.bitset (table_entry s address / 4096) bits inside,
          )
          refl,
      frames-Changed s emptied _ address 2 changed,
      changed.here,
      refl,
    )
