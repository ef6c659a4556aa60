-- ===== src/Frames/Tests.antt =====
-- The theorems on the frame allocator at 64 frames, of which the first word is in use but for
-- one frame.
use shawn_os.Prelude.{ℕ, ◌/◌, ◌≡◌, refl, arith, [], ◌∷◌, ok}
use shawn_os.Bits.{bit}
use shawn_os.Bitset.{set_bit}
use shawn_os.Bitset.Laws.{fits_of_all, member}
use shawn_os.Frames.{
  Frames, allocate_frame, free_frame, first_clear, next_free, get_next_free_frame,
}
use shawn_os.Frames.Alloc.{IsValid, Allocated, allocate_frame-Allocated, free_frame-allocate_frame}

abbrev frames : ℕ → ℕ → Frames
frames w x = record {
  bitset = record { length = 64; start = w ∷ x ∷ [] };
  highest_free_address = 0x4_0000;
}

frames-IsValid : IsValid (frames 0xffff_feff 0)
unfolding member bit
frames-IsValid = record {
  bits = record {
    covered = omega arith;
    fits = λ n. fits_of_all (0xffff_feff ∷ 0 ∷ []) (omega arith) (n / 32);
  };
  sized = refl;
  zero_taken = refl;
}

takes_the_hole : allocate_frame (frames 0xffff_feff 0) ≡ ok (8, frames 0xffff_ffff 0)
unfolding allocate_frame get_next_free_frame next_free first_clear set_bit
takes_the_hole = refl

skips_the_full_word : allocate_frame (frames 0xffff_ffff 0) ≡ ok (32, frames 0xffff_ffff 1)
unfolding allocate_frame get_next_free_frame next_free first_clear set_bit
skips_the_full_word = refl

allocate_frame-Allocated_example :
    Allocated (frames 0xffff_feff 0) (allocate_frame (frames 0xffff_feff 0))
allocate_frame-Allocated_example = allocate_frame-Allocated (frames 0xffff_feff 0) frames-IsValid

free_frame-allocate_frame_example :
    (u : Frames) × (free_frame 8 (frames 0xffff_ffff 0) ≡ ok u)
    × ((m : ℕ) → member u.bitset m ≡ member (frames 0xffff_feff 0).bitset m)
free_frame-allocate_frame_example =
    free_frame-allocate_frame (frames 0xffff_feff 0) (frames 0xffff_ffff 0) 8 frames-IsValid
      takes_the_hole (omega arith)
