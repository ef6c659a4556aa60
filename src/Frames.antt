-- ===== src/Frames.antt =====
-- kernel/arch/i386/mem.c, the page frames: `i386_mem_frame_bitset` and its allocator.
-- A set bit is a frame in use. `printk_debug` is left out.
pub mod Scan
pub mod Alloc
mod Tests
use shawn_os.Prelude.{
  ℕ, zero, suc, ◌+◌, ◌-◌, ◌*◌, ◌/◌, ◌^◌, bit_and, Option, none, some, ◌==◌, if◌then◌else◌, get_or,
  Outcome, ok, ◌>>=◌,
}
use shawn_os.Kernel.{page_size, mul32}
use shawn_os.Bitset.{Bitset, index_from_bit, set_bit, clear_bit}

-- The frame bitset, and `meminfo.highest_free_address`.
pub record Frames : Type 0 where
  pub bitset : Bitset
  pub highest_free_address : ℕ

-- The loop over the bits of one word, from bit `j`.
unfoldable pub first_clear : ℕ → ℕ → ℕ → Option ℕ
first_clear zero j w = none
first_clear (suc left) j w =
    let rest = first_clear left (j + 1) w in if bit_and w (2 ^ j) == 0 then some j else rest

-- The loop over the words, from word `i`. A full word is skipped without a look at its bits.
unfoldable pub next_free : ℕ → ℕ → Bitset → ℕ
next_free zero i b = 0
next_free (suc left) i b =
    let w = get_or b.start i 0 in
    let rest = next_free left (i + 1) b in
    if w == 0xffff_ffff
    then rest
    else (elim (first_clear 32 0 w) [ none ↦ rest | some j ↦ i * 32 + j ])

unfoldable pub get_next_free_frame : Frames → ℕ
get_next_free_frame s = next_free (index_from_bit (s.highest_free_address / page_size)) 0 s.bitset

unfoldable pub allocate_frame : Frames → Outcome (ℕ × Frames)
allocate_frame s =
    let frame = get_next_free_frame s in
    if frame == 0
    then ok (frame, s)
    else (set_bit s.bitset frame >>= λ b. ok (frame, record s { bitset = b }))

unfoldable pub free_frame : ℕ → Frames → Outcome Frames
free_frame frame s = do b ← clear_bit s.bitset frame; ok (record s { bitset = b })

unfoldable pub get_frame_start_addr : ℕ → ℕ
get_frame_start_addr num = mul32 num page_size

unfoldable pub get_frame_num : ℕ → ℕ
get_frame_num addr = addr / page_size
