-- ===== src/Heap/Sections.antt =====
-- What `kheap_malloc` and `kheap_free` do within one block.
pub mod Mark
pub mod Search
pub mod Take
pub mod Release
use shawn_os.Prelude.{
  ℕ, zero, suc, ◌+◌, ◌-◌, ◌*◌, ◌/◌, ◌%◌, ◌^◌, Bool, true, false, ◌&&◌, ◌||◌, not, Option, none,
  some, ltb, leb, ◌==◌, if◌then◌else◌, set, Outcome, ok, abort, out_of_fuel, ◌>>=◌, ◌>>◌, assert,
}
use shawn_os.Kernel.{add32, sub32, mul32, div_round_up}
use shawn_os.Bitset.{Bitset, set_bit, clear_bit, test_bit}
use shawn_os.Bitset.Range.{clear_bits}
use shawn_os.Heap.{Block, header_size}

-- The search for `n_sec` free sections in a row, with `left` rounds to go in round `k`. It starts
-- at the first free section and wraps at the end of the block.
unfoldable pub search : Block → ℕ → ℕ → ℕ → ℕ → ℕ → Outcome (Option ℕ)
search b n_sec zero k first_free continuous = ok none
search b n_sec (suc left) k first_free continuous = do
  let i = add32 b.first_free_section k % b.used_sections.length
  taken ← test_bit b.used_sections i
  let first' = if not taken && not (ltb i first_free) && continuous == 0 then i else first_free
  let continuous' = if taken then 0 else add32 (if ltb i first_free then 0 else continuous) 1
  let rest = search b n_sec left (k + 1) first' continuous'
  if not taken && continuous' == n_sec then ok (some first') else rest

-- All ones in the word at `index`.
unfoldable pub fill_word : Bitset → ℕ → Bitset
fill_word b index = record b { start = set b.start index 0xffff_ffff }

-- The loop that marks the sections from `j` up to `end`, a word at a time where it can.
unfoldable pub mark_used : ℕ → ℕ → ℕ → Bitset → Outcome Bitset
mark_used zero j end b = out_of_fuel
mark_used (suc fuel) j end b =
    let by_word = mark_used fuel (j + 32) end (fill_word b (j / 32)) in
    let by_bit = set_bit b j >>= mark_used fuel (j + 1) end in
    if ltb j end then (if j % 32 == 0 && ltb (j + 32) end then by_word else by_bit) else ok b

-- What a successful search does to its block.
unfoldable pub take_sections : Block → ℕ → ℕ → Outcome Block
take_sections b first_free n_sec = do
  let end = add32 first_free n_sec
  used ← mark_used (n_sec + 1) first_free end b.used_sections
  delimiters ← set_bit b.delimiters (sub32 end 1)
  ok (record b {
    used_sections = used;
    delimiters = delimiters;
    free_sections = sub32 b.free_sections n_sec;
    first_free_section = end;
  })

-- `max_free_space`, and the sections that a request of `size` bytes needs.
abbrev pub max_free_space : Block → ℕ
max_free_space b =
    sub32 (sub32 (sub32 b.block_size header_size) (mul32 (b.delimiters.length / 32) 4))
      (mul32 (b.used_sections.length / 32) 4)

abbrev pub sections_for : Block → ℕ → ℕ
sections_for b size = div_round_up size b.section_size

-- One round of the loop over the blocks: the first section of the allocation and the block after
-- it, if this block serves the request.
unfoldable pub try_block : ℕ → Block → Outcome (Option (ℕ × Block))
try_block size b =
    let n_sec = sections_for b size in
    if ltb (max_free_space b) size || ltb b.free_sections n_sec
    then ok none
    else (search b n_sec b.used_sections.length 0 0 0 >>= λ found. elim found [
      | none ↦ ok none
      | some first_free ↦ take_sections b first_free n_sec >>= λ b'. ok (some (first_free, b'))
    ])

-- The first delimiter from section `i` on, 0 where there is none.
unfoldable pub find_delimiter : ℕ → ℕ → Bitset → Outcome ℕ
find_delimiter zero i d = ok 0
find_delimiter (suc left) i d = do
  found ← test_bit d i
  let rest = find_delimiter left (i + 1) d
  if found then ok i else rest

-- `kheap_free` in the block that holds the address. The source clears the delimiter where it finds
-- it, before the `ASSERT` that there is one; where that fails, nothing runs any more.
unfoldable pub release : Block → ℕ → Outcome (ℕ × Block)
release b addr = do
  let sect_num = sub32 addr b.start / b.section_size
  used ← test_bit b.used_sections sect_num
  assert used
  last ← find_delimiter (b.delimiters.length - sect_num) sect_num b.delimiters
  assert (not (last == 0))
  delimiters ← clear_bit b.delimiters last
  used' ← clear_bits (last + 1 - sect_num) sect_num b.used_sections
  let count = add32 (sub32 last sect_num) 1
  ok (
    count,
    record b {
      used_sections = used';
      delimiters = delimiters;
      first_free_section = sect_num;
      free_sections = add32 b.free_sections count;
    },
  )
