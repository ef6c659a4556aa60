-- ===== src/Bitset.antt =====
-- kernel/include/kernel/bitset.h: a bitset over the 32-bit words at `start`.
-- A bitset owns its words: nothing else writes the memory that they stand in. The functions get
-- the address of a bitset that exists, so `ASSERT(bitset)` passes.
pub mod Laws
pub mod Range
pub mod Access
mod Tests
use shawn_os.Prelude.{
  ℕ, zero, suc, ◌+◌, ◌-◌, ◌*◌, ◌/◌, ◌%◌, ◌^◌, ◌≤◌, ◌<◌, bit_and, bit_or, Bool, not, List, [], ◌∷◌,
  ltb, ◌==◌, if◌then◌else◌, length, get_or, set, Outcome, ok, abort, ◌>>=◌, ◌>>◌, assert,
}
use shawn_os.Bits.{bit, all_but}
use shawn_os.Kernel.{mul32, div_round_up}

pub record Bitset : Type 0 where
  pub length : ℕ
  pub start : List ℕ

-- `INDEX_FROM_BIT` and `OFFSET_FROM_BIT`
abbrev pub index_from_bit : ℕ → ℕ
index_from_bit n = n / 32

abbrev pub offset_from_bit : ℕ → ℕ
offset_from_bit n = n % 32

-- `memset(start, 0, 4 * n)` over words.
pub zero_words : ℕ → List ℕ → List ℕ
zero_words n [] = []
zero_words zero (w ∷ ws) = w ∷ ws
zero_words (suc n) (w ∷ ws) = 0 ∷ zero_words n ws

unfoldable pub init : List ℕ → ℕ → Bitset
init start length = record {
  length = length;
  start = zero_words (mul32 (div_round_up length 32) 4 / 4) start;
}

-- the word that holds the bit `n`
abbrev pub word : Bitset → ℕ → ℕ
word b n = get_or b.start (index_from_bit n) 0

-- `start[n / 32] |= 1 << n % 32`
unfoldable pub with_bit : Bitset → ℕ → Bitset
with_bit b n = record b {
  start = set b.start (index_from_bit n) (bit_or (word b n) (2 ^ offset_from_bit n));
}

-- `start[n / 32] &= ~(1 << n % 32)`
unfoldable pub without_bit : Bitset → ℕ → Bitset
without_bit b n = record b {
  start = set b.start (index_from_bit n) (bit_and (word b n) (all_but 32 (offset_from_bit n)));
}

unfoldable pub set_bit : Bitset → ℕ → Outcome Bitset
unfolding with_bit
set_bit b n = do assert (ltb n b.length); ok (with_bit b n)

-- The value is the masked word, zero or not.
unfoldable pub get_bit : Bitset → ℕ → Outcome ℕ
get_bit b n = do assert (ltb n b.length); ok (bit_and (word b n) (2 ^ offset_from_bit n))

unfoldable pub clear_bit : Bitset → ℕ → Outcome Bitset
unfolding without_bit
clear_bit b n = do assert (ltb n b.length); ok (without_bit b n)

-- How every caller reads a bit: as a condition.
unfoldable pub test_bit : Bitset → ℕ → Outcome Bool
unfolding get_bit
test_bit b n = do v ← get_bit b n; ok (not (v == 0))
