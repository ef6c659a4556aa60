-- ===== src/Bitset/Access.antt =====
-- What a client of bitset.h sees of a bitset, through `test_bit` alone.
use shawn_os.Prelude.{
  ℕ, zero, suc, ◌*◌, ◌/◌, ◌%◌, ◌^◌, ◌≤◌, ◌<◌, ◌≡◌, refl, arith, true, false, List, [], ◌∷◌, ltb,
  ◌==◌, if◌then◌else◌, length, get_or, get_or-outside, ok, abort, ◌>>=◌, ap, ◌∙◌,
}
use shawn_os.Bits.{bit, zero-bit}
use shawn_os.Kernel.{mul32, div_round_up}
use shawn_os.Bitset.{
  Bitset, zero_words, init, with_bit, without_bit, set_bit, get_bit, clear_bit, test_bit,
}
use shawn_os.Bitset.Laws.{
  IsValid, member, test_bit-member, member-with_bit, member-without_bit, set_bit-ok, clear_bit-ok,
}
use shawn_os.Bitset.Range.{length-with_bit, length-without_bit}

-- After `bitset_set_bit(n)` on a valid bitset, the bit `n` reads as set and every other bit in
-- range reads as it did.
test_bit-set_bit :
    (b : Bitset) (n m : ℕ)
    → IsValid b
    → n < b.length
    → m < b.length
    → (set_bit b n >>= λ b'. test_bit b' m) ≡ (if n == m then ok true else test_bit b m)
test_bit-set_bit b n m v hn hm = rw (set_bit-ok b n v hn) (
    ground (
      arith,
      test_bit-member b m hm,
      test_bit-member (with_bit b n) m (omega (arith, length-with_bit b n)),
      member-with_bit b n v hn m,
    ))

-- After `bitset_clear_bit(n)` on a valid bitset, the bit `n` reads as clear and every other bit
-- in range reads as it did.
test_bit-clear_bit :
    (b : Bitset) (n m : ℕ)
    → IsValid b
    → n < b.length
    → m < b.length
    → (clear_bit b n >>= λ b'. test_bit b' m) ≡ (if n == m then ok false else test_bit b m)
test_bit-clear_bit b n m v hn hm = rw (clear_bit-ok b n v hn) (
    ground (
      arith,
      test_bit-member b m hm,
      test_bit-member (without_bit b n) m (omega (arith, length-without_bit b n)),
      member-without_bit b n v hn m,
    ))

-- At an index outside the bitset the `ASSERT` of each of the three accesses stops the kernel.
access_out_of_range :
    (b : Bitset) (n : ℕ)
    → b.length ≤ n
    → (set_bit b n ≡ abort) × (clear_bit b n ≡ abort) × (get_bit b n ≡ abort)
unfolding set_bit clear_bit get_bit
access_out_of_range b n h = let e : ltb n b.length ≡ false = ground arith in (rw e, rw e, rw e)

length-zero_words : (n : ℕ) (ws : List ℕ) → length (zero_words n ws) ≡ length ws
unfolding zero_words
length-zero_words n [] = refl
length-zero_words zero (w ∷ ws) = refl
length-zero_words (suc n) (w ∷ ws) = ap suc (length-zero_words n ws)

get_or-zero_words :
    (n i : ℕ) (ws : List ℕ) → get_or (zero_words n ws) i 0 ≡ (if ltb i n then 0 else get_or ws i 0)
unfolding zero_words
get_or-zero_words n i [] = ground arith
get_or-zero_words zero i (w ∷ ws) = ground arith
get_or-zero_words (suc n) zero (w ∷ ws) = ground arith
get_or-zero_words (suc n) (suc i) (w ∷ ws) = ground (arith, get_or-zero_words n i ws)

abbrev word_count : ℕ → ℕ
word_count len = mul32 (div_round_up len 32) 4 / 4

pub member-init :
    (ws : List ℕ) (len m : ℕ) → 0 < len → len < 2 ^ 32 → m < len → member (init ws len) m ≡ 0
unfolding init member
member-init ws len m pos small h = rw word_zero (zero-bit (m % 32))
  where
    in_count : m / 32 < word_count len
    in_count = omega arith

    word_zero : get_or (zero_words (word_count len) ws) (m / 32) 0 ≡ 0
    word_zero = ground (arith, get_or-zero_words (word_count len) (m / 32) ws, in_count)

-- Over no more words than the length needs, every bit is clear, also behind the length.
pub member-init_everywhere :
    (ws : List ℕ) (len m : ℕ) → length ws ≤ word_count len → member (init ws len) m ≡ 0
unfolding init member
member-init_everywhere ws len m short =
    ap (λ w. bit w (m % 32)) (no_word (m / 32)) ∙ zero-bit (m % 32)
  where
    no_word : (i : ℕ) → get_or (zero_words (word_count len) ws) i 0 ≡ 0
    no_word i = ground (arith, get_or-zero_words (word_count len) i ws, get_or-outside ws i 0)

-- What `bitset_init` leaves, stated through the bits.
pub init-IsValid :
    (ws : List ℕ) (len : ℕ)
    → len ≤ 32 * length ws
    → ((n : ℕ) → get_or ws n 0 < 2 ^ 32)
    → IsValid (init ws len)
unfolding init
init-IsValid ws len covers words = record {
  covered = omega (arith, length-zero_words (word_count len) ws);
  fits = λ n. ground (arith, get_or-zero_words (word_count len) (n / 32) ws, words (n / 32));
}

-- `bitset_init` over words that cover the length leaves a valid bitset with every bit clear.
init_lem :
    (ws : List ℕ) (len : ℕ)
    → 0 < len
    → len < 2 ^ 32
    → len ≤ 32 * length ws
    → ((n : ℕ) → get_or ws n 0 < 2 ^ 32)
    → IsValid (init ws len) × ((m : ℕ) → m < len → test_bit (init ws len) m ≡ ok false)
unfolding init
init_lem ws len pos small covers words = (
  init-IsValid ws len covers words,
  λ m h. ground (arith, test_bit-member (init ws len) m h, member-init ws len m pos small h),
)
