-- ===== src/Bitset/Tests.antt =====
-- The theorems on bitsets at a bitset of 40 bits, and runs of its functions.
use shawn_os.Prelude.{ℕ, ◌/◌, ◌≡◌, refl, arith, true, false, [], ◌∷◌, List, ok, ◌>>=◌}
use shawn_os.Bitset.{Bitset, set_bit, get_bit, test_bit}
use shawn_os.Bitset.Laws.{IsValid, fits_of_all}

abbrev words : List ℕ
words = 0xf000_0001 ∷ 0x80 ∷ []

abbrev forty : Bitset
forty = record { length = 40; start = words }

forty-IsValid : IsValid forty
forty-IsValid = record {
  covered = omega arith;
  fits = λ n. fits_of_all words (omega arith) (n / 32);
}

bits_read :
    (test_bit forty 28 ≡ ok true) × (test_bit forty 27 ≡ ok false) × (get_bit forty 39 ≡ ok 0x80)
unfolding test_bit
bits_read = (refl, refl, refl)

set_then_read : (set_bit forty 27 >>= λ b. get_bit b 27) ≡ ok 0x800_0000
unfolding set_bit get_bit
set_then_read = refl
