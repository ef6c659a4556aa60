-- ===== src/Bitset/Range.antt =====
-- The loops `for (i = from; i < from + count; i++)` that the users of bitset.h run over
-- `bitset_set_bit` and `bitset_clear_bit`.
use shawn_os.Prelude.{
  ℕ, zero, suc, ◌+◌, ◌≤◌, ◌<◌, ◌≡◌, refl, arith, ltb, leb, if◌then◌else◌, ◌&&◌, Outcome, ok, ◌>>=◌,
}
use shawn_os.Bitset.{Bitset, with_bit, without_bit, set_bit, clear_bit}
use shawn_os.Bitset.Laws.{
  IsValid, member, member-with_bit, member-without_bit, with_bit-IsValid, without_bit-IsValid,
  set_bit-ok, clear_bit-ok,
}

unfoldable pub set_bits : ℕ → ℕ → Bitset → Outcome Bitset
set_bits zero i b = ok b
set_bits (suc count) i b = do b' ← set_bit b i; set_bits count (i + 1) b'

unfoldable pub clear_bits : ℕ → ℕ → Bitset → Outcome Bitset
clear_bits zero i b = ok b
clear_bits (suc count) i b = do b' ← clear_bit b i; clear_bits count (i + 1) b'

-- The bitsets that the loops leave.
unfoldable pub with_bits : ℕ → ℕ → Bitset → Bitset
with_bits zero i b = b
with_bits (suc count) i b = with_bits count (i + 1) (with_bit b i)

unfoldable pub without_bits : ℕ → ℕ → Bitset → Bitset
without_bits zero i b = b
without_bits (suc count) i b = without_bits count (i + 1) (without_bit b i)

pub length-with_bit : (b : Bitset) (n : ℕ) → (with_bit b n).length ≡ b.length
unfolding with_bit
length-with_bit b n = refl

pub length-without_bit : (b : Bitset) (n : ℕ) → (without_bit b n).length ≡ b.length
unfolding without_bit
length-without_bit b n = refl

pub length-with_bits : (count i : ℕ) (b : Bitset) → (with_bits count i b).length ≡ b.length
unfolding with_bits
length-with_bits zero i b = refl
length-with_bits (suc count) i b =
    omega (arith, length-with_bits count (i + 1) (with_bit b i), length-with_bit b i)

pub length-without_bits : (count i : ℕ) (b : Bitset) → (without_bits count i b).length ≡ b.length
unfolding without_bits
length-without_bits zero i b = refl
length-without_bits (suc count) i b =
    omega (arith, length-without_bits count (i + 1) (without_bit b i), length-without_bit b i)

-- Within the length the loops run to their end and touch their range alone.
pub record Filled (b : Bitset) (v count i : ℕ) (r : Outcome Bitset) (b' : Bitset) : Type 0 where
  pub returns : r ≡ ok b'
  pub valid : IsValid b'
  pub members : (m : ℕ) → member b' m ≡ (if leb i m && ltb m (i + count) then v else member b m)

pub set_bits-Filled :
    (count i : ℕ) (b : Bitset)
    → IsValid b
    → i + count ≤ b.length
    → Filled b 1 count i (set_bits count i b) (with_bits count i b)
unfolding set_bits with_bits
set_bits-Filled zero i b v h = record { returns = refl; valid = v; members = λ m. ground arith }
set_bits-Filled (suc count) i b v h =
    let here : i < b.length = omega arith in
    let rest =
      set_bits-Filled count (i + 1) (with_bit b i) (with_bit-IsValid b i v here)
        (omega (arith, length-with_bit b i)) in
    record {
      returns = rw (set_bit-ok b i v here) rest.returns;
      valid = rest.valid;
      members = λ m. ground (arith, rest.members m, member-with_bit b i v here m);
    }

pub clear_bits-Filled :
    (count i : ℕ) (b : Bitset)
    → IsValid b
    → i + count ≤ b.length
    → Filled b 0 count i (clear_bits count i b) (without_bits count i b)
unfolding clear_bits without_bits
clear_bits-Filled zero i b v h = record { returns = refl; valid = v; members = λ m. ground arith }
clear_bits-Filled (suc count) i b v h =
    let here : i < b.length = omega arith in
    let rest =
      clear_bits-Filled count (i + 1) (without_bit b i) (without_bit-IsValid b i v here)
        (omega (arith, length-without_bit b i)) in
    record {
      returns = rw (clear_bit-ok b i v here) rest.returns;
      valid = rest.valid;
      members = λ m. ground (arith, rest.members m, member-without_bit b i v here m);
    }
