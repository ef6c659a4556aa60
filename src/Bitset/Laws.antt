-- ===== src/Bitset/Laws.antt =====
-- A bitset as a set of numbers below its length.
use shawn_os.Prelude.{
  ℕ, ◌*◌, ◌/◌, ◌%◌, ◌^◌, ◌≤◌, ◌<◌, ◌≡◌, arith, bit_and, bit_or, not, lt→ltb, ◌==◌, if◌then◌else◌,
  length, get_or, set, length-set, get_or-set_self, get_or-set_ne, ok, ap, List, [], ◌∷◌, zero, suc,
  true, false, ◌⊎◌, inl, inr,
}
use native.Mathlib.Decide.{ℕ_discrete}
use shawn_os.Bits.{
  bit, bit-lt-two, bit_and-two_pow, two-pow-pos, bit-bit_or, bit_or-lt, all_but, bit-bit_and,
  bit_and-le,
}
use shawn_os.Bitset.{Bitset, word, with_bit, without_bit, set_bit, get_bit, clear_bit, test_bit}

-- The words cover the length, and each is a 32-bit word.
pub record IsValid (b : Bitset) : Type 0 where
  pub covered : b.length ≤ 32 * length b.start
  pub fits : (n : ℕ) → word b n < 2 ^ 32

-- The member bit of `n`, 0 or 1.
unfoldable pub member : Bitset → ℕ → ℕ
member b n = bit (word b n) (n % 32)

member-lt-two : (b : Bitset) (n : ℕ) → member b n < 2
unfolding member
member-lt-two b n = bit-lt-two (word b n) (n % 32)

-- `get_bit` reads the member bit at its place in the word.
get_bit-member : (b : Bitset) (n : ℕ) → n < b.length → get_bit b n ≡ ok (member b n * 2 ^ (n % 32))
unfolding get_bit member
get_bit-member b n h = rw (lt→ltb n b.length h) (ap ok (bit_and-two_pow (n % 32) (word b n)))

pub test_bit-member : (b : Bitset) (n : ℕ) → n < b.length → test_bit b n ≡ ok (member b n == 1)
unfolding test_bit
test_bit-member b n h = rw (get_bit-member b n h) (read (member b n) (member-lt-two b n))
  where
    read : (v : ℕ) → v < 2 → ok (not (v * 2 ^ (n % 32) == 0)) ≡ ok (v == 1)
    read zero hv = ground arith
    read (suc zero) hv = ground (arith, two-pow-pos (n % 32))
    read (suc (suc v)) hv = absurd (omega arith)

abbrev index_split : (n m : ℕ) → n % 32 ≡ m % 32 → n / 32 ≡ m / 32 → n ≡ m
index_split n m h k = omega arith

module _ (b : Bitset) (n : ℕ) (v : IsValid b) (h : n < b.length) where
  in_words : n / 32 < length b.start
  in_words = omega (arith, v.covered)

  word-set :
      (x m : ℕ)
      → get_or (set b.start (n / 32) x) (m / 32) 0 ≡ (if n / 32 == m / 32 then x else word b m)
  word-set x m = elim (ℕ_discrete (n / 32) (m / 32)) [
    | yes e ↦ ground (arith, get_or-set_self b.start (n / 32) x 0 in_words)
    | no ne ↦ ground (arith, get_or-set_ne b.start (n / 32) (m / 32) x 0 ne)
  ]

  pub member-with_bit : (m : ℕ) → member (with_bit b n) m ≡ (if n == m then 1 else member b m)
  unfolding member with_bit
  member-with_bit m =
      rw (word-set (bit_or (word b n) (2 ^ (n % 32))) m)
        (ground (arith, bit-bit_or (n % 32) (m % 32) (word b n)))

  pub member-without_bit : (m : ℕ) → member (without_bit b n) m ≡ (if n == m then 0 else member b m)
  unfolding member without_bit
  member-without_bit m =
      rw (word-set (bit_and (word b n) (all_but 32 (n % 32))) m)
        (ground (arith, bit-bit_and 32 (n % 32) (m % 32) (word b n) (v.fits n) (omega arith)))

  pub with_bit-IsValid : IsValid (with_bit b n)
  unfolding with_bit
  with_bit-IsValid = record {
    covered = omega (arith, v.covered, length-set {0} b.start (n / 32) _);
    fits = λ m.
        rw (word-set (bit_or (word b n) (2 ^ (n % 32))) m)
          (ground (arith, v.fits m, bit_or-lt 32 (n % 32) (word b n) (v.fits n) (omega arith)));
  }

  pub without_bit-IsValid : IsValid (without_bit b n)
  unfolding without_bit
  without_bit-IsValid = record {
    covered = omega (arith, v.covered, length-set {0} b.start (n / 32) _);
    fits = λ m.
        rw (word-set (bit_and (word b n) (all_but 32 (n % 32))) m)
          (ground (arith, v.fits m, v.fits n, bit_and-le (word b n) (all_but 32 (n % 32))));
  }

  pub set_bit-ok : set_bit b n ≡ ok (with_bit b n)
  unfolding set_bit
  set_bit-ok = rw (lt→ltb n b.length h)

  pub clear_bit-ok : clear_bit b n ≡ ok (without_bit b n)
  unfolding clear_bit
  clear_bit-ok = rw (lt→ltb n b.length h)

-- A read in range, with what it says of the bit.
pub test_bit-cases :
    (b : Bitset) (n : ℕ)
    → n < b.length
    → ((test_bit b n ≡ ok true) × (member b n ≡ 1)) ⊎ ((test_bit b n ≡ ok false) × (member b n ≡ 0))
test_bit-cases b n h = elim (ℕ_discrete (member b n) 1) [
  | yes e ↦ inl (ground (arith, test_bit-member b n h), e)
  | no ne ↦
      inr
        (ground (arith, test_bit-member b n h, member-lt-two b n), omega (arith, member-lt-two b n))
]

-- Each of the words is a 32-bit word.
abbrev pub AllFit : List ℕ → Type 0
AllFit [] = Unit {0}
AllFit (w ∷ ws) = (w < 2 ^ 32) × AllFit ws

pub fits_of_all : (ws : List ℕ) → AllFit ws → (i : ℕ) → get_or ws i 0 < 2 ^ 32
fits_of_all [] h i = omega arith
fits_of_all (w ∷ ws) h zero = h.0
fits_of_all (w ∷ ws) h (suc i) = fits_of_all ws h.1 i
