-- ===== src/Bits.antt =====
-- The bits of a machine word, and what `|`, `&` and `~` with a shifted one do to them.
mod Step
use Step.{bit_or_step, bit_and_step}
use Prim.Native.Nat.{bit_and-bitwise}
use native.Mathlib.Nat.{
  pow-suc, one-le-pow, div-add-mod, mod-lt, mod-eq_of_lt, add-mul-mod_self_right,
}
use shawn_os.Prelude.{
  ℕ, zero, suc, ◌+◌, ◌-◌, ◌*◌, ◌/◌, ◌%◌, ◌^◌, ◌≤◌, ◌<◌, bit_and, bit_or, ◌≡◌, ◌≢◌, refl, arith,
  ◌==◌, if◌then◌else◌, ap,
}

-- The bit `k` of `w`, by shifting right `k` times.
unfoldable pub bit : ℕ → ℕ → ℕ
bit w zero = w % 2
bit w (suc k) = bit (w / 2) k

pub bit-lt-two : (w k : ℕ) → bit w k < 2
unfolding bit
bit-lt-two w zero = omega arith
bit-lt-two w (suc k) = bit-lt-two (w / 2) k

pub zero-bit : (k : ℕ) → bit 0 k ≡ 0
unfolding bit
zero-bit zero = refl
zero-bit (suc k) = zero-bit k

two-pow-suc : (k : ℕ) → 2 ^ suc k ≡ 2 * 2 ^ k
two-pow-suc k = omega (arith, pow-suc 2 k)

pub two-pow-pos : (k : ℕ) → 1 ≤ 2 ^ k
two-pow-pos k = one-le-pow k 2 (omega arith)

or_zero_below : (n a : ℕ) → a ≤ n → bit_or a 0 ≡ a
or_zero_below n zero h = refl
or_zero_below zero (suc a) h = absurd (omega arith)
or_zero_below (suc n) (suc a) h =
    omega (arith, bit_or_step (suc a) 0, or_zero_below n (suc a / 2) (omega arith))

bit_and_zero : (w : ℕ) → bit_and w 0 ≡ 0
bit_and_zero w = omega (arith, zero_below w w (omega arith))
  where
    zero_below : (n v : ℕ) → v ≤ n → bit_and v 0 ≡ 0
    zero_below zero v h = let e : v ≡ 0 = omega arith in rw e refl
    zero_below (suc n) v h = omega (arith, bit_and_step v 0, zero_below n (v / 2) (omega arith))

and_le_below : (n a b : ℕ) → a ≤ n → bit_and a b ≤ a
and_le_below n zero b h = omega (arith, bit_and-le_zero b)
  where
    bit_and-le_zero : (b : ℕ) → bit_and 0 b ≤ 0
    bit_and-le_zero b = omega (arith, bit_and-bitwise 0 b)
and_le_below zero (suc a) b h = absurd (omega arith)
and_le_below (suc n) (suc a) b h =
    omega (arith, bit_and_step (suc a) b, and_le_below n (suc a / 2) (b / 2) (omega arith))

pub bit_and-le : (a b : ℕ) → bit_and a b ≤ a
bit_and-le a b = and_le_below a a b (omega arith)

and_zero_below : (n a : ℕ) → a ≤ n → bit_and a 0 ≡ 0
and_zero_below n zero h = refl
and_zero_below zero (suc a) h = absurd (omega arith)
and_zero_below (suc n) (suc a) h =
    omega (arith, bit_and_step (suc a) 0, and_zero_below n (suc a / 2) (omega arith))

-- `w & (1 << k)`
pub bit_and-two_pow : (k w : ℕ) → bit_and w (2 ^ k) ≡ bit w k * 2 ^ k
unfolding bit
bit_and-two_pow zero w =
    omega (arith, bit_and_step w 1, and_zero_below (w / 2) (w / 2) (omega arith))
bit_and-two_pow (suc k) w = omega (
  arith,
  bit_and_step w (2 ^ suc k),
  half_pow,
  two-pow-suc k,
  bit_and-two_pow k (w / 2),
  ap (λ (t : ℕ). bit (w / 2) k * t) (two-pow-suc k),
)
  where
    half_pow : bit_and (w / 2) (2 ^ suc k / 2) ≡ bit_and (w / 2) (2 ^ k)
    half_pow = ap (bit_and (w / 2)) (omega (arith, two-pow-suc k))

or_pow_half : (k w : ℕ) → bit_or w (2 ^ suc k) / 2 ≡ bit_or (w / 2) (2 ^ k)
or_pow_half k w = omega (arith, bit_or_step w (2 ^ suc k), two-pow-suc k, half_pow)
  where
    half_pow : bit_or (w / 2) (2 ^ suc k / 2) ≡ bit_or (w / 2) (2 ^ k)
    half_pow = ap (bit_or (w / 2)) (omega (arith, two-pow-suc k))

-- `w | (1 << k)` sets the bit `k` and keeps the others.
pub bit-bit_or : (k j w : ℕ) → bit (bit_or w (2 ^ k)) j ≡ (if k == j then 1 else bit w j)
unfolding bit
bit-bit_or zero zero w = omega (arith, bit_or_step w 1)
bit-bit_or zero (suc j) w = rw half (ground arith)
  where
    half : bit_or w 1 / 2 ≡ w / 2
    half = omega (arith, bit_or_step w 1, or_zero_below (w / 2) (w / 2) (omega arith))
bit-bit_or (suc k) zero w = ground (arith, bit_or_step w (2 ^ suc k), two-pow-suc k)
bit-bit_or (suc k) (suc j) w = rw (or_pow_half k w) (ground (arith, bit-bit_or k j (w / 2)))

pub bit_or-lt : (n k w : ℕ) → w < 2 ^ n → k < n → bit_or w (2 ^ k) < 2 ^ n
bit_or-lt zero k w hw hk = absurd (omega arith)
bit_or-lt (suc n) zero w hw hk =
    omega (arith, two-pow-suc n, bit_or_step w 1, or_zero_below (w / 2) (w / 2) (omega arith))
bit_or-lt (suc n) (suc k) w hw hk = omega (
  arith,
  two-pow-suc n,
  two-pow-suc k,
  bit_or_step w (2 ^ suc k),
  or_pow_half k w,
  bit_or-lt n k (w / 2) (omega (arith, two-pow-suc n)) (omega arith),
)

bit_and-ones : (n w : ℕ) → w < 2 ^ n → bit_and w (2 ^ n - 1) ≡ w
bit_and-ones zero w h = let e : w ≡ 0 = omega arith in rw e refl
bit_and-ones (suc n) w h = omega (
  arith,
  bit_and_step w (2 ^ suc n - 1),
  two-pow-suc n,
  two-pow-pos n,
  ap (bit_and (w / 2)) half,
  bit_and-ones n (w / 2) (omega (arith, two-pow-suc n)),
)
  where
    half : (2 ^ suc n - 1) / 2 ≡ 2 ^ n - 1
    half = omega (arith, two-pow-suc n, two-pow-pos n)

-- `~(1 << k)` in a word of `n` bits
abbrev pub all_but : ℕ → ℕ → ℕ
all_but n k = 2 ^ n - 1 - 2 ^ k

two-pow_mono : (k n : ℕ) → k < n → 2 * 2 ^ k ≤ 2 ^ n
two-pow_mono zero zero h = absurd (omega arith)
two-pow_mono zero (suc n) h = omega (arith, two-pow-suc n, two-pow-pos n)
two-pow_mono (suc k) zero h = absurd (omega arith)
two-pow_mono (suc k) (suc n) h =
    omega (arith, two-pow-suc n, two-pow-suc k, two-pow_mono k n (omega arith))

-- `w & ~(1 << k)` clears the bit `k` and keeps the others.
pub bit-bit_and :
    (n k j w : ℕ)
    → w < 2 ^ n
    → k < n
    → bit (bit_and w (all_but n k)) j ≡ (if k == j then 0 else bit w j)
unfolding bit
bit-bit_and zero k j w hw hk = absurd (omega arith)
bit-bit_and (suc n) zero zero w hw hk =
    omega (arith, bit_and_step w (all_but (suc n) 0), two-pow-suc n, two-pow-pos n)
bit-bit_and (suc n) zero (suc j) w hw hk = rw half (ground arith)
  where
    mask : all_but (suc n) 0 / 2 ≡ 2 ^ n - 1
    mask = omega (arith, two-pow-suc n, two-pow-pos n)

    half : bit_and w (all_but (suc n) 0) / 2 ≡ w / 2
    half = omega (
      arith,
      bit_and_step w (all_but (suc n) 0),
      ap (bit_and (w / 2)) mask,
      bit_and-ones n (w / 2) (omega (arith, two-pow-suc n)),
    )
bit-bit_and (suc n) (suc k) zero w hw hk = ground (
  arith,
  bit_and_step w (all_but (suc n) (suc k)),
  two-pow-suc n,
  two-pow-suc k,
  two-pow-pos n,
  two-pow_mono k n (omega arith),
)
bit-bit_and (suc n) (suc k) (suc j) w hw hk =
    rw half (ground (arith, bit-bit_and n k j (w / 2) (omega (arith, two-pow-suc n)) (omega arith)))
  where
    mask : all_but (suc n) (suc k) / 2 ≡ all_but n k
    mask =
        omega (arith, two-pow-suc n, two-pow-suc k, two-pow-pos n, two-pow_mono k n (omega arith))

    half : bit_and w (all_but (suc n) (suc k)) / 2 ≡ bit_and (w / 2) (all_but n k)
    half = omega (arith, bit_and_step w (all_but (suc n) (suc k)), ap (bit_and (w / 2)) mask)

-- A word of `n` bits is all ones exactly when none of them is clear.
pub bit-ones : (n j : ℕ) → j < n → bit (2 ^ n - 1) j ≡ 1
unfolding bit
bit-ones zero j h = absurd (omega arith)
bit-ones (suc n) zero h = omega (arith, two-pow-suc n, two-pow-pos n)
bit-ones (suc n) (suc j) h = rw half (bit-ones n j (omega arith))
  where
    half : (2 ^ suc n - 1) / 2 ≡ 2 ^ n - 1
    half = omega (arith, two-pow-suc n, two-pow-pos n)

ones_of_bits : (n w : ℕ) → w < 2 ^ n → ((j : ℕ) → j < n → bit w j ≢ 0) → w ≡ 2 ^ n - 1
unfolding bit
ones_of_bits zero w h all = omega arith
ones_of_bits (suc n) w h all = omega (
  arith,
  two-pow-suc n,
  two-pow-pos n,
  all 0 (omega arith),
  ones_of_bits n (w / 2) (omega (arith, two-pow-suc n)) (λ j hj. all (suc j) (omega arith)),
)

mod-two-pow_suc : (k w : ℕ) → w % 2 ^ suc k ≡ 2 * (w / 2 % 2 ^ k) + w % 2
mod-two-pow_suc k w = omega (
  arith,
  two-pow-suc k,
  div-add-mod (w / 2) (2 ^ k),
  mod-lt (w / 2) (two-pow-pos k),
  mod-eq_of_lt {n = 2 * (w / 2 % 2 ^ k) + w % 2} {m = 2 ^ suc k}
      (omega (arith, two-pow-suc k, mod-lt (w / 2) (two-pow-pos k))),
  add-mul-mod_self_right (2 * (w / 2 % 2 ^ k) + w % 2) (w / 2 / 2 ^ k) (2 ^ suc k),
  ap (λ (t : ℕ). t % 2 ^ suc k) split,
)
  where
    split : w ≡ 2 * (w / 2 % 2 ^ k) + w % 2 + w / 2 / 2 ^ k * 2 ^ suc k
    split =
        omega
          (arith, div-add-mod (w / 2) (2 ^ k), ap (λ (t : ℕ). w / 2 / 2 ^ k * t) (two-pow-suc k))

-- `w & ~((1 << k) - 1)` rounds down to a multiple of `2 ^ k`.
pub bit_and-high : (n k w : ℕ) → k ≤ n → w < 2 ^ n → bit_and w (2 ^ n - 2 ^ k) ≡ w - w % 2 ^ k
bit_and-high n zero w hk hw = omega (arith, bit_and-ones n w hw)
bit_and-high zero (suc k) w hk hw = absurd (omega arith)
bit_and-high (suc n) (suc k) w hk hw = omega (
  arith,
  two-pow-suc n,
  two-pow-suc k,
  bit_and_step w (2 ^ suc n - 2 ^ suc k),
  ap (bit_and (w / 2)) half,
  bit_and-high n k (w / 2) (omega arith) (omega (arith, two-pow-suc n)),
  mod-two-pow_suc k w,
)
  where
    half : (2 ^ suc n - 2 ^ suc k) / 2 ≡ 2 ^ n - 2 ^ k
    half = omega (arith, two-pow-suc n, two-pow-suc k)

-- `w & ((1 << k) - 1)` keeps `k` bits.
pub bit_and-low : (k w : ℕ) → bit_and w (2 ^ k - 1) ≡ w % 2 ^ k
bit_and-low zero w = omega (arith, bit_and_step w 0, bit_and_zero (w / 2))
bit_and-low (suc k) w = omega (
  arith,
  bit_and_step w (2 ^ suc k - 1),
  two-pow-suc k,
  two-pow-pos k,
  ap (bit_and (w / 2)) half,
  bit_and-low k (w / 2),
  mod-two-pow_suc k w,
)
  where
    half : (2 ^ suc k - 1) / 2 ≡ 2 ^ k - 1
    half = omega (arith, two-pow-suc k, two-pow-pos k)

or_comm_below : (n a b : ℕ) → a ≤ n → b ≤ n → bit_or a b ≡ bit_or b a
or_comm_below zero a b ha hb = let e : a ≡ b = omega arith in rw e refl
or_comm_below (suc n) a b ha hb = omega (
  arith,
  bit_or_step a b,
  bit_or_step b a,
  or_comm_below n (a / 2) (b / 2) (omega arith) (omega arith),
)

pub bit_or_comm : (a b : ℕ) → bit_or a b ≡ bit_or b a
bit_or_comm a b = or_comm_below (a + b) a b (omega arith) (omega arith)

-- `a << k | b` for a value `b` of `k` bits
pub bit_or-low : (k a b : ℕ) → b < 2 ^ k → bit_or (a * 2 ^ k) b ≡ a * 2 ^ k + b
bit_or-low zero a b h =
    let none_left : b ≡ 0 = omega arith in
    rw none_left (omega (arith, or_zero_below (a * 2 ^ 0) (a * 2 ^ 0) (omega arith)))
bit_or-low (suc k) a b h = omega (
  arith,
  bit_or_step (a * 2 ^ suc k) b,
  double,
  half_or,
  bit_or-low k a (b / 2) (omega (arith, two-pow-suc k)),
)
  where
    double : a * 2 ^ suc k ≡ 2 * (a * 2 ^ k)
    double = omega (arith, ap (λ (t : ℕ). a * t) (two-pow-suc k))

    half_or : bit_or (a * 2 ^ suc k / 2) (b / 2) ≡ bit_or (a * 2 ^ k) (b / 2)
    half_or =
        ap (λ (t : ℕ). bit_or t (b / 2)) (omega (arith, ap (λ (t : ℕ). a * t) (two-pow-suc k)))

pub bit_and-one : (w : ℕ) → bit_and w 1 ≡ w % 2
unfolding bit
bit_and-one w = omega (arith, bit_and-two_pow 0 w)

-- `|` with a value of `k` bits leaves the bits from `k` on alone.
pub bit_or-high :
    (k a b c : ℕ) → b < 2 ^ k → c < 2 ^ k → bit_or (a * 2 ^ k + b) c ≡ a * 2 ^ k + bit_or b c
bit_or-high zero a b c hb hc =
    let no_b : b ≡ 0 = omega arith in
    let no_c : c ≡ 0 = omega arith in
    rw (no_b, no_c) (omega (arith, or_zero_below (a * 2 ^ 0 + 0) (a * 2 ^ 0 + 0) (omega arith)))
bit_or-high (suc k) a b c hb hc = omega (
  arith,
  bit_or_step (a * 2 ^ suc k + b) c,
  bit_or_step b c,
  double,
  ap (λ (t : ℕ). bit_or t (c / 2)) half,
  bit_or-high k a (b / 2) (c / 2) (omega (arith, two-pow-suc k)) (omega (arith, two-pow-suc k)),
)
  where
    double : a * 2 ^ suc k ≡ 2 * (a * 2 ^ k)
    double = omega (arith, ap (λ (t : ℕ). a * t) (two-pow-suc k))

    half : (a * 2 ^ suc k + b) / 2 ≡ a * 2 ^ k + b / 2
    half = omega (arith, ap (λ (t : ℕ). a * t) (two-pow-suc k))
