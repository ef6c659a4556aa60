-- ===== src/Bits/Step.antt =====
-- One binary digit of `|` and `&`: their definition on the native numbers without its fuel.
use Prim.Native.Nat.{min, max, digits, bit_and-bitwise, bit_or-bitwise}
use shawn_os.Prelude.{ℕ, zero, suc, ◌+◌, ◌*◌, ◌/◌, ◌%◌, ◌≤◌, bit_and, bit_or, ◌≡◌, refl, arith, ap}

module _ (rest : ℕ → ℕ) (join : ℕ → ℕ → ℕ) where
  -- Any two amounts of fuel that reach the value give the same digits.
  enough : (a b m n : ℕ) → a ≤ m → a ≤ n → digits rest join m a b ≡ digits rest join n a b
  enough zero b zero zero hm hn = refl
  enough zero b zero (suc n) hm hn = refl
  enough zero b (suc m) zero hm hn = refl
  enough zero b (suc m) (suc n) hm hn = refl
  enough (suc a) b zero n hm hn = absurd (omega arith)
  enough (suc a) b (suc m) zero hm hn = absurd (omega arith)
  enough (suc a) b (suc m) (suc n) hm hn =
      ap (λ (t : ℕ). t * 2 + join (suc a % 2) (b % 2))
        (enough (suc a / 2) (b / 2) m n (omega arith) (omega arith))

pub bit_or_step : (a b : ℕ) → bit_or a b ≡ bit_or (a / 2) (b / 2) * 2 + max (a % 2) (b % 2)
bit_or_step zero b = omega (arith, bit_or-bitwise 0 b, bit_or-bitwise 0 (b / 2))
bit_or_step (suc a) b = omega (
  arith,
  bit_or-bitwise (suc a) b,
  bit_or-bitwise (suc a / 2) (b / 2),
  enough (λ y. y) max (suc a / 2) (b / 2) a (suc a / 2) (omega arith) (omega arith),
)

pub bit_and_step : (a b : ℕ) → bit_and a b ≡ bit_and (a / 2) (b / 2) * 2 + min (a % 2) (b % 2)
bit_and_step zero b = omega (arith, bit_and-bitwise 0 b, bit_and-bitwise 0 (b / 2))
bit_and_step (suc a) b = omega (
  arith,
  bit_and-bitwise (suc a) b,
  bit_and-bitwise (suc a / 2) (b / 2),
  enough (λ _. 0) min (suc a / 2) (b / 2) a (suc a / 2) (omega arith) (omega arith),
)
