-- ===== src/Strings/Itoa.antt =====
-- `itoa` of libsc/stdlib/itoa.c on numbers that are not negative.
use shawn_os.Prelude.{
  ℕ, zero, suc, ◌+◌, ◌-◌, ◌*◌, ◌/◌, ◌%◌, ◌^◌, ◌≤◌, ◌<◌, ◌≡◌, refl, arith, true, false, ltb, ◌==◌,
  Outcome, ok, ap, ◌∙◌, sym, inl, inr, Bool-cases, ◌⊎◌,
}
use native.Mathlib.Decide.{dec_lt}
use native.Mathlib.Nat.{pow-succ', div-div-eq-div-mul}
use shawn_os.Memory.{put}
use shawn_os.Strings.{itoa_digits, itoa, reverse}
use shawn_os.Strings.Reverse.{TextAt, Reversed, reverse-Reversed}

-- The digits of `n`, the last one first, from place `i` on.
record Stored (i n s fuel : ℕ) (old : ℕ → ℕ) (r : Outcome (ℕ × (ℕ → ℕ))) (size : ℕ) (new : ℕ → ℕ)
    : Type 0 where
  returns : r ≡ ok (i + size, new)
  bounds : (0 < size) × (size ≤ fuel)
  inside : (k : ℕ) → k < size → new (s + (i + k)) ≡ n / 10 ^ k % 10 + b'0'
  outside : (a : ℕ) → (a < s + i) ⊎ (s + (i + size) ≤ a) → new a ≡ old a
  enough : n < 10 ^ size
  least : 1 < size → 10 ^ (size - 1) ≤ n

ten : (k : ℕ) → 10 ^ (k + 1) ≡ 10 * 10 ^ k
ten k = ap (λ (j : ℕ). 10 ^ j) (omega arith) ∙ pow-succ' 10 k

shift : (n k : ℕ) → n / 10 ^ (k + 1) ≡ n / 10 / 10 ^ k
shift n k = ap (λ (d : ℕ). n / d) (ten k) ∙ sym (div-div-eq-div-mul n 10 (10 ^ k))

module _ (fuel i n s size : ℕ) (memory new : ℕ → ℕ) (small : n < 2 ^ 31) (more : 10 ≤ n)
    (rest : Stored
      (i + 1)
      (n / 10)
      s
      fuel
      (put (s + i) (n % 10 + b'0') memory)
      (itoa_digits fuel (i + 1) (n / 10) s (put (s + i) (n % 10 + b'0') memory))
      size
      new) where
  stored_inside : (k : ℕ) → k < size + 1 → new (s + (i + k)) ≡ n / 10 ^ k % 10 + b'0'
  stored_inside zero lt =
      ap new (omega arith) ∙ rest.outside (s + i) (inl (omega arith)) ∙ ground arith
  stored_inside (suc k) lt =
      ap new (omega arith)
      ∙ rest.inside k (omega arith)
      ∙ ap (λ (d : ℕ). d % 10 + b'0') (sym (shift n k) ∙ ap (λ (j : ℕ). n / 10 ^ j) (omega arith))

  stored_least : 1 < size + 1 → 10 ^ (size + 1 - 1) ≤ n
  stored_least two = elim (dec_lt 1 size) [
    | yes longer ↦
        let e : 10 ^ (size + 1 - 1) ≡ 10 * 10 ^ (size - 1) =
          ap (λ (j : ℕ). 10 ^ j) (omega arith) ∙ ten (size - 1) in
        rw e (omega (arith, rest.least longer))
    | no short ↦ let e : size + 1 - 1 ≡ 1 = omega (arith, rest.bounds) in rw e more
  ]

  Stored-step : Stored i n s (suc fuel) memory (itoa_digits (suc fuel) i n s memory) (size + 1) new
  unfolding itoa_digits
  Stored-step = record {
    returns =
        let plus : ltb n (2 ^ 31) ≡ true = ground arith in
        let goes : (n / 10 == 0) ≡ false = ground arith in
        rw (plus, goes) (rest.returns ∙ ap (λ (j : ℕ). ok (j, new)) (omega arith));
    bounds = omega (arith, rest.bounds);
    inside = stored_inside;
    outside = λ a out. rest.outside a (ground arith) ∙ ground arith;
    enough = rw (ten size) (omega (arith, rest.enough));
    least = stored_least;
  }

some_left : (fuel m : ℕ) → 0 < m → m < 10 ^ fuel → 0 < fuel
some_left zero m pos lt = absurd (omega arith)
some_left (suc fuel) m pos lt = omega arith

itoa_digits-Stored :
    (fuel i n s : ℕ) (memory : ℕ → ℕ)
    → n < 2 ^ 31
    → 0 < fuel
    → n < 10 ^ fuel
    → (size : ℕ) × (new : ℕ → ℕ) × Stored i n s fuel memory (itoa_digits fuel i n s memory) size new
unfolding itoa_digits
itoa_digits-Stored zero i n s memory small some_fuel fits = absurd (omega arith)
itoa_digits-Stored (suc fuel) i n s memory small some_fuel fits =
    let plus : ltb n (2 ^ 31) ≡ true = ground arith in
    elim (Bool-cases (n / 10 == 0)) [
      | inl done ↦ (
        1,
        put (s + i) (n % 10 + b'0') memory,
        record {
          returns = rw (plus, done) refl;
          bounds = omega arith;
          inside = λ k lt. only k lt;
          outside = λ a out. ground arith;
          enough = ground arith;
          least = λ more. absurd (omega arith);
        },
      )
      | inr more ↦
          let less : n / 10 < 10 ^ fuel = omega (arith, pow-succ' 10 fuel) in
          let (size, new, rest) =
            itoa_digits-Stored fuel (i + 1) (n / 10) s (put (s + i) (n % 10 + b'0') memory)
              (omega arith) (some_left fuel (n / 10) (ground arith) less) less in
          (size + 1, new, Stored-step fuel i n s size memory new small (ground arith) rest)
    ]
  where
    only :
        (k : ℕ) → k < 1 → put (s + i) (n % 10 + b'0') memory (s + (i + k)) ≡ n / 10 ^ k % 10 + b'0'
    only zero lt = ground arith
    only (suc k) lt = absurd (omega arith)

-- The digits of `n` in base 10, the first one first, and a 0.
pub record Written (n s : ℕ) (old : ℕ → ℕ) (r : Outcome (ℕ → ℕ)) (size : ℕ) (new : ℕ → ℕ)
    : Type 0 where
  pub returns : r ≡ ok new
  pub bounds : (0 < size) × (size ≤ 10)
  pub digits : (k : ℕ) → k < size → new (s + k) ≡ n / 10 ^ (size - 1 - k) % 10 + b'0'
  pub ends : new (s + size) ≡ 0
  pub outside : (a : ℕ) → (a < s) ⊎ (s + size < a) → new a ≡ old a
  pub enough : n < 10 ^ size
  pub least : 1 < size → 10 ^ (size - 1) ≤ n

module _ (n s size : ℕ) (memory stored : ℕ → ℕ) (small : n < 2 ^ 31)
    (t : Stored 0 n s 10 memory (itoa_digits 10 0 n s memory) size stored) where
  abbrev ended : ℕ → ℕ
  ended = put (s + size) 0 stored

  kept : (k : ℕ) → k < size → ended (s + k) ≡ n / 10 ^ k % 10 + b'0'
  kept k lt =
      let same : ended (s + k) ≡ stored (s + k) = ground arith in
      same ∙ ap stored (omega arith) ∙ t.inside k lt

  ended-TextAt : TextAt ended s size
  ended-TextAt = record { real = λ k lt. omega (arith, kept k lt); ends = ground arith }

  ended_outside : (a : ℕ) → (a < s) ⊎ (s + size < a) → ended a ≡ memory a
  ended_outside a out =
      let same : ended a ≡ stored a = ground arith in same ∙ t.outside a (ground arith)

  itoa_returns : itoa n s memory ≡ reverse 12 s ended
  unfolding itoa
  itoa_returns =
      let plus : ltb n (2 ^ 31) ≡ true = ground arith in
      let from_zero : 0 + size ≡ size = omega arith in rw (plus, t.returns, from_zero) refl

  ended-Written :
      (new : ℕ → ℕ)
      → Reversed s size ended (reverse 12 s ended) new
      → Written n s memory (itoa n s memory) size new
  ended-Written new u = record {
    returns = itoa_returns ∙ u.returns;
    bounds = t.bounds;
    digits = λ k lt. u.inside k lt ∙ kept (size - 1 - k) (omega arith);
    ends = u.outside (s + size) (inr (omega arith)) ∙ ended-TextAt.ends;
    outside = λ a out. u.outside a (ground arith) ∙ ended_outside a out;
    enough = t.enough;
    least = t.least;
  }

-- `itoa` of an `int` that is not negative, in any memory, writes the digits of the number in base 10, the
-- first one first, and a 0 behind them, and touches no other byte. The number has no more digits
-- than are written, and no fewer, and there are one at least and ten at most.
pub itoa-Written :
    (n s : ℕ) (memory : ℕ → ℕ)
    → n < 2 ^ 31
    → (size : ℕ) × (new : ℕ → ℕ) × Written n s memory (itoa n s memory) size new
itoa-Written n s memory small =
    let (size, stored, t) = itoa_digits-Stored 10 0 n s memory small (omega arith) (omega arith) in
    let (new, u) =
      reverse-Reversed 12 s size (ended n s size memory stored small t)
        (ended-TextAt n s size memory stored small t) t.bounds.0 (omega (arith, t.bounds)) in
    (size, new, ended-Written n s size memory stored small t new u)
