-- ===== src/Printf/Decimal.antt =====
-- The digits of the conversions `d` and `u`.
use shawn_os.Prelude.{
  ℕ, zero, suc, ◌+◌, ◌-◌, ◌*◌, ◌/◌, ◌%◌, ◌^◌, ◌≤◌, ◌<◌, ◌≡◌, ◌≢◌, refl, ap, sym, ◌∙◌, arith, false,
  List, [], ◌∷◌, ◌++◌, map, ltb, ◌==◌, if◌then◌else◌, set, replicate, drop, length, All, Bool-cases,
  inl, inr, length-append, length-replicate, length-set,
}
use mathlib.Core.List.{append-nil}
use mathlib.Core.Path.{subst}
use native.Mathlib.Decide.{ℕ_discrete}
use native.Mathlib.Nat.{pow-suc}
use shawn_os.Printf.{print_u, print_d}
use shawn_os.Printf.Digits.{count_digits, fill_back, decimal_digit, negative_digit, decimal}

-- The digits of a number, the first one first.
unfoldable pub digits : ℕ → ℕ → List ℕ
digits zero d = []
digits (suc fuel) d =
    let rest = digits fuel (d / 10) in if d == 0 then [] else rest ++ (d % 10 ∷ [])

-- The number that a text of digits denotes, behind the digits of `acc`.
abbrev pub number : ℕ → List ℕ → ℕ
number acc [] = acc
number acc (c ∷ text) = number (acc * 10 + (c - b'0')) text

count_lem : (fuel d : ℕ) → count_digits fuel 10 d ≡ length (digits fuel d)
unfolding count_digits digits
count_lem zero d = refl
count_lem (suc fuel) d =
    ground (arith, count_lem fuel (d / 10), length-append (digits fuel (d / 10)) (d % 10 ∷ []))

drop-set :
    (buffer : List ℕ) (r v : ℕ)
    → r < length buffer
    → drop r (set buffer r v) ≡ v ∷ drop (r + 1) buffer
drop-set [] r v h = absurd (omega arith)
drop-set (x ∷ buffer) zero v h = refl
drop-set (x ∷ buffer) (suc r) v h =
    let next : suc (r + 1) ≡ suc r + 1 = omega arith in
    drop-set buffer r v (omega arith) ∙ ap (λ (k : ℕ). v ∷ drop k (x ∷ buffer)) next

map-snoc :
    (digit : ℕ → ℕ) (xs ys : List ℕ) (c : ℕ)
    → map digit (xs ++ (c ∷ [])) ++ ys ≡ map digit xs ++ (digit c ∷ ys)
map-snoc digit [] ys c = refl
map-snoc digit (x ∷ xs) ys c = ap (λ (t : List ℕ). digit x ∷ t) (map-snoc digit xs ys c)

-- Filling from the end puts the digits in front of what the buffer holds behind them.
fill_lem :
    (digit : ℕ → ℕ) (fuel i size d : ℕ) (buffer : List ℕ)
    → size ≡ i + count_digits fuel 10 d
    → count_digits fuel 10 d ≤ length buffer
    → fill_back digit fuel i size d buffer
      ≡ map digit (digits fuel d) ++ drop (count_digits fuel 10 d) buffer
unfolding fill_back count_digits digits
fill_lem digit zero i size d buffer e room = refl
fill_lem digit (suc fuel) i size d buffer e room = elim (ℕ_discrete d 0) [
  | yes z ↦ rw z refl
  | no nz ↦
      let some_left : (d == 0) ≡ false = ground (arith, nz) in
      let r = count_digits fuel 10 (d / 10) in
      let total : size ≡ i + 1 + r = ground (arith, e) in
      let inside : r < length buffer = ground (arith, room) in
      let place : size - i - 1 ≡ r = omega arith in
      let filled = set buffer (size - i - 1) (digit (d % 10)) in
      rw some_left (
        fill_lem digit fuel (i + 1) size (d / 10) filled total
          (omega (arith, length-set buffer (size - i - 1) (digit (d % 10))))
        ∙ ap (λ (k : ℕ). map digit (digits fuel (d / 10)) ++ drop r (set buffer k (digit (d % 10))))
            place
        ∙ ap (λ (t : List ℕ). map digit (digits fuel (d / 10)) ++ t)
            (drop-set buffer r (digit (d % 10)) inside)
        ∙ sym (map-snoc digit (digits fuel (d / 10)) (drop (r + 1) buffer) (d % 10)))
]

drop_all : (n : ℕ) → drop {A = ℕ} n (replicate n 0) ≡ []
drop_all zero = refl
drop_all (suc n) = drop_all n

-- The buffer that is printed holds the digits in their order, each as the given character.
decimal_lem : (digit : ℕ → ℕ) (d : ℕ) → decimal digit d ≡ map digit (digits 32 d)
unfolding decimal
decimal_lem digit d =
    let n = count_digits 32 10 d in
    fill_lem digit 32 0 n d (replicate n 0) (omega arith)
      (omega (arith, length-replicate {A = ℕ} n 0))
    ∙ ap (λ (t : List ℕ). map digit (digits 32 d) ++ t) (drop_all n)
    ∙ append-nil (map digit (digits 32 d))

number-snoc :
    (acc c : ℕ) (xs : List ℕ)
    → number acc (map decimal_digit (xs ++ (c ∷ []))) ≡ number acc (map decimal_digit xs) * 10 + c
number-snoc acc c [] = omega arith
number-snoc acc c (x ∷ xs) = number-snoc (acc * 10 + (b'0' + x - b'0')) c xs

number-digits : (fuel d : ℕ) → d < 10 ^ fuel → number 0 (map decimal_digit (digits fuel d)) ≡ d
unfolding digits
number-digits zero d h = omega arith
number-digits (suc fuel) d h = ground (
  arith,
  number-snoc 0 (d % 10) (digits fuel (d / 10)),
  number-digits fuel (d / 10) (omega (arith, pow-suc 10 fuel)),
)

length-digits : (fuel k d : ℕ) → d < 10 ^ k → length (digits fuel d) ≤ k
unfolding digits
length-digits zero k d h = omega arith
length-digits (suc fuel) zero d h = ground arith
length-digits (suc fuel) (suc k) d h = ground (
  arith,
  length-append (digits fuel (d / 10)) (d % 10 ∷ []),
  length-digits fuel k (d / 10) (omega (arith, pow-suc 10 k)),
)

length-map : (f : ℕ → ℕ) (xs : List ℕ) → length (map f xs) ≡ length xs
length-map f [] = refl
length-map f (x ∷ xs) = ap suc (length-map f xs)

digits_some : (d : ℕ) → d ≢ 0 → 1 ≤ length (digits 32 d)
unfolding digits
digits_some d nz = ground (arith, nz, length-append (digits 31 (d / 10)) (d % 10 ∷ []))

print_u_lem : (d : ℕ) → d ≢ 0 → print_u d ≡ map decimal_digit (digits 32 d)
unfolding print_u
print_u_lem d nz =
    let some_left : (d == 0) ≡ false = ground (arith, nz) in
    rw some_left (decimal_lem decimal_digit d)

-- The characters '0' to '9'.
abbrev pub IsDigit : ℕ → Type 0
IsDigit c = (b'0' ≤ c) × (c ≤ b'9')

digits_below-snoc :
    (xs : List ℕ) (c : ℕ) → All (λ x. x < 10) xs → c < 10 → All (λ x. x < 10) (xs ++ (c ∷ []))
digits_below-snoc [] c all below = (below, tt)
digits_below-snoc (x ∷ xs) c (h, all) below = (h, digits_below-snoc xs c all below)

digits_below : (fuel d : ℕ) → All (λ x. x < 10) (digits fuel d)
unfolding digits
digits_below zero d = tt
digits_below (suc fuel) d = elim (Bool-cases (d == 0)) [
  | inl e ↦ rw e tt
  | inr e ↦
      rw e (
        digits_below-snoc (digits fuel (d / 10)) (d % 10) (digits_below fuel (d / 10))
          (omega arith))
]

map-IsDigit : (xs : List ℕ) → All (λ x. x < 10) xs → All IsDigit (map decimal_digit xs)
map-IsDigit [] all = tt
map-IsDigit (x ∷ xs) (h, all) = ((omega arith, omega arith), map-IsDigit xs all)

-- The text is decimal digits and nothing else, and denotes the number.
pub record Numeral (d : ℕ) (text : List ℕ) : Type 0 where
  pub digits_only : All IsDigit text
  pub denotes : number 0 text ≡ d
  pub some_digits : 1 ≤ length text
  pub few_digits : length text ≤ 10

zero-Numeral : Numeral 0 (print_u 0)
unfolding print_u decimal fill_back count_digits
zero-Numeral = record {
  digits_only = ((omega arith, omega arith), tt);
  denotes = refl;
  some_digits = omega arith;
  few_digits = omega arith;
}

-- The text that `%u` prints of any 32-bit number consists of the characters '0' to '9', denotes the
-- number in base 10, and has one character at least and ten at most.
pub number-print_u : (d : ℕ) → d < 2 ^ 32 → Numeral d (print_u d)
number-print_u d small = elim (ℕ_discrete d 0) [
  | yes z ↦ subst (λ n. Numeral n (print_u n)) (sym z) zero-Numeral
  | no nz ↦
      let l = length-map decimal_digit (digits 32 d) in
      subst (Numeral d) (sym (print_u_lem d nz)) (record {
        digits_only = map-IsDigit (digits 32 d) (digits_below 32 d);
        denotes = number-digits 32 d (omega arith);
        some_digits = omega (arith, l, digits_some d nz);
        few_digits = omega (arith, l, length-digits 32 10 d (omega arith));
      })
]

map-reflected :
    (xs : List ℕ) → map negative_digit xs ≡ map (λ c. 2 * b'0' - c) (map decimal_digit xs)
map-reflected [] = refl
map-reflected (x ∷ xs) = ground (arith, map-reflected xs)

-- Of a negative `int`, `%d` prints no sign: it prints the characters of the magnitude, each moved to
-- the other side of '0'.
pub print_d_negative :
    (m : ℕ) → 0 < m → m ≤ 2 ^ 31 → print_d (2 ^ 32 - m) ≡ map (λ c. 2 * b'0' - c) (print_u m)
unfolding print_d
print_d_negative m above below =
    let negative : ltb (2 ^ 32 - m) (2 ^ 31) ≡ false = ground arith in
    let magnitude : 2 ^ 32 - (2 ^ 32 - m) ≡ m = omega arith in
    rw (negative, magnitude)
      (decimal_lem negative_digit m
        ∙ map-reflected (digits 32 m)
        ∙ ap (map (λ c. 2 * b'0' - c)) (sym (print_u_lem m (omega arith))))
