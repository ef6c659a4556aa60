-- ===== src/Printf/Hexadecimal.antt =====
-- The digits of the conversions `x` and `lx`.
use shawn_os.Prelude.{
  ℕ, zero, suc, ◌+◌, ◌-◌, ◌*◌, ◌/◌, ◌%◌, ◌^◌, ◌≤◌, ◌<◌, ◌≡◌, ◌≢◌, refl, ap, sym, ◌∙◌, arith, true,
  false, Bool-cases, inl, inr, ltb→lt, ◌&&◌, List, [], ◌∷◌, ltb, leb, ◌==◌, if◌then◌else◌, get_or,
  set, replicate, length, length-replicate, length-set, get_or-set_self, get_or-set_ne,
}
use native.Mathlib.Decide.{ℕ_discrete}
use native.Mathlib.Nat.{pow-suc}
use shawn_os.Printf.{print_x}
use shawn_os.Printf.Digits.{count_digits, hex_digit, fill_forward, swap_ends, hexadecimal}

-- Digit `k` of a number in base 16, counted from its end.
unfoldable pub nibble : ℕ → ℕ → ℕ
nibble zero d = d % 16
nibble (suc k) d = nibble k (d / 16)

-- The value of a character that is read as a digit in base 16: those of '0' to '9' and of 'a' to
-- 'f'; 16 for any other character.
abbrev pub hex_value : ℕ → ℕ
hex_value c =
    if leb b'0' c && leb c b'9'
    then c - b'0'
    else if leb b'a' c && leb c b'f'
    then 10 + (c - b'a')
    else 16

hex_value-hex_digit : (r : ℕ) → r < 16 → hex_value (hex_digit r) ≡ r
hex_value-hex_digit r h = ground arith

nibble_below : (k d : ℕ) → nibble k d < 16
unfolding nibble
nibble_below zero d = omega arith
nibble_below (suc k) d = nibble_below k (d / 16)

count_zero_fuel : (d : ℕ) → count_digits 0 16 d ≡ 0
unfolding count_digits
count_zero_fuel d = refl

-- The number of digits is the right one.
count_bounds :
    (fuel d : ℕ)
    → d < 16 ^ fuel
    → d ≢ 0
    → (1 ≤ count_digits fuel 16 d)
      × (16 ^ (count_digits fuel 16 d - 1) ≤ d)
      × (d < 16 ^ count_digits fuel 16 d)
unfolding count_digits
count_bounds zero d h nz = absurd (omega arith)
count_bounds (suc fuel) d h nz =
    let some_left : (d == 0) ≡ false = ground (arith, nz) in
    let n = count_digits fuel 16 (d / 16) in
    let back : n + 1 - 1 ≡ n = omega arith in
    let next : n + 1 ≡ suc n = omega arith in
    rw some_left (elim (ℕ_discrete (d / 16) 0) [
      | yes z ↦
          let last : n ≡ 0 = last_digit fuel (d / 16) z in
          rw last (omega arith, omega arith, omega arith)
      | no nz' ↦
          let (some, low, high) = count_bounds fuel (d / 16) (omega (arith, pow-suc 16 fuel)) nz' in
          let shift : suc (n - 1) ≡ n = omega (arith, some) in
          let power : 16 ^ n ≡ 16 ^ (n - 1) * 16 =
            ap (λ (k : ℕ). 16 ^ k) (sym shift) ∙ pow-suc 16 (n - 1) in
          (
            omega arith,
            rw back (omega (arith, low, power)),
            rw next (omega (arith, high, pow-suc 16 n)),
          )
    ])
  where
    last_digit : (f e : ℕ) → e ≡ 0 → count_digits f 16 e ≡ 0
    last_digit zero e z = refl
    last_digit (suc f) e z = rw z refl

nibble_step : (k loop d : ℕ) → loop < k → nibble (k - loop) d ≡ nibble (k - (loop + 1)) (d / 16)
unfolding nibble
nibble_step k loop d h = let shift : k - loop ≡ suc (k - (loop + 1)) = omega arith in rw shift refl

nibble_zero : (k loop d : ℕ) → k ≡ loop → nibble (k - loop) d ≡ d % 16
unfolding nibble
nibble_zero k loop d e = let none : k - loop ≡ 0 = omega arith in rw none refl

-- The place `loop` after a digit is stored there.
stored :
    (loop d : ℕ) (buffer : List ℕ) (k : ℕ)
    → loop < length buffer
    → k < loop + 1
    → get_or (set buffer loop (hex_digit (d % 16))) k 0
      ≡ (if ltb k loop then get_or buffer k 0 else hex_digit (nibble (k - loop) d))
stored loop d buffer k room inside = elim (ℕ_discrete loop k) [
  | yes e ↦
      let here : ltb k loop ≡ false = ground arith in
      rw (here, nibble_zero k loop d (sym e))
        (ap (λ (n : ℕ). get_or (set buffer loop (hex_digit (d % 16))) n 0) (sym e)
          ∙ get_or-set_self buffer loop (hex_digit (d % 16)) 0 room)
  | no ne ↦
      let below : ltb k loop ≡ true = ground arith in
      rw below (get_or-set_ne buffer loop k (hex_digit (d % 16)) 0 ne)
]

count_zero : (fuel d : ℕ) → d ≡ 0 → count_digits fuel 16 d ≡ 0
unfolding count_digits
count_zero zero d z = refl
count_zero (suc fuel) d z = rw z refl

count_step : (fuel d : ℕ) → d ≢ 0 → count_digits (suc fuel) 16 d ≡ count_digits fuel 16 (d / 16) + 1
unfolding count_digits
count_step fuel d nz = let some_left : (d == 0) ≡ false = ground (arith, nz) in rw some_left refl

-- The digits stand in the buffer from its place `loop` on, the last one first.
fill_lem :
    (fuel loop d : ℕ) (buffer : List ℕ) (k : ℕ)
    → d ≢ 0
    → loop + count_digits fuel 16 d ≤ length buffer
    → k < loop + count_digits fuel 16 d
    → get_or (fill_forward fuel loop d buffer).0 k 0
      ≡ (if ltb k loop then get_or buffer k 0 else hex_digit (nibble (k - loop) d))
unfolding fill_forward
fill_lem zero loop d buffer k nz room inside =
    let below : ltb k loop ≡ true = ground (arith, inside, count_none) in rw below refl
  where
    count_none : count_digits 0 16 d ≡ 0
    count_none = count_zero_fuel d
fill_lem (suc fuel) loop d buffer k nz room inside =
    let n = count_step fuel d nz in
    let filled = set buffer loop (hex_digit (d % 16)) in
    elim (ℕ_discrete (d / 16) 0) [
      | yes z ↦
          let last : (d / 16 == 0) ≡ true = ground (arith, z) in
          rw last (
            stored loop d buffer k (omega (arith, n))
              (omega (arith, inside, n, count_zero fuel (d / 16) z)))
      | no nz' ↦
          let more : (d / 16 == 0) ≡ false = ground (arith, nz') in
          let rest =
            fill_lem fuel (loop + 1) (d / 16) filled k nz'
              (omega (arith, n, room, length-set buffer loop (hex_digit (d % 16))))
              (omega (arith, n, inside)) in
          rw more (rest ∙ joined n)
    ]
  where
    joined :
        count_digits (suc fuel) 16 d ≡ count_digits fuel 16 (d / 16) + 1
        → (if ltb k (loop + 1)
            then get_or (set buffer loop (hex_digit (d % 16))) k 0
            else hex_digit (nibble (k - (loop + 1)) (d / 16)))
          ≡ (if ltb k loop then get_or buffer k 0 else hex_digit (nibble (k - loop) d))
    joined n = elim (Bool-cases (ltb k (loop + 1))) [
      | inl low ↦ rw low (stored loop d buffer k (omega (arith, n, room)) (ltb→lt k (loop + 1) low))
      | inr high ↦
          let above : ltb k loop ≡ false = ground (arith, high) in
          rw (high, above) (ap hex_digit (sym (nibble_step k loop d (ground (arith, high)))))
    ]

fill_end :
    (fuel loop d : ℕ) (buffer : List ℕ)
    → d ≢ 0
    → d < 16 ^ fuel
    → ((fill_forward fuel loop d buffer).1 ≡ loop + count_digits fuel 16 d)
      × (length (fill_forward fuel loop d buffer).0 ≡ length buffer)
unfolding fill_forward
fill_end zero loop d buffer nz h = absurd (omega arith)
fill_end (suc fuel) loop d buffer nz h = elim (ℕ_discrete (d / 16) 0) [
  | yes z ↦
      let last : (d / 16 == 0) ≡ true = ground (arith, z) in
      rw last (
        omega (arith, count_step fuel d nz, count_zero fuel (d / 16) z),
        length-set buffer loop (hex_digit (d % 16)),
      )
  | no nz' ↦
      let more : (d / 16 == 0) ≡ false = ground (arith, nz') in
      let (at, len) =
        fill_end fuel (loop + 1) (d / 16) (set buffer loop (hex_digit (d % 16))) nz'
          (omega (arith, pow-suc 16 fuel)) in
      rw more
        (omega (arith, at, count_step fuel d nz), len ∙ length-set buffer loop (hex_digit (d % 16)))
]

-- Two places `s` and `e` exchanged.
module _ (b : List ℕ) (s e : ℕ) (apart : s < e) (inside : e < length b) where
  exchanged_start : get_or (set (set b s (get_or b e 0)) e (get_or b s 0)) s 0 ≡ get_or b e 0
  exchanged_start =
      get_or-set_ne (set b s (get_or b e 0)) e s (get_or b s 0) 0 (omega arith)
      ∙ get_or-set_self b s (get_or b e 0) 0 (omega arith)

  exchanged_end : get_or (set (set b s (get_or b e 0)) e (get_or b s 0)) e 0 ≡ get_or b s 0
  exchanged_end =
      get_or-set_self (set b s (get_or b e 0)) e (get_or b s 0) 0
        (omega (arith, length-set b s (get_or b e 0)))

  exchanged_other :
      (j : ℕ)
      → s ≢ j
      → e ≢ j
      → get_or (set (set b s (get_or b e 0)) e (get_or b s 0)) j 0 ≡ get_or b j 0
  exchanged_other j ns ne =
      get_or-set_ne (set b s (get_or b e 0)) e j (get_or b s 0) 0 ne
      ∙ get_or-set_ne b s j (get_or b e 0) 0 ns

met :
    (start end : ℕ) (b : List ℕ) (k : ℕ)
    → end ≤ start
    → get_or b k 0
      ≡ (if leb start k && leb k end then get_or b (start + end - k) 0 else get_or b k 0)
met start end b k stop = elim (Bool-cases (leb start k && leb k end)) [
  | inl between ↦
      let same : start + end - k ≡ k = ground (arith, between) in
      rw between (ap (λ (j : ℕ). get_or b j 0) (sym same))
  | inr outside ↦ rw outside refl
]

around :
    (start end : ℕ) (b : List ℕ) (k : ℕ)
    → start < end
    → end < length b
    → let swapped = set (set b start (get_or b end 0)) end (get_or b start 0) in
      (if leb (start + 1) k && leb k (end - 1)
        then get_or swapped (start + 1 + (end - 1) - k) 0
        else get_or swapped k 0)
      ≡ (if leb start k && leb k end then get_or b (start + end - k) 0 else get_or b k 0)
around start end b k apart inside = elim (ℕ_discrete start k) [
  | yes at_start ↦
      let out : (leb (start + 1) k && leb k (end - 1)) ≡ false = ground arith in
      let within : (leb start k && leb k end) ≡ true = ground arith in
      let other : start + end - k ≡ end = omega arith in
      rw (out, within, other)
        (ap (λ (j : ℕ). get_or (set (set b start (get_or b end 0)) end (get_or b start 0)) j 0)
            (sym at_start)
          ∙ exchanged_start b start end apart inside)
  | no not_start ↦ elim (ℕ_discrete end k) [
    | yes at_end ↦
        let out : (leb (start + 1) k && leb k (end - 1)) ≡ false = ground arith in
        let within : (leb start k && leb k end) ≡ true = ground arith in
        let other : start + end - k ≡ start = omega arith in
        rw (out, within, other)
          (ap (λ (j : ℕ). get_or (set (set b start (get_or b end 0)) end (get_or b start 0)) j 0)
              (sym at_end)
            ∙ exchanged_end b start end apart inside)
    | no not_end ↦ elim (Bool-cases (leb start k && leb k end)) [
      | inl within ↦
          let inner : (leb (start + 1) k && leb k (end - 1)) ≡ true = ground arith in
          let mirror : start + 1 + (end - 1) - k ≡ start + end - k = omega arith in
          rw (inner, within, mirror)
            (exchanged_other b start end apart inside (start + end - k) (ground (arith, within))
              (ground (arith, within)))
      | inr outside ↦
          let out : (leb (start + 1) k && leb k (end - 1)) ≡ false = ground (arith, outside) in
          rw (out, outside) (exchanged_other b start end apart inside k not_start not_end)
    ]
  ]
]

-- The loop reverses the places from `start` to `end`.
swap_lem :
    (fuel start end : ℕ) (b : List ℕ) (k : ℕ)
    → end < length b
    → end ≤ start + 2 * fuel
    → get_or (swap_ends fuel start end b) k 0
      ≡ (if leb start k && leb k end then get_or b (start + end - k) 0 else get_or b k 0)
unfolding swap_ends
swap_lem zero start end b k inside enough = met start end b k (omega arith)
swap_lem (suc fuel) start end b k inside enough = elim (Bool-cases (ltb start end)) [
  | inr stop ↦ rw stop (met start end b k (ground (arith, stop)))
  | inl go ↦
      let apart = ltb→lt start end go in
      let swapped = set (set b start (get_or b end 0)) end (get_or b start 0) in
      let same =
        length-set (set b start (get_or b end 0)) end (get_or b start 0)
        ∙ length-set b start (get_or b end 0) in
      rw go (
        swap_lem fuel (start + 1) (end - 1) swapped k (omega (arith, same)) (omega arith)
        ∙ around start end b k apart inside)
]

swap_length : (fuel start end : ℕ) (b : List ℕ) → length (swap_ends fuel start end b) ≡ length b
unfolding swap_ends
swap_length zero start end b = refl
swap_length (suc fuel) start end b = elim (Bool-cases (ltb start end)) [
  | inr stop ↦ rw stop refl
  | inl go ↦ rw go (
      swap_length fuel (start + 1) (end - 1)
        (set (set b start (get_or b end 0)) end (get_or b start 0))
      ∙ length-set (set b start (get_or b end 0)) end (get_or b start 0)
      ∙ length-set b start (get_or b end 0))
]

set_behind : (xs : List ℕ) (i v : ℕ) → length xs ≤ i → set xs i v ≡ xs
set_behind [] i v h = refl
set_behind (x ∷ xs) zero v h = absurd (omega arith)
set_behind (x ∷ xs) (suc i) v h = ap (λ (t : List ℕ). x ∷ t) (set_behind xs i v (omega arith))

two_pow-le : (width : ℕ) → 2 ^ width ≤ 16 ^ width
two_pow-le zero = omega arith
two_pow-le (suc width) = omega (arith, pow-suc 2 width, pow-suc 16 width, two_pow-le width)

module _ (width d : ℕ) (small : d < 2 ^ width) (nz : d ≢ 0) where
  enough : d < 16 ^ width
  enough = omega (arith, two_pow-le width, small)

  -- The 0 is stored behind the buffer.
  hexadecimal-swap_ends :
      hexadecimal width d
      ≡ swap_ends
          (count_digits width 16 d)
          0
          (count_digits width 16 d - 1)
          (fill_forward width 0 d (replicate (count_digits width 16 d) 0)).0
  unfolding hexadecimal
  hexadecimal-swap_ends =
      let n = count_digits width 16 d in
      let (at, len) = fill_end width 0 d (replicate n 0) nz enough in
      ap (swap_ends n 0 (n - 1)) (
        set_behind (fill_forward width 0 d (replicate n 0)).0
          (fill_forward width 0 d (replicate n 0)).1 0
          (omega (arith, at, len, length-replicate {A = ℕ} n 0)))

  print_x-hexadecimal : print_x width d ≡ hexadecimal width d
  unfolding print_x
  print_x-hexadecimal = let some_left : (d == 0) ≡ false = ground (arith, nz) in rw some_left refl

  length-hexadecimal : length (hexadecimal width d) ≡ count_digits width 16 d
  length-hexadecimal =
      let n = count_digits width 16 d in
      let (at, len) = fill_end width 0 d (replicate n 0) nz enough in
      ap length hexadecimal-swap_ends
      ∙ swap_length n 0 (n - 1) (fill_forward width 0 d (replicate n 0)).0
      ∙ len
      ∙ length-replicate {A = ℕ} n 0

  digit-hexadecimal :
      (k : ℕ)
      → k < count_digits width 16 d
      → get_or (hexadecimal width d) (count_digits width 16 d - 1 - k) 0 ≡ hex_digit (nibble k d)
  digit-hexadecimal k inside =
      let n = count_digits width 16 d in
      let filled = (fill_forward width 0 d (replicate n 0)).0 in
      let (at, len) = fill_end width 0 d (replicate n 0) nz enough in
      let within : (leb 0 (n - 1 - k) && leb (n - 1 - k) (n - 1)) ≡ true = ground arith in
      let mirror : 0 + (n - 1) - (n - 1 - k) ≡ k = omega arith in
      let above : ltb k 0 ≡ false = ground arith in
      let first : k - 0 ≡ k = omega arith in
      let digits =
        fill_lem width 0 d (replicate n 0) k nz (omega (arith, length-replicate {A = ℕ} n 0))
          (omega arith) in
      ap (λ (b : List ℕ). get_or b (n - 1 - k) 0) hexadecimal-swap_ends
      ∙ swap_lem n 0 (n - 1) filled (n - 1 - k) (omega (arith, len, length-replicate {A = ℕ} n 0))
          (omega arith)
      ∙ rw (within, mirror) (digits ∙ rw (above, first) refl)

-- Of a number that is not 0 and has `width` bits, 32 for `%x` and 64 for `%lx`, the conversion
-- prints as many characters as the number has digits in base 16, and the character at each place,
-- counted from the end, read as one of '0' to '9' and 'a' to 'f', has the value of that digit.
pub print_x_lem :
    (width d k : ℕ)
    → d < 2 ^ width
    → d ≢ 0
    → k < length (print_x width d)
    → (16 ^ (length (print_x width d) - 1) ≤ d)
      × (d < 16 ^ length (print_x width d))
      × (hex_value (get_or (print_x width d) (length (print_x width d) - 1 - k) 0) ≡ nibble k d)
print_x_lem width d k small nz inside =
    let size : length (print_x width d) ≡ count_digits width 16 d =
      ap length (print_x-hexadecimal width d small nz) ∙ length-hexadecimal width d small nz in
    let (some, low, high) = count_bounds width d (enough width d small nz) nz in
    rw size (
      low,
      high,
      ap (λ (t : List ℕ). hex_value (get_or t (count_digits width 16 d - 1 - k) 0))
            (print_x-hexadecimal width d small nz)
          ∙ ap hex_value (digit-hexadecimal width d small nz k (omega (arith, size)))
          ∙ hex_value-hex_digit (nibble k d) (nibble_below k d),
    )
