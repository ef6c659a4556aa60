-- ===== src/Printf/Digits.antt =====
-- The digit loops of the numeric conversions.
use shawn_os.Prelude.{
  ℕ, zero, suc, ◌+◌, ◌-◌, ◌/◌, ◌%◌, List, [], ◌∷◌, ltb, ◌==◌, if◌then◌else◌, get_or, set, replicate,
}

-- `while(temp) { ++size; temp /= base; }`
unfoldable pub count_digits : ℕ → ℕ → ℕ → ℕ
count_digits zero base temp = 0
count_digits (suc fuel) base temp =
    let rest = count_digits fuel base (temp / base) in if temp == 0 then 0 else rest + 1

-- `for(i=0; d; i++)`: the digits go into the buffer from its end.
unfoldable pub fill_back : (ℕ → ℕ) → ℕ → ℕ → ℕ → ℕ → List ℕ → List ℕ
fill_back digit zero i size d buffer = buffer
fill_back digit (suc fuel) i size d buffer =
    let rest =
      fill_back digit fuel (i + 1) size (d / 10) (set buffer (size - i - 1) (digit (d % 10))) in
    if d == 0 then buffer else rest

-- `(d % 10) + '0'`. A negative `d` has a remainder that is negative or 0.
abbrev pub decimal_digit : ℕ → ℕ
decimal_digit r = b'0' + r

abbrev pub negative_digit : ℕ → ℕ
negative_digit r = b'0' - r

-- What is printed in front of the buffer.
abbrev pub zero_override : ℕ → List ℕ
zero_override d = if d == 0 then b'0' ∷ [] else []

-- The buffer of the conversions `d` and `u`, for a magnitude.
unfoldable pub decimal : (ℕ → ℕ) → ℕ → List ℕ
decimal digit d = let size = count_digits 32 10 d in fill_back digit 32 0 size d (replicate size 0)

abbrev pub hex_digit : ℕ → ℕ
hex_digit r = if ltb r 10 then r + b'0' else r + b'a' - 10

-- `do { buffer[loop++] = ...; } while (d /= divisor)`, and the place of the next digit.
unfoldable pub fill_forward : ℕ → ℕ → ℕ → List ℕ → List ℕ × ℕ
fill_forward zero loop d buffer = (buffer, loop)
fill_forward (suc fuel) loop d buffer =
    let filled = set buffer loop (hex_digit (d % 16)) in
    let rest = fill_forward fuel (loop + 1) (d / 16) filled in
    if d / 16 == 0 then (filled, loop + 1) else rest

-- `while(start < end)`: the ends change places.
unfoldable pub swap_ends : ℕ → ℕ → ℕ → List ℕ → List ℕ
swap_ends zero start end buffer = buffer
swap_ends (suc fuel) start end buffer =
    let swapped = set (set buffer start (get_or buffer end 0)) end (get_or buffer start 0) in
    let rest = swap_ends fuel (start + 1) (end - 1) swapped in
    if ltb start end then rest else buffer

-- The buffer of `x` and `lx`, with the 0 that is stored behind its end. Of an empty buffer `end` is
-- -1, and the swapping stops as it does at 0.
unfoldable pub hexadecimal : ℕ → ℕ → List ℕ
hexadecimal width d =
    let size = count_digits width 16 d in
    let (filled, loop) = fill_forward width 0 d (replicate size 0) in
    swap_ends size 0 (size - 1) (set filled loop 0)
