-- ===== src/Strings.antt =====
-- libsc/string/strlen.c, strcpy.c, strcat.c and memcmp.c, libsc/stdlib/itoa.c and libsc/stdio/puts.c.
-- The memory is a function from addresses to bytes, as in Memory; a loop that ends at a 0 in the
-- memory takes fuel.
pub mod Reverse
pub mod Itoa
pub mod Append
mod Tests
use shawn_os.Prelude.{
  ℕ, zero, suc, ◌+◌, ◌-◌, ◌*◌, ◌/◌, ◌%◌, ◌^◌, Bool, true, false, not, List, [], ◌∷◌, ltb, ◌==◌,
  if◌then◌else◌, Outcome, ok, out_of_fuel, ◌>>=◌, codes,
}
use shawn_os.Kernel.{sub32}
use shawn_os.Memory.{put}
use shawn_os.Textmode.{Textmode}
use shawn_os.Printf.{text, printf}

-- `while ( string[result] ) result++;`
unfoldable pub length_from : ℕ → ℕ → ℕ → (ℕ → ℕ) → Outcome ℕ
length_from zero result string memory = out_of_fuel
length_from (suc fuel) result string memory =
    let rest = length_from fuel (result + 1) string memory in
    if memory (string + result) == 0 then ok result else rest

unfoldable pub strlen : ℕ → ℕ → (ℕ → ℕ) → Outcome ℕ
strlen fuel string memory = length_from fuel 0 string memory

-- `while (*dest++ = *src++)`
unfoldable pub strcpy : ℕ → ℕ → ℕ → (ℕ → ℕ) → Outcome (ℕ → ℕ)
strcpy zero dest src memory = out_of_fuel
strcpy (suc fuel) dest src memory =
    let copied = put dest (memory src) memory in
    let rest = strcpy fuel (dest + 1) (src + 1) copied in
    if memory src == 0 then ok copied else rest

-- The loop of `strcat` over `j`, once `i` is the end of the text at `dest`.
unfoldable pub append_from : ℕ → ℕ → ℕ → ℕ → ℕ → (ℕ → ℕ) → Outcome (ℕ → ℕ)
append_from zero i j dest src memory = out_of_fuel
append_from (suc fuel) i j dest src memory =
    let rest =
      append_from fuel i (j + 1) dest src (put (dest + (i + j)) (memory (src + j)) memory) in
    if memory (src + j) == 0 then ok (put (dest + (i + j)) 0 memory) else rest

unfoldable pub strcat : ℕ → ℕ → ℕ → (ℕ → ℕ) → Outcome (ℕ → ℕ)
strcat fuel dest src memory = do
  i ← length_from fuel 0 dest memory
  append_from fuel i 0 dest src memory

-- The loop of `memcmp` from `i` on; -1 is the pattern of 32 ones.
unfoldable pub compare_from : ℕ → ℕ → ℕ → ℕ → (ℕ → ℕ) → ℕ
compare_from zero i a b memory = 0
compare_from (suc left) i a b memory =
    let rest = compare_from left (i + 1) a b memory in
    if ltb (memory (a + i)) (memory (b + i))
    then 0xffff_ffff
    else if ltb (memory (b + i)) (memory (a + i))
    then 1
    else rest

unfoldable pub memcmp : ℕ → ℕ → ℕ → (ℕ → ℕ) → ℕ
memcmp a b size memory = compare_from size 0 a b memory

-- The loop of `reverse`: the characters at `i` and `j` change places while `i < j`.
unfoldable pub swap_chars : ℕ → ℕ → ℕ → ℕ → (ℕ → ℕ) → ℕ → ℕ
swap_chars zero i j s memory = memory
swap_chars (suc fuel) i j s memory =
    let swapped = put (s + j) (memory (s + i)) (put (s + i) (memory (s + j)) memory) in
    let rest = swap_chars fuel (i + 1) (j - 1) s swapped in if ltb i j then rest else memory

-- Of an empty string `j` starts at -1, and the loop stops as it does at 0.
unfoldable pub reverse : ℕ → ℕ → (ℕ → ℕ) → Outcome (ℕ → ℕ)
reverse fuel s memory = do size ← strlen fuel s memory; ok (swap_chars size 0 (size - 1) s memory)

-- `n % 10 + '0'` for an `int`: the remainder of a negative one is negative or 0.
abbrev pub digit_of : ℕ → ℕ
digit_of n = if ltb n (2 ^ 31) then n % 10 + b'0' else b'0' - (2 ^ 32 - n) % 10

-- `n /= 10` as far as it is positive: of a negative `int` it is negative or 0.
abbrev pub positive_rest : ℕ → ℕ
positive_rest n = if ltb n (2 ^ 31) then n / 10 else 0

-- The `do` loop of `itoa`, which stores the digits from the last one on.
unfoldable pub itoa_digits : ℕ → ℕ → ℕ → ℕ → (ℕ → ℕ) → Outcome (ℕ × (ℕ → ℕ))
itoa_digits zero i n s memory = out_of_fuel
itoa_digits (suc fuel) i n s memory =
    let stored = put (s + i) (digit_of n) memory in
    let rest = itoa_digits fuel (i + 1) (positive_rest n) s stored in
    if positive_rest n == 0 then ok (i + 1, stored) else rest

-- An `int` is its pattern of 32 bits; `-n` wraps. Ten digits, a sign and the 0 are enough.
unfoldable pub itoa : ℕ → ℕ → (ℕ → ℕ) → Outcome (ℕ → ℕ)
itoa n s memory = do
  let negative = not (ltb n (2 ^ 31))
  (i, stored) ← itoa_digits 10 0 (if negative then sub32 0 n else n) s memory
  let signed = if negative then put (s + i) b'-' stored else stored
  let end = if negative then i + 1 else i
  reverse 12 s (put (s + end) 0 signed)

-- The screen after `puts`.
unfoldable pub puts : List ℕ → Textmode → Textmode
puts string t = printf (codes "%s\n") (text string ∷ []) t
