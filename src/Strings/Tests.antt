-- ===== src/Strings/Tests.antt =====
-- The theorem on `itoa` at 1024, and what the functions leave in a memory of zeros.
use shawn_os.Prelude.{
  ℕ, zero, suc, ◌+◌, ◌<◌, ◌≡◌, ◌≢◌, inr, refl, arith, List, [], ◌∷◌, ◌==◌, if◌then◌else◌, ok, ◌>>=◌,
}
use shawn_os.Strings.{
  strlen, length_from, strcpy, strcat, append_from, memcmp, compare_from, reverse, swap_chars,
  itoa_digits, itoa,
}
use shawn_os.Strings.Reverse.{TextAt}
use shawn_os.Strings.Append.{Joined, strcat-Joined}
use shawn_os.Strings.Itoa.{Written, itoa-Written}

abbrev zeros : ℕ → ℕ
zeros a = 0

itoa-Written_example :
    (size : ℕ) × (new : ℕ → ℕ) × Written 1024 0x1000 zeros (itoa 1024 0x1000 zeros) size new
itoa-Written_example = itoa-Written 1024 0x1000 zeros (omega arith)

-- The four bytes from address 16 on.
abbrev four : (ℕ → ℕ) → List ℕ
four memory = memory 16 ∷ memory 17 ∷ memory 18 ∷ memory 19 ∷ []

itoa_of_minus_42 :
    (itoa 0xffff_ffd6 16 zeros >>= λ m. ok (four m)) ≡ ok (b'-' ∷ b'4' ∷ b'2' ∷ 0 ∷ [])
unfolding itoa itoa_digits reverse strlen length_from swap_chars
itoa_of_minus_42 = refl

-- The least `int` stays negative, and only the character for its last digit is stored.
itoa_of_least : (itoa 0x8000_0000 16 zeros >>= λ m. ok (four m)) ≡ ok (b'-' ∷ b'(' ∷ 0 ∷ 0 ∷ [])
unfolding itoa itoa_digits reverse strlen length_from swap_chars
itoa_of_least = refl

-- "ab" at 16 and "c" at 32.
abbrev two_texts : ℕ → ℕ
two_texts a = if a == 16 then b'a' else if a == 17 then b'b' else if a == 32 then b'c' else 0

strcat_abc : (strcat 5 16 32 two_texts >>= λ m. ok (four m)) ≡ ok (b'a' ∷ b'b' ∷ b'c' ∷ 0 ∷ [])
unfolding strcat length_from append_from
strcat_abc = refl

strcpy_c : (strcpy 5 16 32 two_texts >>= λ m. ok (four m)) ≡ ok (b'c' ∷ 0 ∷ 0 ∷ 0 ∷ [])
unfolding strcpy
strcpy_c = refl

memcmp_differs : memcmp 16 32 3 two_texts ≡ 0xffff_ffff
unfolding memcmp compare_from
memcmp_differs = refl

first_text : TextAt two_texts 16 2
first_text = record { real = real; ends = refl }
  where
    real : (k : ℕ) → k < 2 → two_texts (16 + k) ≢ 0
    real zero lt = omega arith
    real (suc zero) lt = omega arith
    real (suc (suc k)) lt = absurd (omega arith)

second_text : TextAt two_texts 32 1
second_text = record { real = real; ends = refl }
  where
    real : (k : ℕ) → k < 1 → two_texts (32 + k) ≢ 0
    real zero lt = omega arith
    real (suc k) lt = absurd (omega arith)

strcat-Joined_example : (new : ℕ → ℕ) × Joined 16 2 32 1 two_texts (strcat 5 16 32 two_texts) new
strcat-Joined_example =
    strcat-Joined 5 16 2 32 1 two_texts first_text second_text (inr (omega arith)) (omega arith)
      (omega arith)
