-- ===== src/Kernel.antt =====
-- kernel/include/kernel/kernel.h: result codes, 32-bit words, rounding, address-space constants.
use shawn_os.Prelude.{
  ℕ, ◌+◌, ◌-◌, ◌*◌, ◌/◌, ◌%◌, ◌^◌, ◌≤◌, ◌<◌, arith, ltb, ◌==◌, if◌then◌else◌, Bool, not,
}

-- The bit pattern that a `uint32_t`, a `size_t` or a pointer keeps of a number.
abbrev pub u32 : ℕ → ℕ
u32 n = n % 2 ^ 32

abbrev pub add32 : ℕ → ℕ → ℕ
add32 a b = u32 (a + b)

-- `-` on ℕ stops at 0, so the modulus is added first.
abbrev pub sub32 : ℕ → ℕ → ℕ
sub32 a b = u32 (a + 2 ^ 32 - b)

abbrev pub mul32 : ℕ → ℕ → ℕ
mul32 a b = u32 (a * b)

-- `DIV_ROUND_UP`: the subtraction is unsigned and wraps at 0.
abbrev pub div_round_up : ℕ → ℕ → ℕ
div_round_up a b = add32 (sub32 a 1 / b) 1

-- `MAX` at `unsigned int` and `unsigned long`.
abbrev pub max32 : ℕ → ℕ → ℕ
max32 a b = if ltb b a then a else b

-- `k_return_t`.
abbrev pub k_success : ℕ
k_success = 0

abbrev pub k_unimpl : ℕ
k_unimpl = 1

abbrev pub k_oom : ℕ
k_oom = 2

abbrev pub k_notsup : ℕ
k_notsup = 5

abbrev pub k_invalop : ℕ
k_invalop = 6

-- `K_FAILED`
abbrev pub k_failed : ℕ → Bool
k_failed code = not (code == k_success)

-- `KVIRT_RESERVED` and `KVIRT_MAX`
abbrev pub kvirt_reserved : ℕ
kvirt_reserved = 0x17c000

abbrev pub kvirt_max : ℕ
kvirt_max = 0x3fff_ffff

-- `PAGE_SIZE` of arch/i386/mem.h
abbrev pub page_size : ℕ
page_size = 4096

div_round_up-32 :
    (n : ℕ) → 0 < n → n < 2 ^ 32 → (n ≤ 32 * div_round_up n 32) × (32 * div_round_up n 32 < n + 32)
div_round_up-32 n h hi = omega arith
