-- ===== src/Printf/Tests.antt =====
-- The conversions on given arguments, and the theorems at them.
use shawn_os.Prelude.{◌-◌, ◌^◌, ◌≤◌, ◌<◌, ◌≢◌, arith, length, get_or, ◌≡◌, refl, [], ◌∷◌, codes}
use shawn_os.Printf.{
  int32, int64, text, printed, out_of_fuel, plain, from_percent, print_d, print_u, print_x,
  convert_int, convert_long, convert_text, convert_lx, convert, before, percent_next, behind,
  format_loop, vprintf,
}
use shawn_os.Printf.Digits.{count_digits, fill_back, decimal, fill_forward, swap_ends, hexadecimal}
use shawn_os.Printf.Laws.{vprintf_ends}
use shawn_os.Printf.Escape.{vprintf-escape}
use shawn_os.Printf.Decimal.{Numeral, number-print_u}
use shawn_os.Printf.Hexadecimal.{nibble, hex_value, print_x_lem}

prints_unsigned :
    vprintf (codes "n=%u, 100%%") (int32 4294967295 ∷ []) ≡ printed (codes "n=4294967295, 100%") 8
unfolding vprintf format_loop plain from_percent print_u convert_int convert before percent_next
    behind count_digits fill_back decimal
prints_unsigned = refl

-- No sign is printed, and each digit counts down from '0'.
prints_negative : print_d (2 ^ 32 - 12) ≡ codes "/."
unfolding print_d decimal count_digits fill_back
prints_negative = refl

prints_hexadecimal : print_x 32 0xb8000 ≡ codes "b8000"
unfolding print_x hexadecimal count_digits fill_forward swap_ends
prints_hexadecimal = refl

prints_text :
    vprintf (codes "%s:%lx") (text (codes "a") ∷ int64 0x1_0000_0000 ∷ [])
    ≡ printed (codes "a:100000000") 1
unfolding vprintf format_loop plain from_percent print_x convert_long convert_text convert_lx
    convert before percent_next behind count_digits hexadecimal fill_forward swap_ends
prints_text = refl

-- After a conversion that is not known, all are printed as they stand.
rejects : vprintf (codes "%q %u") (int32 1 ∷ []) ≡ printed (codes "%q %u") 5
unfolding vprintf format_loop plain from_percent convert before percent_next
rejects = refl

vprintf_ends_example : vprintf (codes "100%q %u") [] ≢ out_of_fuel
vprintf_ends_example = vprintf_ends (codes "100%q %u") []

vprintf-escape_example : vprintf (codes "5%% of %%u") (int32 1 ∷ []) ≡ printed (codes "5% of %u") 8
vprintf-escape_example = vprintf-escape (codes "5% of %u") (int32 1 ∷ []) (omega arith)

number-print_u_example : Numeral 4294967295 (print_u 4294967295)
number-print_u_example = number-print_u 4294967295 (omega arith)

five_digits : length (print_x 32 0xb8000) ≡ 5
unfolding print_x hexadecimal count_digits fill_forward swap_ends
five_digits = refl

print_x_lem_example :
    (16 ^ (length (print_x 32 0xb8000) - 1) ≤ 0xb8000)
    × (0xb8000 < 16 ^ length (print_x 32 0xb8000))
    × (hex_value (get_or (print_x 32 0xb8000) (length (print_x 32 0xb8000) - 1 - 4) 0)
        ≡ nibble 4 0xb8000)
print_x_lem_example =
    print_x_lem 32 0xb8000 4 (omega arith) (omega arith) (omega (arith, five_digits))
