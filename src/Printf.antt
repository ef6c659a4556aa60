-- ===== src/Printf.antt =====
-- libsc/stdio/printf.c and libsc/stdio/putchar.c, as the kernel is built with them.
-- A string is the list of its characters in front of the terminating 0. The arguments are a list,
-- each with the type that the caller passed; a conversion that finds no argument of its type has
-- no defined behaviour, and is `no_argument`.
pub mod Digits
pub mod Laws
pub mod Decimal
pub mod Escape
pub mod Hexadecimal
mod Tests
use shawn_os.Prelude.{
  ℕ, zero, suc, ◌+◌, ◌-◌, ◌%◌, ◌^◌, Bool, true, false, ◌&&◌, ◌||◌, List, [], ◌∷◌, ◌++◌, ltb, ◌==◌,
  if◌then◌else◌, length,
}
use shawn_os.Kernel.{add32}
use shawn_os.Textmode.{Textmode, putchar}
use Digits.{decimal_digit, negative_digit, zero_override, decimal, hexadecimal}

-- Patterns of 32 and of 64 bits, and a string.
pub data Arg : Type 0 where
  int32 : ℕ → Arg
  int64 : ℕ → Arg
  text : List ℕ → Arg

-- The characters that are printed and the value that is returned.
pub data Result : Type 0 where
  printed : List ℕ → ℕ → Result
  no_argument : Result
  out_of_fuel : Result

-- What a conversion prints, and what is left of the format and of the arguments.
pub data Conversion : Type 0 where
  converted : List ℕ → List ℕ → List Arg → Conversion
  missing : Conversion
  incomprehensible : Conversion

-- The characters up to the next `%`, and those from there on.
unfoldable pub plain : List ℕ → List ℕ
plain [] = []
plain (c ∷ format) = let rest = plain format in if c == b'%' then [] else c ∷ rest

unfoldable pub from_percent : List ℕ → List ℕ
from_percent [] = []
from_percent (c ∷ format) = let rest = from_percent format in if c == b'%' then c ∷ format else rest

-- A pattern whose top bit is set is a negative `int`; its digits are those of its magnitude.
unfoldable pub print_d : ℕ → List ℕ
print_d d =
    if ltb d (2 ^ 31)
    then zero_override d ++ decimal decimal_digit d
    else decimal negative_digit (2 ^ 32 - d)

unfoldable pub print_u : ℕ → List ℕ
print_u d = zero_override d ++ decimal decimal_digit d

unfoldable pub print_x : ℕ → ℕ → List ℕ
print_x width d = zero_override d ++ hexadecimal width d

unfoldable pub convert_int : (ℕ → List ℕ) → List ℕ → List Arg → Conversion
convert_int print format (int32 d ∷ args) = converted (print d) format args
convert_int print format _ = missing

unfoldable pub convert_long : (ℕ → List ℕ) → List ℕ → List Arg → Conversion
convert_long print format (int64 d ∷ args) = converted (print d) format args
convert_long print format _ = missing

unfoldable pub convert_text : List ℕ → List Arg → Conversion
convert_text format (text s ∷ args) = converted s format args
convert_text format _ = missing

-- `*format == 'l' && *(format+1) == 'x'`
unfoldable pub convert_lx : List ℕ → List Arg → Conversion
convert_lx [] args = incomprehensible
convert_lx (c ∷ format) args =
    if c == b'x' then convert_long (print_x 64) format args else incomprehensible

-- The conversion at the character behind a `%`. A `char` is the low 8 bits of its argument.
unfoldable pub convert : List ℕ → List Arg → Conversion
convert [] args = incomprehensible
convert (c ∷ format) args =
    if c == b'c'
    then convert_int (λ d. d % 256 ∷ []) format args
    else if c == b'd'
    then convert_int print_d format args
    else if c == b'u'
    then convert_int print_u format args
    else if c == b'x'
    then convert_int (print_x 32) format args
    else if c == b'l'
    then convert_lx format args
    else if c == b's'
    then convert_text format args
    else incomprehensible

-- Output in front of what follows it.
unfoldable pub before : List ℕ → ℕ → Result → Result
before out n (printed rest written) = printed (out ++ rest) (add32 n written)
before out n no_argument = no_argument
before out n out_of_fuel = out_of_fuel

-- `*++format == '%'`
unfoldable pub percent_next : List ℕ → Bool
percent_next [] = false
percent_next (c ∷ format) = c == b'%'

-- The characters behind the `%` of a `%%`, whose second `%` starts the text.
unfoldable pub behind : List ℕ → List ℕ
behind [] = []
behind (c ∷ format) = format

-- The loop of `vprintf`, a round to a conversion or to a text from `c` to the next `%`.
unfoldable pub format_loop : ℕ → Bool → List ℕ → List Arg → Result
format_loop zero rejected format args = out_of_fuel
format_loop (suc fuel) rejected [] args = printed [] 0
format_loop (suc fuel) rejected (c ∷ format) args =
    let loop = format_loop fuel in
    let print_c = λ (now : Bool) (rest : List ℕ).
      before (c ∷ plain rest) (length (c ∷ plain rest)) (loop now (from_percent rest) args) in
    if not_percent
    then print_c rejected format
    else if percent_next format
    then print_c rejected (behind format)
    else if rejected
    then print_c true format
    else (elim (convert format args) [
      | converted out format' args' ↦ before out 0 (loop false format' args')
      | missing ↦ no_argument
      | incomprehensible ↦ print_c true format
    ])
  where
    not_percent : Bool
    not_percent = if c == b'%' then false else true

unfoldable pub vprintf : List ℕ → List Arg → Result
vprintf format args = format_loop (length format + 1) false format args

-- `print`, by way of `putchar`, which hands a character to the text mode.
unfoldable pub print : List ℕ → Textmode → Textmode
print [] t = t
print (c ∷ data_rest) t = print data_rest (putchar c t)

-- The screen after a `printf` whose arguments fit its format.
unfoldable pub printf : List ℕ → List Arg → Textmode → Textmode
printf format args t = elim (vprintf format args) [
  | printed out written ↦ print out t
  | no_argument ↦ t
  | out_of_fuel ↦ t
]
