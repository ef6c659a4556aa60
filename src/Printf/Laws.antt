-- ===== src/Printf/Laws.antt =====
-- `vprintf` ends on every format, and prints a text in which each `%` is doubled.
use shawn_os.Prelude.{
  ℕ, zero, suc, ◌+◌, ◌≤◌, ◌<◌, ◌≡◌, ◌≢◌, refl, ap, sym, ◌∙◌, arith, Bool, true, false, List, [],
  ◌∷◌, ◌==◌, if◌then◌else◌, length,
}
use shawn_os.Printf.{
  Arg, int32, int64, text, Result, printed, no_argument, out_of_fuel, Conversion, converted,
  missing, incomprehensible, plain, from_percent, print_x, convert_int, convert_long, convert_text,
  convert_lx, convert, before, percent_next, behind, format_loop, vprintf,
}

abbrev ends : Result → Bool
ends (printed out written) = true
ends no_argument = true
ends out_of_fuel = false

ends-before : (out : List ℕ) (n : ℕ) (r : Result) → ends r ≡ true → ends (before out n r) ≡ true
unfolding before
ends-before out n (printed rest written) h = refl
ends-before out n no_argument h = refl
ends-before out n out_of_fuel h = h

pub from_percent-le : (format : List ℕ) → length (from_percent format) ≤ length format
unfolding from_percent
from_percent-le [] = omega arith
from_percent-le (c ∷ format) = ground (arith, from_percent-le format)

behind-le : (format : List ℕ) → length (behind format) ≤ length format
unfolding behind
behind-le [] = omega arith
behind-le (c ∷ format) = omega arith

-- A conversion leaves no more of the format than there was.
abbrev Within : ℕ → Conversion → Type 0
Within n (converted out format args) = length format ≤ n
Within n missing = Unit {0}
Within n incomprehensible = Unit {0}

convert_int-Within :
    (print : ℕ → List ℕ) (format : List ℕ) (args : List Arg) (n : ℕ)
    → length format ≤ n
    → Within n (convert_int print format args)
unfolding convert_int
convert_int-Within print format [] n h = tt
convert_int-Within print format (int32 d ∷ args) n h = h
convert_int-Within print format (int64 d ∷ args) n h = tt
convert_int-Within print format (text s ∷ args) n h = tt

convert_long-Within :
    (print : ℕ → List ℕ) (format : List ℕ) (args : List Arg) (n : ℕ)
    → length format ≤ n
    → Within n (convert_long print format args)
unfolding convert_long
convert_long-Within print format [] n h = tt
convert_long-Within print format (int32 d ∷ args) n h = tt
convert_long-Within print format (int64 d ∷ args) n h = h
convert_long-Within print format (text s ∷ args) n h = tt

convert_text-Within :
    (format : List ℕ) (args : List Arg) (n : ℕ)
    → length format ≤ n
    → Within n (convert_text format args)
unfolding convert_text
convert_text-Within format [] n h = tt
convert_text-Within format (int32 d ∷ args) n h = tt
convert_text-Within format (int64 d ∷ args) n h = tt
convert_text-Within format (text s ∷ args) n h = h

if-Within :
    (b : Bool) (x y : Conversion) (n : ℕ) → Within n x → Within n y → Within n (if b then x else y)
if-Within true x y n hx hy = hx
if-Within false x y n hx hy = hy

convert_lx-Within :
    (format : List ℕ) (args : List Arg) (n : ℕ)
    → length format ≤ n
    → Within n (convert_lx format args)
unfolding convert_lx
convert_lx-Within [] args n h = tt
convert_lx-Within (c ∷ format) args n h =
    if-Within (c == b'x') _ _ n (convert_long-Within (print_x 64) format args n (omega arith)) tt

convert-Within :
    (format : List ℕ) (args : List Arg) (n : ℕ) → length format ≤ n → Within n (convert format args)
unfolding convert
convert-Within [] args n h = tt
convert-Within (c ∷ format) args n h =
    let room : length format ≤ n = omega arith in
    if-Within (c == b'c') _ _ n (convert_int-Within _ format args n room) (
      if-Within (c == b'd') _ _ n (convert_int-Within _ format args n room) (
        if-Within (c == b'u') _ _ n (convert_int-Within _ format args n room) (
          if-Within (c == b'x') _ _ n (convert_int-Within _ format args n room) (
            if-Within (c == b'l') _ _ n (convert_lx-Within format args n room)
              (if-Within (c == b's') _ _ n (convert_text-Within format args n room) tt)))))

if-ends :
    (b : Bool) (x y : Result) → ends x ≡ true → ends y ≡ true → ends (if b then x else y) ≡ true
if-ends true x y hx hy = hx
if-ends false x y hx hy = hy

-- What one round does, where the rounds after it end on every shorter format.
module _ (fuel c : ℕ) (format : List ℕ) (args : List Arg)
    (later : (now : Bool) (rest : List ℕ) (args' : List Arg)
      → length rest ≤ length format
      → ends (format_loop fuel now rest args') ≡ true) where
  text_ends :
      (now : Bool) (rest : List ℕ)
      → length rest ≤ length format
      → ends (
          before
            (c ∷ plain rest)
            (length (c ∷ plain rest))
            (format_loop fuel now (from_percent rest) args))
        ≡ true
  text_ends now rest room =
      ends-before (c ∷ plain rest) (length (c ∷ plain rest))
        (format_loop fuel now (from_percent rest) args)
        (later now (from_percent rest) args (omega (arith, from_percent-le rest)))

  conversion_ends :
      (cv : Conversion)
      → Within (length format) cv
      → ends (elim cv [
        | converted out format' args' ↦ before out 0 (format_loop fuel false format' args')
        | missing ↦ no_argument
        | incomprehensible ↦
            before
              (c ∷ plain format)
              (length (c ∷ plain format))
              (format_loop fuel true (from_percent format) args)
      ])
        ≡ true
  conversion_ends (converted out format' args') room =
      ends-before out 0 (format_loop fuel false format' args') (later false format' args' room)
  conversion_ends missing room = refl
  conversion_ends incomprehensible room = text_ends true format (omega arith)

loop_ends :
    (fuel : ℕ) (rejected : Bool) (format : List ℕ) (args : List Arg)
    → length format < fuel
    → ends (format_loop fuel rejected format args) ≡ true
unfolding format_loop
loop_ends zero rejected format args h = absurd (omega arith)
loop_ends (suc fuel) rejected [] args h = refl
loop_ends (suc fuel) rejected (c ∷ format) args h =
    let later =
      λ (now : Bool) (rest : List ℕ) (args' : List Arg) (room : length rest ≤ length format).
        loop_ends fuel now rest args' (omega (arith, room, h)) in
    if-ends (if c == b'%' then false else true) _ _
      (text_ends fuel c format args later rejected format (omega arith))
      (if-ends (percent_next format) _ _
        (text_ends fuel c format args later rejected (behind format) (behind-le format))
        (if-ends rejected _ _ (text_ends fuel c format args later true format (omega arith)) (
          conversion_ends fuel c format args later (convert format args)
            (convert-Within format args (length format) (omega arith)))))

-- On any format and any arguments, the loop of `vprintf` comes to the end of the format, or to a
-- conversion without an argument of its type.
pub vprintf_ends : (format : List ℕ) (args : List Arg) → vprintf format args ≢ out_of_fuel
unfolding vprintf
vprintf_ends format args stuck =
    no_confusion
      (sym (loop_ends (length format + 1) false format args (omega arith)) ∙ ap ends stuck)
  where
    no_confusion : true ≢ false
    no_confusion e = ground (arith, e)
