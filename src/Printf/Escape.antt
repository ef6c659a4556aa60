-- ===== src/Printf/Escape.antt =====
-- A text in which each `%` is doubled is printed as it was.
use shawn_os.Prelude.{
  ℕ, zero, suc, ◌+◌, ◌^◌, ◌<◌, ◌≡◌, refl, ap, sym, ◌∙◌, arith, Bool, false, List, [], ◌∷◌, ◌++◌,
  ◌==◌, if◌then◌else◌, length, length-append,
}
use native.Mathlib.Decide.{ℕ_discrete}
use shawn_os.Kernel.{add32}
use shawn_os.Printf.{
  Arg, printed, plain, from_percent, before, percent_next, behind, format_loop, vprintf,
}
use shawn_os.Printf.Laws.{from_percent-le}

abbrev pub escape : List ℕ → List ℕ
escape [] = []
escape (c ∷ s) = if c == b'%' then b'%' ∷ b'%' ∷ escape s else c ∷ escape s

plain-escape : (s : List ℕ) → plain (escape s) ≡ plain s
unfolding plain
plain-escape [] = refl
plain-escape (c ∷ s) = elim (ℕ_discrete c b'%') [
  | yes e ↦ rw e refl
  | no ne ↦ let other : (c == b'%') ≡ false = ground arith in rw (other, other, plain-escape s) refl
]

from_percent-escape : (s : List ℕ) → from_percent (escape s) ≡ escape (from_percent s)
unfolding from_percent
from_percent-escape [] = refl
from_percent-escape (c ∷ s) = elim (ℕ_discrete c b'%') [
  | yes e ↦ rw e refl
  | no ne ↦
      let other : (c == b'%') ≡ false = ground arith in
      rw (other, other, from_percent-escape s) refl
]

plain-from_percent : (s : List ℕ) → plain s ++ from_percent s ≡ s
unfolding plain from_percent
plain-from_percent [] = refl
plain-from_percent (c ∷ s) = elim (ℕ_discrete c b'%') [
  | yes e ↦ rw e refl
  | no ne ↦
      let other : (c == b'%') ≡ false = ground arith in
      rw other (ap (λ (t : List ℕ). c ∷ t) (plain-from_percent s))
]

-- One text and the rest behind it.
before-split :
    (c : ℕ) (s : List ℕ)
    → length (c ∷ s) < 2 ^ 32
    → before
        (c ∷ plain s)
        (length (c ∷ plain s))
        (printed (from_percent s) (length (from_percent s)))
      ≡ printed (c ∷ s) (length (c ∷ s))
unfolding before
before-split c s short =
    let whole = plain-from_percent s in
    let size : length (plain s) + length (from_percent s) ≡ length s =
      sym (length-append (plain s) (from_percent s)) ∙ ap length whole in
    let total : add32 (length (c ∷ plain s)) (length (from_percent s)) ≡ length (c ∷ s) =
      omega arith in
    rw (total, whole) refl

loop-escape :
    (fuel : ℕ) (rejected : Bool) (s : List ℕ) (args : List Arg)
    → length (escape s) < fuel
    → length s < 2 ^ 32
    → format_loop fuel rejected (escape s) args ≡ printed s (length s)
unfolding format_loop percent_next behind
loop-escape zero rejected s args h short = absurd (omega arith)
loop-escape (suc fuel) rejected [] args h short = refl
loop-escape (suc fuel) rejected (c ∷ s) args h short =
    let rest_short : length (from_percent s) < 2 ^ 32 = omega (arith, from_percent-le s) in
    let rest_room : length (escape (from_percent s)) < fuel =
      ground (arith, h, from_percent-le (escape s), ap length (from_percent-escape s)) in
    let rest = loop-escape fuel rejected (from_percent s) args rest_room rest_short in
    elim (ℕ_discrete c b'%') [
      | yes e ↦
          rw e
            (rw (plain-escape s, from_percent-escape s, rest) (before-split b'%' s (omega arith)))
      | no ne ↦
          let other : (c == b'%') ≡ false = ground arith in
          rw other (
            rw (other, plain-escape s, from_percent-escape s, rest)
              (before-split c s (omega arith)))
    ]

-- `vprintf`, on a text of fewer than 2 ^ 32 characters in which each `%` is doubled, prints the
-- text, whatever the arguments, and returns its length.
pub vprintf-escape :
    (s : List ℕ) (args : List Arg)
    → length s < 2 ^ 32
    → vprintf (escape s) args ≡ printed s (length s)
unfolding vprintf
vprintf-escape s args short = loop-escape (length (escape s) + 1) false s args (omega arith) short
