-- ===== src/Stdio/Tests.antt =====
-- The theorems on standard output at short strings.
use shawn_os.Prelude.{ℕ, ◌<◌, ◌≡◌, refl, arith, [], ◌∷◌, replicate, length-replicate, get_or}
use shawn_os.Stdio.{Stdio, stdout_get, stdout_writestring}
use shawn_os.Stdio.Laws.{IsValid, stdout_get-stdout_writestring}

abbrev holding : ℕ → Stdio
holding n = record {
  stdin = replicate 256 0;
  stdout = replicate 256 0;
  stdin_length = 0;
  stdout_length = n;
}

holding_three : IsValid (holding 3)
holding_three = record { places = length-replicate {A = ℕ} 256 0; length_in = omega arith }

holding_none : IsValid (holding 0)
holding_none = record { places = length-replicate {A = ℕ} 256 0; length_in = omega arith }

stdout_get-stdout_writestring_example :
    let (out, n, t) =
      stdout_get (replicate 256 0) (stdout_writestring (72 ∷ 105 ∷ []) (holding 0)) in
    (n ≡ 2)
    × (t.stdout_length ≡ 0)
    × ((k : ℕ) → k < n → get_or out k 0 ≡ get_or (72 ∷ 105 ∷ []) k 0)
stdout_get-stdout_writestring_example =
    stdout_get-stdout_writestring (72 ∷ 105 ∷ []) (replicate 256 0) (holding 0) holding_none refl
      (omega arith) (length-replicate {A = ℕ} 256 0)
