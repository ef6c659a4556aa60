-- ===== src/Strings/Append.antt =====
-- `strcat` of libsc/string/strcat.c on two texts apart.
use shawn_os.Prelude.{
  ℕ, zero, suc, ◌+◌, ◌-◌, ◌≤◌, ◌<◌, ◌≡◌, refl, arith, true, false, ◌==◌, Outcome, ok, ap, ◌∙◌, sym,
  inl, ◌⊎◌,
}
use native.Mathlib.Decide.{ℕ_discrete, dec_lt}
use shawn_os.Memory.{put}
use shawn_os.Strings.{append_from, strcat}
use shawn_os.Strings.Reverse.{TextAt, length_from_lem}

-- The characters of the text at `src` from `j` on, and its 0, are copied to `to + j`.
record Copied (j to src size : ℕ) (old : ℕ → ℕ) (r : Outcome (ℕ → ℕ)) (new : ℕ → ℕ) : Type 0 where
  returns : r ≡ ok new
  copied : (k : ℕ) → j ≤ k → k ≤ size → new (to + k) ≡ old (src + k)
  outside : (a : ℕ) → (a < to + j) ⊎ (to + size < a) → new a ≡ old a

-- A byte of the text is none of those that are written.
abbrev pub Apart : ℕ → ℕ → ℕ → Type 0
Apart to src size = (src + size < to) ⊎ (to + size < src)

append_from-Copied :
    (fuel i j dest src size : ℕ) (memory : ℕ → ℕ)
    → j ≤ size
    → size < j + fuel
    → TextAt memory src size
    → Apart (dest + i) src size
    → (new : ℕ → ℕ) × Copied j (dest + i) src size memory (append_from fuel i j dest src memory) new
unfolding append_from
append_from-Copied zero i j dest src size memory le enough t apart = absurd (omega arith)
append_from-Copied (suc fuel) i j dest src size memory le enough t apart =
    let at : dest + (i + j) ≡ dest + i + j = omega arith in
    elim (ℕ_discrete j size) [
      | yes e ↦
          let here : (memory (src + j) == 0) ≡ true =
            ground (arith, ap (λ (k : ℕ). memory (src + k)) e, t.ends) in
          let same : memory (src + j) ≡ 0 = ap (λ (k : ℕ). memory (src + k)) e ∙ t.ends in
          (
            put (dest + i + j) 0 memory,
            record {
              returns = rw (here, at) refl;
              copied = λ k lo hi.
                  let ek : k ≡ j = omega arith in
                  let self : put (dest + i + j) 0 memory (dest + i + j) ≡ 0 = ground arith in
                  ap (λ (x : ℕ). put (dest + i + j) 0 memory (dest + i + x)) ek
                  ∙ self
                  ∙ sym same
                  ∙ ap (λ (x : ℕ). memory (src + x)) (sym ek);
              outside = λ a out. ground arith;
            },
          )
      | no ne ↦
          let more : (memory (src + j) == 0) ≡ false = ground (arith, t.real j (omega arith)) in
          let kept : (k : ℕ)
              → k ≤ size
              → put (dest + i + j) (memory (src + j)) memory (src + k) ≡ memory (src + k) =
            λ k hi. ground arith in
          let (new, u) =
            append_from-Copied fuel i (j + 1) dest src size
              (put (dest + i + j) (memory (src + j)) memory) (omega arith) (omega arith)
              (record {
                real = λ k lt e. t.real k lt (ground (arith, kept k));
                ends = kept size (omega arith) ∙ t.ends;
              })
              apart in
          (
            new,
            record {
              returns = rw (more, at) u.returns;
              copied = λ k lo hi. elim (ℕ_discrete k j) [
                | yes ek ↦
                    let self : put (dest + i + j) (memory (src + j)) memory (dest + i + j)
                        ≡ memory (src + j) =
                      ground arith in
                    ap (λ (x : ℕ). new (dest + i + x)) ek
                    ∙ u.outside (dest + i + j) (inl (omega arith))
                    ∙ self
                    ∙ ap (λ (x : ℕ). memory (src + x)) (sym ek)
                | no nk ↦ u.copied k (omega arith) hi ∙ kept k hi
              ];
              outside = λ a out. u.outside a (ground arith) ∙ ground arith;
            },
          )
    ]

-- The text of `n` characters at `dest`, followed by that of `m` at `src`.
pub record Joined (dest n src m : ℕ) (old : ℕ → ℕ) (r : Outcome (ℕ → ℕ)) (new : ℕ → ℕ)
    : Type 0 where
  pub returns : r ≡ ok new
  pub is_text : TextAt new dest (n + m)
  pub first : (k : ℕ) → k < n → new (dest + k) ≡ old (dest + k)
  pub second : (k : ℕ) → k < m → new (dest + n + k) ≡ old (src + k)
  pub outside : (a : ℕ) → (a < dest) ⊎ (dest + n + m < a) → new a ≡ old a

-- `strcat` of a text of `m` characters to one of `n`, where the bytes that it writes are apart from the text
-- at `src`: with more rounds than either text has characters it returns, leaves a text of
-- `n + m` characters at `dest`, those that stood there and then those of the other text, and touches no
-- byte outside it.
pub strcat-Joined :
    (fuel dest n src m : ℕ) (memory : ℕ → ℕ)
    → TextAt memory dest n
    → TextAt memory src m
    → Apart (dest + n) src m
    → n < fuel
    → m < fuel
    → (new : ℕ → ℕ) × Joined dest n src m memory (strcat fuel dest src memory) new
unfolding strcat
strcat-Joined fuel dest n src m memory t u apart enough enough' =
    let (new, c) =
      append_from-Copied fuel n 0 dest src m memory (omega arith) (omega arith) u apart in
    let kept : (k : ℕ) → k < n → new (dest + k) ≡ memory (dest + k) =
      λ k lt. c.outside (dest + k) (inl (omega arith)) in
    (
      new,
      record {
        returns = rw (length_from_lem fuel 0 dest n memory t (omega arith) (omega arith)) c.returns;
        is_text = record {
          real = λ k lt. elim (dec_lt k n) [
            | yes low ↦ λ e. t.real k low (sym (kept k low) ∙ e)
            | no high ↦ λ e.
                u.real (k - n) (omega arith)
                  (sym (c.copied (k - n) (omega arith) (omega arith)) ∙ ap new (omega arith) ∙ e)
          ];
          ends = ap new (omega arith) ∙ c.copied m (omega arith) (omega arith) ∙ u.ends;
        };
        first = kept;
        second = λ k lt. c.copied k (omega arith) (omega arith);
        outside = λ a out. c.outside a (ground arith);
      },
    )
