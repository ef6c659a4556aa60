-- ===== src/Strings/Reverse.antt =====
-- The loops over a text that `reverse` of libsc/stdlib/itoa.c runs.
use shawn_os.Prelude.{
  ℕ, zero, suc, ◌+◌, ◌-◌, ◌*◌, ◌≤◌, ◌<◌, ◌≡◌, ◌≢◌, refl, arith, true, false, ltb, ◌==◌, Outcome, ok,
  ap, ◌∙◌, inl, inr, Bool-cases, ◌⊎◌,
}
use native.Mathlib.Decide.{ℕ_discrete}
use shawn_os.Memory.{put}
use shawn_os.Strings.{length_from, strlen, swap_chars, reverse}

-- A text of `size` characters at `s`.
pub record TextAt (memory : ℕ → ℕ) (s size : ℕ) : Type 0 where
  pub real : (k : ℕ) → k < size → memory (s + k) ≢ 0
  pub ends : memory (s + size) ≡ 0

pub length_from_lem :
    (fuel k s size : ℕ) (memory : ℕ → ℕ)
    → TextAt memory s size
    → k ≤ size
    → size < k + fuel
    → length_from fuel k s memory ≡ ok size
unfolding length_from
length_from_lem zero k s size memory t le enough = absurd (omega arith)
length_from_lem (suc fuel) k s size memory t le enough = elim (ℕ_discrete k size) [
  | yes e ↦
      let here : (memory (s + k) == 0) ≡ true =
        ground (arith, ap (λ (i : ℕ). memory (s + i)) e, t.ends) in
      rw here (ap ok e)
  | no ne ↦
      let more : (memory (s + k) == 0) ≡ false = ground (arith, t.real k (omega arith)) in
      rw more (length_from_lem fuel (k + 1) s size memory t (omega arith) (omega arith))
]

-- The bytes from `i` to `j` are in the reverse order, and no others change.
pub record Swapped (i j s : ℕ) (old new : ℕ → ℕ) : Type 0 where
  pub inside : (k : ℕ) → i ≤ k → k ≤ j → new (s + k) ≡ old (s + (i + j - k))
  pub outside : (a : ℕ) → (a < s + i) ⊎ (s + j < a) → new a ≡ old a

module _ (i j s : ℕ) (memory : ℕ → ℕ) (lt : i < j) where
  abbrev exchanged : ℕ → ℕ
  exchanged = put (s + j) (memory (s + i)) (put (s + i) (memory (s + j)) memory)

  other : (a : ℕ) → a ≢ s + i → a ≢ s + j → exchanged a ≡ memory a
  other a ni nj = ground arith

  at_i : exchanged (s + i) ≡ memory (s + j)
  at_i = ground arith

  at_j : exchanged (s + j) ≡ memory (s + i)
  at_j = ground arith

  -- The ends are exchanged, and the bytes between them come into the reverse order.
  Swapped-exchanged :
      (new : ℕ → ℕ) → Swapped (i + 1) (j - 1) s exchanged new → Swapped i j s memory new
  Swapped-exchanged new rest = record {
    inside = λ k lo hi. elim (ℕ_discrete k i) [
      | yes e ↦
          ap (λ (x : ℕ). new (s + x)) e
          ∙ rest.outside (s + i) (inl (omega arith))
          ∙ at_i
          ∙ ap (λ (x : ℕ). memory (s + x)) (omega arith)
      | no ni ↦ elim (ℕ_discrete k j) [
        | yes e ↦
            ap (λ (x : ℕ). new (s + x)) e
            ∙ rest.outside (s + j) (inr (omega arith))
            ∙ at_j
            ∙ ap (λ (x : ℕ). memory (s + x)) (omega arith)
        | no nj ↦
            rest.inside k (omega arith) (omega arith)
            ∙ ap (λ (x : ℕ). exchanged (s + x)) (omega arith)
            ∙ other (s + (i + j - k)) (omega arith) (omega arith)
      ]
    ];
    outside = λ a out. rest.outside a (ground arith) ∙ other a (ground arith) (ground arith);
  }

swap_chars-Swapped :
    (fuel i j s : ℕ) (memory : ℕ → ℕ)
    → j ≤ i + 2 * fuel
    → Swapped i j s memory (swap_chars fuel i j s memory)
unfolding swap_chars
swap_chars-Swapped zero i j s memory enough = record {
  inside = λ k lo hi. ap (λ (x : ℕ). memory (s + x)) (omega arith);
  outside = λ a out. refl;
}
swap_chars-Swapped (suc fuel) i j s memory enough = elim (Bool-cases (ltb i j)) [
  | inr done ↦ rw done (record {
    inside = λ k lo hi. ap (λ (x : ℕ). memory (s + x)) (ground arith);
    outside = λ a out. refl;
  })
  | inl more ↦
      let lt : i < j = ground arith in
      rw more (
        Swapped-exchanged i j s memory lt
          (swap_chars fuel (i + 1) (j - 1) s (exchanged i j s memory lt))
          (swap_chars-Swapped fuel (i + 1) (j - 1) s (exchanged i j s memory lt) (omega arith)))
]

-- A text of `size` characters comes into the reverse order, with its end in place.
pub record Reversed (s size : ℕ) (old : ℕ → ℕ) (r : Outcome (ℕ → ℕ)) (new : ℕ → ℕ) : Type 0 where
  pub returns : r ≡ ok new
  pub inside : (k : ℕ) → k < size → new (s + k) ≡ old (s + (size - 1 - k))
  pub outside : (a : ℕ) → (a < s) ⊎ (s + size ≤ a) → new a ≡ old a

pub reverse-Reversed :
    (fuel s size : ℕ) (memory : ℕ → ℕ)
    → TextAt memory s size
    → 0 < size
    → size < fuel
    → (new : ℕ → ℕ) × Reversed s size memory (reverse fuel s memory) new
unfolding reverse strlen
reverse-Reversed fuel s size memory t pos enough =
    let swapped = swap_chars-Swapped size 0 (size - 1) s memory (omega arith) in
    (
      swap_chars size 0 (size - 1) s memory,
      record {
        returns = rw (length_from_lem fuel 0 s size memory t (omega arith) (omega arith)) refl;
        inside = λ k lt.
            swapped.inside k (omega arith) (omega arith)
            ∙ ap (λ (x : ℕ). memory (s + x)) (omega arith);
        outside = λ a out. swapped.outside a (ground arith);
      },
    )
