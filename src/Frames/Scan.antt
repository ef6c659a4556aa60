-- ===== src/Frames/Scan.antt =====
-- `i386_mem_get_next_free_frame` finds the lowest free frame of the words that it reads.
use shawn_os.Prelude.{
  ℕ, zero, suc, ◌+◌, ◌*◌, ◌/◌, ◌%◌, ◌^◌, ◌≤◌, ◌<◌, bit_and, ◌≡◌, refl, arith, Option, none, some,
  ◌==◌, ==_iff, get_or, true, false, inl, inr, Bool-cases, ap,
}
use native.Mathlib.Decide.{ℕ_discrete, dec_lt}
use shawn_os.Bits.{bit, bit-lt-two, bit_and-two_pow, two-pow-pos, bit-ones}
use shawn_os.Bitset.{Bitset}
use shawn_os.Bitset.Laws.{member}
use shawn_os.Frames.{first_clear, next_free}

-- What the search below `limit` may answer; 0 says that no frame is free.
pub data Lowest (b : Bitset) (limit : ℕ) : ℕ → Type 0 where
  found :
      (f : ℕ) → f < limit → member b f ≡ 0 → ((g : ℕ) → g < f → member b g ≡ 1) → Lowest b limit f
  full : ((g : ℕ) → g < limit → member b g ≡ 1) → Lowest b limit 0

data LowestBit (w j : ℕ) : Option ℕ → Type 0 where
  clear_at :
      (k : ℕ)
      → k < 32
      → bit w k ≡ 0
      → ((i : ℕ) → j ≤ i → i < k → bit w i ≡ 1)
      → LowestBit w j (some k)
  all_set : ((i : ℕ) → j ≤ i → i < 32 → bit w i ≡ 1) → LowestBit w j none

also_here :
    (w j k : ℕ)
    → bit w j ≡ 1
    → ((i : ℕ) → j + 1 ≤ i → i < k → bit w i ≡ 1)
    → (i : ℕ) → j ≤ i
    → i < k
    → bit w i ≡ 1
also_here w j k here above i lo hi = elim (ℕ_discrete i j) [
  | yes e ↦ rw e here
  | no ne ↦ above i (omega arith) hi
]

widen : (w j : ℕ) {r : Option ℕ} → bit w j ≡ 1 → LowestBit w (j + 1) r → LowestBit w j r
widen w j here (clear_at k hk clear above) = clear_at k hk clear (also_here w j k here above)
widen w j here (all_set above) = all_set (also_here w j 32 here above)

first_clear-LowestBit : (left j w : ℕ) → j + left ≡ 32 → LowestBit w j (first_clear left j w)
unfolding first_clear
first_clear-LowestBit zero j w e = all_set (λ i lo hi. absurd (omega arith))
first_clear-LowestBit (suc left) j w e = elim (ℕ_discrete (bit w j) 0) [
  | yes clear ↦
      let test : (bit_and w (2 ^ j) == 0) ≡ true =
        ground (arith, bit_and-two_pow j w, ap (λ (t : ℕ). t * 2 ^ j) clear) in
      rw test (clear_at j (omega arith) clear (λ i lo hi. absurd (omega arith)))
  | no set ↦
      let one : bit w j ≡ 1 = omega (arith, bit-lt-two w j) in
      let test : (bit_and w (2 ^ j) == 0) ≡ false =
        ground (arith, bit_and-two_pow j w, two-pow-pos j, ap (λ (t : ℕ). t * 2 ^ j) one) in
      rw test (widen w j one (first_clear-LowestBit left (j + 1) w (omega arith)))
]

-- The bits of word `i` are the frames from `32 * i` on.
member_in_word :
    (b : Bitset) (i g : ℕ) → g / 32 ≡ i → member b g ≡ bit (get_or b.start i 0) (g % 32)
unfolding member
member_in_word b i g e = rw e refl

module _ (b : Bitset) where
  past_word :
      (i : ℕ)
      → ((g : ℕ) → g < 32 * i → member b g ≡ 1)
      → ((k : ℕ) → k < 32 → bit (get_or b.start i 0) k ≡ 1)
      → (g : ℕ) → g < 32 * (i + 1)
      → member b g ≡ 1
  past_word i below word g hg = elim (dec_lt g (32 * i)) [
    | yes lt ↦ below g lt
    | no ge ↦ rw (member_in_word b i g (omega arith)) (word (g % 32) (omega arith))
  ]

  at_word :
      (i k count : ℕ)
      → i < count
      → k < 32
      → ((g : ℕ) → g < 32 * i → member b g ≡ 1)
      → bit (get_or b.start i 0) k ≡ 0
      → ((j : ℕ) → 0 ≤ j → j < k → bit (get_or b.start i 0) j ≡ 1)
      → Lowest b (32 * count) (i * 32 + k)
  at_word i k count hi hk below clear above =
      found (i * 32 + k) (omega arith)
        (rw (member_in_word b i (i * 32 + k) (omega arith)) (rw same clear))
        λ g hg. elim (dec_lt g (32 * i)) [
          | yes lt ↦ below g lt
          | no ge ↦
              rw (member_in_word b i g (omega arith)) (above (g % 32) (omega arith) (omega arith))
        ]
    where
      same : (i * 32 + k) % 32 ≡ k
      same = omega arith

  pub next_free-Lowest :
      (left i count : ℕ)
      → i + left ≡ count
      → ((g : ℕ) → g < 32 * i → member b g ≡ 1)
      → Lowest b (32 * count) (next_free left i b)
  unfolding next_free
  next_free-Lowest zero i count e below = full (λ g hg. below g (omega arith))
  next_free-Lowest (suc left) i count e below =
      elim (Bool-cases (get_or b.start i 0 == 0xffff_ffff)) [
        | inl ones ↦ rw ones (
            next_free-Lowest left (i + 1) count (omega arith) (
              past_word i below
                λ k hk. rw ((==_iff (get_or b.start i 0) 0xffff_ffff).0 ones) (bit-ones 32 k hk)))
        | inr some_clear ↦ rw some_clear (
            in_word (first_clear-LowestBit 32 0 (get_or b.start i 0) refl)
              (λ all. next_free-Lowest left (i + 1) count (omega arith) (past_word i below all)))
      ]
    where
      in_word :
          {r : Option ℕ}
          → LowestBit (get_or b.start i 0) 0 r
          → (((k : ℕ) → k < 32 → bit (get_or b.start i 0) k ≡ 1)
              → Lowest b (32 * count) (next_free left (i + 1) b))
          → Lowest b (32 * count) (elim r [ none ↦ next_free left (i + 1) b | some j ↦ i * 32 + j ])
      in_word (clear_at k hk clear above) go_on =
          at_word i k count (omega arith) hk below clear above
      in_word (all_set all) go_on = go_on (λ k hk. all k (omega arith) hk)
