-- ===== src/Asa/Scan.antt =====
-- The search for free pages finds the lowest run, and finds one if there is one.
use shawn_os.Prelude.{
  ℕ, zero, suc, ◌+◌, ◌≤◌, ◌<◌, ◌≡◌, ◌≢◌, refl, arith, Option, none, some, ◌==◌, ==_iff,
  if◌then◌else◌, Outcome, ok, inl, inr, Bool-cases,
}
use native.Mathlib.Decide.{ℕ_discrete, dec_lt}
use shawn_os.Bitset.{Bitset}
use shawn_os.Bitset.Laws.{member, test_bit-cases}
use shawn_os.Asa.{scan}

-- The `n` pages from `f` on are free.
abbrev pub RunAt : Bitset → ℕ → ℕ → Type 0
RunAt b n f = (i : ℕ) → f ≤ i → i < f + n → member b i ≡ 0

-- What the search may answer: the lowest run, or nothing where there is none.
pub data FirstFit (b : Bitset) (n : ℕ) : Outcome (Option ℕ) → Type 0 where
  hit :
      (f : ℕ)
      → f + n ≤ b.length
      → RunAt b n f
      → ((g : ℕ) → g < f → ¬ RunAt b n g)
      → FirstFit b n (ok (some f))
  miss : ((g : ℕ) → g + n ≤ b.length → ¬ RunAt b n g) → FirstFit b n (ok none)

-- A run cannot start in front of a taken page that it reaches.
skip_taken :
    (b : Bitset) (n i s : ℕ)
    → i < s + n
    → member b i ≡ 1
    → ((g : ℕ) → g < s → ¬ RunAt b n g)
    → (g : ℕ) → g < i + 1
    → ¬ RunAt b n g
skip_taken b n i s near taken none_below g hg run = elim (dec_lt g s) [
  | yes below ↦ none_below g below run
  | no above ↦ omega (arith, run i (omega arith) (omega arith))
]

pub run_start :
    (cont i first s : ℕ)
    → s + cont ≡ i
    → (cont ≢ 0 → first ≡ s)
    → (if cont == 0 then i else first) ≡ s
run_start cont i first s es ef = grind arith

pub one_more :
    (b : Bitset) (s i : ℕ)
    → ((k : ℕ) → s ≤ k → k < i → member b k ≡ 0)
    → member b i ≡ 0
    → (k : ℕ) → s ≤ k
    → k < i + 1
    → member b k ≡ 0
one_more b s i free isfree k lo hi = elim (ℕ_discrete k i) [
  | yes e ↦ rw e isfree
  | no ne ↦ free k lo (omega arith)
]

module _ (b : Bitset) (n : ℕ) (pos : 0 < n) where
  -- `s` is the page at which the current run of free pages began.
  pub scan-FirstFit :
      (left i first cont s : ℕ)
      → i + left ≡ b.length
      → s + cont ≡ i
      → cont < n
      → (cont ≢ 0 → first ≡ s)
      → ((k : ℕ) → s ≤ k → k < i → member b k ≡ 0)
      → ((g : ℕ) → g < s → ¬ RunAt b n g)
      → FirstFit b n (scan b n left i first cont)
  unfolding scan
  scan-FirstFit zero i first cont s e es lt ef free none_below =
      miss λ g hg run. elim (dec_lt g s) [
        | yes below ↦ none_below g below run
        | no above ↦ omega arith
      ]
  scan-FirstFit (suc left) i first cont s e es lt ef free none_below =
      elim (test_bit-cases b i (omega arith)) [
        | inl (reads, taken) ↦ rw reads (
            scan-FirstFit left (i + 1) first 0 (i + 1) (omega arith) (omega arith) pos
              (λ ne. absurd (ne refl)) (λ k lo hi. omega arith)
              (skip_taken b n i s (omega arith) taken none_below))
        | inr (reads, isfree) ↦ rw reads (
            rw (run_start cont i first s es ef) (elim (Bool-cases (cont + 1 == n)) [
              | inl done ↦ rw done (
                  hit s (omega (arith, (==_iff (cont + 1) n).0 done))
                    (λ k lo hi.
                      one_more b s i free isfree k lo (omega (arith, (==_iff (cont + 1) n).0 done)))
                    none_below)
              | inr more ↦ rw more (
                  scan-FirstFit left (i + 1) s (cont + 1) s (omega arith) (omega arith)
                    (ground arith) (λ _. refl) (one_more b s i free isfree) none_below)
            ]))
      ]
