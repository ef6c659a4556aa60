-- ===== src/Asa/Alloc.antt =====
-- `asa_alloc`: which pages it reserves, when it fails, and that two allocations are disjoint.
use shawn_os.Prelude.{
  ◌≢◌, inl, inr, ◌⊎◌, ℕ, ◌+◌, ◌*◌, ◌^◌, ◌≤◌, ◌<◌, ◌≡◌, refl, arith, ◌&&◌, Option, none, some, ltb,
  leb, if◌then◌else◌, Outcome, ok, ◌>>=◌,
}
use native.Mathlib.Nat.{mod-eq_of_lt, add-mul, mul-le-mul_right}
use native.Mathlib.Decide.{dec_lt}
use mathlib.Core.Path.{subst}
use shawn_os.Kernel.{mul32}
use shawn_os.Bitset.Laws.{member}
use shawn_os.Bitset.Laws
use shawn_os.Bitset.Range.{set_bits, with_bits, set_bits-Filled, length-with_bits}
use shawn_os.Asa.{Kasa, asa_alloc}
use shawn_os.Asa.Scan.{RunAt, FirstFit, hit, miss, scan-FirstFit}

-- The bitset is valid, and every page of it has an address.
pub record IsValid (s : Kasa) : Type 0 where
  pub pages_valid : Laws.IsValid s.pages
  pub addressed : s.pages.length * s.page_size < 2 ^ 32

-- The pages `f` to `f + n` were free, are the lowest such run, and alone are taken in `s'`.
pub record Granted (s : Kasa) (n f : ℕ) (s' : Kasa) : Type 0 where
  pub inside : f + n ≤ s.pages.length
  pub was_free : RunAt s.pages n f
  pub lowest : (g : ℕ) → g < f → ¬ RunAt s.pages n g
  pub valid : IsValid s'
  pub same_page_size : s'.page_size ≡ s.page_size
  pub same_length : s'.pages.length ≡ s.pages.length
  pub members :
      (m : ℕ) → member s'.pages m ≡ (if leb f m && ltb m (f + n) then 1 else member s.pages m)

abbrev pub taken_from : Kasa → ℕ → ℕ → Kasa
taken_from s n f = record s { pages = with_bits n f s.pages }

pub data Allocated (s : Kasa) (n : ℕ) : Outcome (ℕ × Kasa) → Type 0 where
  granted : (f : ℕ) (s' : Kasa) → Granted s n f s' → Allocated s n (ok (f * s.page_size, s'))
  refused : ((g : ℕ) → g + n ≤ s.pages.length → ¬ RunAt s.pages n g) → Allocated s n (ok (0, s))

abbrev answer : Kasa → ℕ → Option ℕ → Outcome (ℕ × Kasa)
answer s n found = elim found [
  | none ↦ ok (0, s)
  | some first_free ↦ set_bits n first_free s.pages >>= λ pages.
      ok (mul32 first_free s.page_size, record s { pages = pages })
]

page_address : (s : Kasa) (f n : ℕ) → IsValid s → f + n ≤ s.pages.length → f * s.page_size < 2 ^ 32
page_address s f n v h = grind (arith, v.addressed)

answer-Allocated :
    (s : Kasa) (n : ℕ) {r : Outcome (Option ℕ)}
    → IsValid s
    → FirstFit s.pages n r
    → Allocated s n (r >>= answer s n)
answer-Allocated s n v (miss none_fits) = refused none_fits
answer-Allocated s n v (hit f fits free lowest) =
    let marked = set_bits-Filled n f s.pages v.pages_valid fits in
    let same = length-with_bits n f s.pages in
    rw marked.returns (
      rw (mod-eq_of_lt (page_address s f n v fits)) (
        granted f (taken_from s n f) (record {
          inside = fits;
          was_free = free;
          lowest = lowest;
          valid = record { pages_valid = marked.valid; addressed = rw same v.addressed };
          same_page_size = refl;
          same_length = same;
          members = marked.members;
        })))

-- `asa_alloc` of at least one page, in a valid state, always returns. Either it reserves the
-- lowest run of that many free pages, returns its address, and leaves all other pages as they
-- were and the state valid; or it returns `NULL`, changes nothing, and no such run exists.
pub asa_alloc-Allocated : (n : ℕ) (s : Kasa) → 0 < n → IsValid s → Allocated s n (asa_alloc n s)
unfolding asa_alloc
asa_alloc-Allocated n s pos v = answer-Allocated s n v (
    scan-FirstFit s.pages n pos s.pages.length 0 0 0 0 (omega arith) (omega arith) pos
      (λ ne. absurd (ne refl)) (λ k lo hi. absurd (omega arith)) (λ g hg. absurd (omega arith)))

-- An answer that is no `NULL` is the address of pages that were granted.
pub Granted-of_answer :
    {s : Kasa} {n : ℕ} {r : Outcome (ℕ × Kasa)} (a : ℕ) (s' : Kasa)
    → Allocated s n r
    → r ≡ ok (a, s')
    → a ≢ 0
    → (f : ℕ) × (a ≡ f * s.page_size) × Granted s n f s'
Granted-of_answer {s} {n} a s' (granted f t g) e ne = (f, cc, subst (Granted s n f) (cc) g)
Granted-of_answer a s' (refused none_fits) e ne = absurd (ne (cc))

disjoint_runs :
    (s t u : Kasa) (n m f g : ℕ)
    → 0 < n
    → 0 < m
    → Granted s n f t
    → Granted t m g u
    → (f + n ≤ g) ⊎ (g + m ≤ f)
disjoint_runs s t u n m f g hn hm first second = elim (dec_lt g f) [
  | yes lt ↦ elim (dec_lt f (g + m)) [
    | yes meets ↦
        absurd (taken f (omega arith) (omega arith) (second.was_free f (omega arith) meets))
    | no apart ↦ inr (omega arith)
  ]
  | no ge ↦ elim (dec_lt g (f + n)) [
    | yes meets ↦
        absurd (taken g (omega arith) meets (second.was_free g (omega arith) (omega arith)))
    | no apart ↦ inl (omega arith)
  ]
]
  where
    taken : (i : ℕ) → f ≤ i → i < f + n → member t.pages i ≢ 0
    taken i lo hi = ground (arith, first.members i)

-- Two allocations in a row, both successful, never overlap: the bytes of one end before those of
-- the other begin.
pub asa_alloc_disjoint :
    (n m a b : ℕ) (s t u : Kasa)
    → 0 < n
    → 0 < m
    → IsValid s
    → asa_alloc n s ≡ ok (a, t)
    → a ≢ 0
    → asa_alloc m t ≡ ok (b, u)
    → b ≢ 0
    → (a + n * s.page_size ≤ b) ⊎ (b + m * s.page_size ≤ a)
asa_alloc_disjoint n m a b s t u hn hm v ea na eb nb =
    let (f, af, first) = Granted-of_answer a t (asa_alloc-Allocated n s hn v) ea na in
    let (g, bg, second) = Granted-of_answer b u (asa_alloc-Allocated m t hm first.valid) eb nb in
    elim (disjoint_runs s t u n m f g hn hm first second) [
      | inl h ↦ inl (rw (af, bg, first.same_page_size) (scaled f n g s.page_size h))
      | inr h ↦ inr (rw (af, bg, first.same_page_size) (scaled g m f s.page_size h))
    ]
  where
    scaled : (x n y p : ℕ) → x + n ≤ y → x * p + n * p ≤ y * p
    scaled x n y p h = rw (← add-mul x n p) (mul-le-mul_right p h)
