-- ===== src/Asa/Free.antt =====
-- `asa_free`: what its loop clears. It runs from the page of the address to `n_pages`, a count.
use shawn_os.Prelude.{
  ℕ, ◌-◌, ◌/◌, ◌≤◌, ◌<◌, ◌≡◌, ◌≢◌, refl, arith, ◌&&◌, ltb, leb, if◌then◌else◌, ok,
}
use native.Mathlib.Nat.{mul-div_cancel}
use native.Mathlib.Decide.{dec_lt}
use shawn_os.Kernel.{k_success}
use shawn_os.Bitset.Laws.{member}
use shawn_os.Bitset.Range.{clear_bits, without_bits, clear_bits-Filled, Filled, length-without_bits}
use shawn_os.Asa.{Kasa, asa_alloc, asa_free}
use shawn_os.Asa.Alloc.{IsValid, asa_alloc-Allocated, Granted-of_answer}

-- `asa_free(addr, n)` in a valid state succeeds, keeps the state valid, and clears exactly the
-- pages from that of `addr` up to, and not including, page number `n`; the page size stays.
pub asa_free_lem :
    (addr n : ℕ) (s : Kasa)
    → IsValid s
    → n ≤ s.pages.length
    → addr / s.page_size ≤ s.pages.length
    → (s' : Kasa) × (asa_free addr n s ≡ ok (k_success, s'))
      × IsValid s'
      × ((m : ℕ)
          → member s'.pages m
            ≡ (if leb (addr / s.page_size) m && ltb m n then 0 else member s.pages m))
      × (s'.page_size ≡ s.page_size)
      × (s'.pages.length ≡ s.pages.length)
unfolding asa_free
asa_free_lem addr n s v hn hs = (
  record s { pages = without_bits (n - start) start s.pages },
  rw cleared.returns refl,
  record {
    pages_valid = cleared.valid;
    addressed = rw (length-without_bits (n - start) start s.pages) v.addressed;
  },
  λ m. ground (arith, cleared.members m),
  refl,
  length-without_bits (n - start) start s.pages,
)
  where
    start : ℕ
    start = addr / s.page_size

    cleared :
        Filled s.pages 0
          (n - start)
          start
          (clear_bits (n - start) start s.pages)
          (without_bits (n - start) start s.pages)
    cleared = clear_bits-Filled (n - start) start s.pages v.pages_valid (omega arith)

-- Freeing pages that begin at or behind page number `n` frees nothing.
asa_free-keeps :
    (addr n : ℕ) (s : Kasa) → n ≤ addr / s.page_size → asa_free addr n s ≡ ok (k_success, s)
unfolding asa_free clear_bits
asa_free-keeps addr n s h = let e : n - addr / s.page_size ≡ 0 = omega arith in rw e refl

-- The pages below `r` are reserved, as `asa_init` leaves them.
abbrev pub ReservedBelow : ℕ → Kasa → Type 0
ReservedBelow r s = (i : ℕ) → i < r → member s.pages i ≡ 1

-- While the first `r` pages are reserved, an allocation of at most `r` pages is never given
-- back: `asa_free` on its address and size reports success and changes nothing.
pub asa_free_leaks :
    (r n a : ℕ) (s t : Kasa)
    → 0 < n
    → n ≤ r
    → 0 < s.page_size
    → IsValid s
    → ReservedBelow r s
    → asa_alloc n s ≡ ok (a, t)
    → a ≢ 0
    → asa_free a n t ≡ ok (k_success, t)
asa_free_leaks r n a s t pos small page v reserved e ne =
    let (f, af, g) = Granted-of_answer a t (asa_alloc-Allocated n s pos v) e ne in
    asa_free-keeps a n t (
      rw (g.same_page_size, af, mul-div_cancel f page)
        (behind f (g.was_free f (omega arith) (omega arith))))
  where
    behind : (f : ℕ) → member s.pages f ≡ 0 → n ≤ f
    behind f free = elim (dec_lt f r) [
      | yes low ↦ omega (arith, reserved f low)
      | no high ↦ omega arith
    ]
