-- ===== src/Heap/Serve.antt =====
-- A new block under a request: `kheap_malloc` takes the first sections behind the block's own.
use shawn_os.Prelude.{
  ℕ, zero, suc, ◌+◌, ◌-◌, ◌*◌, ◌/◌, ◌%◌, ◌^◌, ◌≤◌, ◌<◌, ◌≡◌, refl, arith, ltb, ◌==◌, ◌||◌,
  if◌then◌else◌, some, none, ok, true, false, inl, inr, Bool-cases, ap, ◌∙◌,
}
use native.Mathlib.Nat.{mod-eq_of_lt}
use shawn_os.Kernel.{add32, div_round_up}
use shawn_os.Bitset.{test_bit}
use shawn_os.Bitset.Laws.{test_bit-member}
use shawn_os.Heap.{Block}
use shawn_os.Heap.Sections.{search, try_block, max_free_space, sections_for}
use shawn_os.Heap.Sections.Take.{Taken, take_sections-Taken}
use shawn_os.Heap.Sections.Search.{round_free}
use shawn_os.Heap.Build.{IsFresh, reserved}

module _ (b : Block) (addr pages : ℕ) (fresh : IsFresh addr (4096 * pages) b) (pos : 0 < pages)
    (few : pages < 2 ^ 19) where
  abbrev r : ℕ
  r = reserved (4096 * pages)

  total : b.used_sections.length ≡ 256 * pages
  total = omega (arith, fresh.all_sections)

  reads_free : (m : ℕ) → r ≤ m → m < 256 * pages → test_bit b.used_sections m ≡ ok false
  reads_free m lo hi =
      ground (arith, test_bit-member b.used_sections m (omega (arith, total)), fresh.used m)

  -- The rounds of the search up to the request's last section.
  fresh_rounds :
      (n left k : ℕ)
      → (0 < n)
      → k < n
      → n ≤ k + left
      → r + n ≤ 256 * pages
      → search b n left k (if k == 0 then 0 else r) k ≡ ok (some r)
  fresh_rounds n zero k pn lt enough fits = absurd (omega arith)
  fresh_rounds n (suc left) k pn lt enough fits =
      let position : add32 b.first_free_section k ≡ r + k = omega (arith, fresh.first) in
      let index : add32 b.first_free_section k % b.used_sections.length ≡ r + k =
        ap (λ (t : ℕ). t % b.used_sections.length) position ∙ mod-eq_of_lt (omega (arith, total)) in
      let reads : test_bit b.used_sections (add32 b.first_free_section k % b.used_sections.length)
          ≡ ok false =
        rw index (reads_free (r + k) (omega arith) (omega arith)) in
      let not_back : ltb (r + k) (if k == 0 then 0 else r) ≡ false = ground arith in
      let begins : (if k == 0 then r + k else (if k == 0 then 0 else r)) ≡ r = ground arith in
      let up : add32 k 1 ≡ k + 1 = omega arith in
      rw
        (
          round_free b n fresh.valid.searchable pn left k (if k == 0 then 0 else r) k reads,
          index,
          not_back,
          begins,
          up,
        )
        (elim (Bool-cases (k + 1 == n)) [
          | inl done ↦ rw done refl
          | inr more ↦ rw more (
              ap (λ f. search b n left (k + 1) f (k + 1)) (ground arith)
              ∙ fresh_rounds n left (k + 1) pn (ground arith) (omega arith) fits)
        ])

  taken_from : r ≡ 4 * pages + 3
  taken_from = omega arith

  free_count : b.free_sections ≡ 252 * pages - 3
  free_count = omega (arith, fresh.free)

  space : max_free_space b ≡ 4032 * pages - 40
  space = omega (arith, total, fresh.valid.same_length, fresh.same_size)

  wanted : (size : ℕ) → 0 < size → size < 2 ^ 31 → sections_for b size ≡ (size + 15) / 16
  wanted size ps small = ap (λ (s : ℕ). div_round_up size s) fresh.section ∙ omega arith

  -- A request that fits behind the block's own sections is served by the first of them.
  pub fresh_serves :
      (size : ℕ)
      → 0 < size
      → size + 48 ≤ 4032 * pages
      → (b' : Block) × (try_block size b ≡ ok (some (r, b'))) × Taken b (sections_for b size) r b'
  unfolding try_block
  fresh_serves size ps fits =
      let n = wanted size ps (omega arith) in
      let goes : (ltb (max_free_space b) size || ltb b.free_sections (sections_for b size))
          ≡ false =
        ground (arith, n, space, free_count) in
      let pn : 0 < sections_for b size = omega (arith, n) in
      let inside : r + sections_for b size ≤ 256 * pages = omega (arith, n, taken_from) in
      let finds : search b (sections_for b size) b.used_sections.length 0 0 0 ≡ ok (some r) =
        fresh_rounds (sections_for b size) b.used_sections.length 0 pn pn (omega (arith, total))
          inside in
      let (b', e, t) =
        take_sections-Taken b r (sections_for b size) fresh.valid pn (omega (arith, n, free_count))
          (omega (arith, total)) (λ m lo hi. ground (arith, fresh.used m)) in
      (b', rw (goes, finds, e) refl, t)

  -- A request that does not fit passes the block.
  pub fresh_passes :
      (size : ℕ) → size < 2 ^ 31 → 4032 * pages < size + 48 → try_block size b ≡ ok none
  unfolding try_block
  fresh_passes size small short =
      let n = wanted size (omega arith) small in
      let skips : (ltb (max_free_space b) size || ltb b.free_sections (sections_for b size))
          ≡ true =
        ground (arith, n, space, free_count) in
      rw skips refl
