-- ===== src/Heap/Pages.antt =====
-- The loop of `kheap_expand` in kernel/mm/heap.c that finds the number of pages of a new block, for
-- pages of 4096 bytes. The bitset size that it tests with lags one page behind.
use shawn_os.Prelude.{
  ℕ, zero, suc, ◌+◌, ◌-◌, ◌*◌, ◌/◌, ◌^◌, ◌≤◌, ◌<◌, ◌≡◌, arith, ltb, leb, if◌then◌else◌, ok, inl,
  inr, Bool-cases, ap, ◌∙◌,
}
use shawn_os.Kernel.{add32, sub32, mul32, div_round_up}
use shawn_os.Heap.{header_size, section_size_default}
use shawn_os.Heap.Malloc.{pages_for}

-- The pages that `size` bytes fill, and those of which all but one have their bitsets paid for.
abbrev pub pages_filled : ℕ → ℕ
pages_filled size = (size + 4095) / 4096

abbrev pub pages_paid : ℕ → ℕ
pages_paid size = (size - 24 + 4031) / 4032

-- The number of pages that the loop ends with.
abbrev needed_from : ℕ → ℕ → ℕ
needed_from p size =
    if leb (size + 40) (4032 * p)
    then p
    else if leb (pages_paid size) (p + 1)
    then p + 1
    else pages_paid size

abbrev pub pages_needed : ℕ → ℕ
pages_needed size = needed_from (pages_filled size) size

-- The bitset size in bytes for a block of `pages` pages.
abbrev pub bitset_of : ℕ → ℕ
bitset_of pages = mul32 (div_round_up (mul32 pages 4096) (section_size_default * 32)) 4

bitset_of_lem : (pages : ℕ) → 0 < pages → pages < 2 ^ 19 → bitset_of pages ≡ 32 * pages
bitset_of_lem pages pos small = omega arith

-- What is left of `pages` pages beside the header and two bitsets, for `paid` pages.
room :
    (pages paid : ℕ)
    → 0 < pages
    → pages < 2 ^ 19
    → paid ≤ pages
    → sub32 (sub32 (mul32 pages 4096) header_size) (mul32 (32 * paid) 2)
      ≡ 4096 * pages - 40 - 64 * paid
room pages paid pos small le = omega arith

-- The rounds once a page was added.
rounds :
    (fuel size p : ℕ)
    → 0 < fuel
    → 0 < p
    → size ≤ 2 ^ 30
    → p < 2 ^ 18 + 2 ^ 17
    → pages_paid size ≤ fuel + p
    → pages_for fuel 4096 size (p + 1) (32 * p)
      ≡ ok (if leb (pages_paid size) (p + 1) then p + 1 else pages_paid size)
unfolding pages_for
rounds zero size p go pos small few enough = absurd (omega arith)
rounds (suc fuel) size p go pos small few enough =
    let left = room (p + 1) p (omega arith) (omega arith) (omega arith) in
    let bits = bitset_of_lem (p + 1) (omega arith) (omega arith) in
    let next : add32 (p + 1) 1 ≡ p + 1 + 1 = omega arith in
    elim (Bool-cases (ltb (4096 * (p + 1) - 40 - 64 * p) size)) [
      | inl short ↦
          let more : p + 1 < pages_paid size = ground arith in
          rw (left, short, bits, next)
            (rounds fuel size (p + 1) (omega arith) (omega arith) small (omega arith) (omega arith)
              ∙ ap ok (ground arith))
      | inr full ↦
          let done : pages_paid size ≤ p + 1 = ground arith in
          rw (left, full) (ap ok (ground arith))
    ]

-- For a request of 1 byte to 1 GiB, the loop of `kheap_expand` ends within the fuel, one round more
-- than the pages that the request fills and one, and in closed form: with the pages that the request fills if these
-- hold the header and both bitsets too, else with the fewest pages, more than those, that hold the request, the header
-- and the bitsets of all pages but one.
pub pages_for_lem :
    (size : ℕ)
    → 0 < size
    → size ≤ 2 ^ 30
    → pages_for
        (div_round_up size 4096 + 2)
        4096
        size
        (div_round_up size 4096)
        (bitset_of (div_round_up size 4096))
      ≡ ok (pages_needed size)
unfolding pages_for
pages_for_lem size pos small =
    let fills : div_round_up size 4096 ≡ pages_filled size = omega arith in
    rw fills (first (pages_filled size) (omega arith) (omega arith) (omega arith))
  where
    first :
        (p : ℕ)
        → 0 < p
        → size ≤ 4096 * p
        → 4096 * p < size + 4096
        → pages_for (p + 2) 4096 size p (bitset_of p) ≡ ok (needed_from p size)
    first p some ge lt =
        let fuel : p + 2 ≡ suc (p + 1) = omega arith in
        let bits = bitset_of_lem p some (omega arith) in
        let left = room p p some (omega arith) (omega arith) in
        let next : add32 p 1 ≡ p + 1 = omega arith in
        elim (Bool-cases (ltb (4096 * p - 40 - 64 * p) size)) [
          | inl short ↦
              rw (fuel, bits, left, short, next)
                (rounds (p + 1) size p (omega arith) some small (omega arith) (omega arith)
                  ∙ ap ok (ground arith))
          | inr full ↦ rw (fuel, bits, left, full) (ap ok (ground arith))
        ]
