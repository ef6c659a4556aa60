-- ===== src/Asa.antt =====
-- kernel/mm/asa.c: the allocator of pages in the kernel's address space.
-- `kasa_data` is the record `Kasa`; a function returns it beside its result. The loop counters
-- stay at most the length of the bitset, which is a `uint32_t`, so they do not wrap.
pub mod Scan
pub mod Alloc
pub mod Free
pub mod Init
mod Tests
use shawn_os.Prelude.{
  ℕ, zero, suc, ◌+◌, ◌-◌, ◌/◌, ◌*◌, ◌<◌, Bool, true, false, ◌&&◌, not, List, Option, none, some,
  ltb, ◌==◌, if◌then◌else◌, Outcome, ok, abort, ◌>>=◌, ◌>>◌, assert,
}
use shawn_os.Kernel.{mul32, div_round_up, k_success, k_oom, kvirt_max, kvirt_reserved}
use shawn_os.Bitset
use shawn_os.Bitset.{Bitset, test_bit}
use shawn_os.Bitset.Range.{set_bits, clear_bits}

-- `kasa_data_t`
pub record Kasa : Type 0 where
  pub pages : Bitset
  pub page_size : ℕ

-- The search of `asa_alloc` at page `i`, with `left` pages to go: the first page of the run of
-- `n_pages` free pages that it completes, if it does.
unfoldable pub scan : Bitset → ℕ → ℕ → ℕ → ℕ → ℕ → Outcome (Option ℕ)
scan pages n_pages zero i first_free continuous = ok none
scan pages n_pages (suc left) i first_free continuous = do
  taken ← test_bit pages i
  let first' = if not taken && continuous == 0 then i else first_free
  let continuous' = if taken then 0 else continuous + 1
  let rest = scan pages n_pages left (i + 1) first' continuous'
  if not taken && continuous' == n_pages then ok (some first') else rest

-- The address 0 is `NULL`.
unfoldable pub asa_alloc : ℕ → Kasa → Outcome (ℕ × Kasa)
unfolding scan
asa_alloc n_pages s = do
  found ← scan s.pages n_pages s.pages.length 0 0 0
  elim found [
    | none ↦ ok (0, s)
    | some first_free ↦ set_bits n_pages first_free s.pages >>= λ pages.
        ok (mul32 first_free s.page_size, record s { pages = pages })
  ]

-- The loop runs while `i < n_pages`, from the page of the address.
unfoldable pub asa_free : ℕ → ℕ → Kasa → Outcome (ℕ × Kasa)
asa_free addr n_pages s = do
  let start = addr / s.page_size
  pages ← clear_bits (n_pages - start) start s.pages
  ok (k_success, record s { pages = pages })

-- `kmalloc(size, flags)` grants the words at the address that it returns, or returns `NULL`.
unfoldable pub asa_init : (ℕ → Option (List ℕ)) → ℕ → Kasa → Outcome (ℕ × Kasa)
asa_init kmalloc page_size s =
    let s' = record s { page_size = page_size } in
    let n_entries = kvirt_max / page_size in
    let size = mul32 (div_round_up n_entries 32) 4 in
    elim (kmalloc size) [
      | none ↦ ok (k_oom, s')
      | some bitset_start ↦
          set_bits (kvirt_reserved / page_size) 0 (Bitset.init bitset_start n_entries) >>= λ pages.
          ok (k_success, record s' { pages = pages })
    ]
