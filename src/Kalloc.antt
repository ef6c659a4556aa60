-- ===== src/Kalloc.antt =====
-- kernel/mm/alloc.c: the calls of `kmalloc`, which go to the allocator that is installed.
-- `A` is the allocator's state. `wants_phys` says whether the caller passed a place for the physical
-- address; the allocator returns the address, that physical address and its new state.
use shawn_os.Prelude.{ℕ, Bool, true, false, Option, Outcome, ◌>>=◌, bit_or}
use shawn_os.Paging.{installed}

pub record KallocInterface (A : Type 0) : Type 0 where
  pub malloc_real : Option (ℕ → Bool → ℕ → A → Outcome (ℕ × Option ℕ × A))
  pub free : Option (ℕ → A → Outcome A)

abbrev pub page_align : ℕ
page_align = 4

module _ {A : Type 0} (interface : KallocInterface A) where
  unfoldable pub kalloc_malloc : ℕ → Bool → ℕ → A → Outcome (ℕ × Option ℕ × A)
  kalloc_malloc size wants_phys flags s = do
    f ← installed interface.malloc_real
    f size wants_phys flags s

  unfoldable pub kmalloc_a : ℕ → ℕ → A → Outcome (ℕ × Option ℕ × A)
  kmalloc_a size flags s = do
    f ← installed interface.malloc_real
    f size false (bit_or flags page_align) s

  unfoldable pub kmalloc_p : ℕ → ℕ → A → Outcome (ℕ × Option ℕ × A)
  kmalloc_p size flags s = do f ← installed interface.malloc_real; f size true flags s

  unfoldable pub kmalloc_ap : ℕ → ℕ → A → Outcome (ℕ × Option ℕ × A)
  kmalloc_ap size flags s = do
    f ← installed interface.malloc_real
    f size true (bit_or flags page_align) s

  unfoldable pub kmalloc : ℕ → ℕ → A → Outcome (ℕ × Option ℕ × A)
  kmalloc size flags s = do f ← installed interface.malloc_real; f size false flags s

  unfoldable pub kfree : ℕ → A → Outcome A
  kfree addr s = do f ← installed interface.free; f addr s
