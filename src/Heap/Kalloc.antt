-- ===== src/Heap/Kalloc.antt =====
-- The kernel heap as the allocator behind `kmalloc`: `kheap_kalloc_install` and the wrappers of
-- kernel/mm/heap.c, called through kernel/mm/alloc.c.
use shawn_os.Prelude.{
  ℕ, suc, ◌+◌, ◌*◌, ◌^◌, ◌≤◌, ◌<◌, ◌≡◌, refl, Bool, true, not, ◌==◌, List, [], ◌∷◌, ◌++◌, Option,
  none, some, Outcome, ok, abort, ◌>>=◌, ◌>>◌, assert, bit_and, if◌then◌else◌, ◌⊎◌, sym,
}
use mathlib.Core.Path.{subst}
use shawn_os.Kernel.{max32, k_failed}
use shawn_os.Asa.{Kasa}
use shawn_os.Paging.{PagingInterface}
use shawn_os.Kalloc.{KallocInterface, kmalloc}
use shawn_os.Heap.{
  Block, Heap, kheap_init, section_size_default, min_block_size_default, kheap_auto_expand,
}
use shawn_os.Heap.Malloc.{Malloced, kheap_free, kalloc_malloc_real}
use shawn_os.Heap.Sections.Take.{Taken}
use shawn_os.Heap.Build.{IsMemory}
use shawn_os.Heap.Pages.{pages_needed}
use shawn_os.Heap.Mapping.{PagingLaws}
use shawn_os.Heap.Place.{Placed, request}
use shawn_os.Heap.Sound.{Sound}
use shawn_os.Heap.Allocate.{kheap_malloc-Allotted}
use shawn_os.Heap.Allotted.{Allotted, allotted, out_of_memory}

-- `__kheap_kalloc_free`: whether the address was freed is not looked at.
unfoldable pub kalloc_free : ℕ → Heap → Outcome Heap
kalloc_free addr heap = do r ← kheap_free heap addr; ok r.1

-- What the installed allocator works on: `kheap_default`, the address space and the paging system.
pub record Memory (P : Type 0) : Type 0 where
  pub heap : Heap
  pub asa : Kasa
  pub paging : P

module _ {P : Type 0} (interface : PagingInterface P) (page_size : ℕ) (contents : ℕ → ℕ → List ℕ)
    (fuel : ℕ) where
  unfoldable pub malloc_real : ℕ → Bool → ℕ → Memory P → Outcome (ℕ × Option ℕ × Memory P)
  malloc_real size wants_phys flags s =
      kalloc_malloc_real interface page_size contents fuel size wants_phys flags s.heap s.asa
        s.paging
      >>= λ (r, phys). elim r.out [
        | none ↦ abort
        | some res ↦ ok (res, phys, record { heap = r.heap; asa = r.asa; paging = r.paging })
      ]

  -- `kheap_kalloc_install`: the heap it starts with, and the functions it installs.
  unfoldable pub kheap_kalloc_install : Heap × KallocInterface (Memory P)
  kheap_kalloc_install = (
    kheap_init section_size_default min_block_size_default kheap_auto_expand,
    record {
      malloc_real = some malloc_real;
      free = some (λ addr s. kalloc_free addr s.heap >>= λ heap. ok (record s { heap = heap }));
    },
  )

-- `KALLOC_PAGE_ALIGN`
abbrev pub align_for : ℕ → ℕ
align_for flags = if bit_and flags 4 == 0 then 0 else 4096

module _ {P : Type 0} (interface : PagingInterface P) (laws : PagingLaws interface)
    (contents : ℕ → ℕ → List ℕ) where
  -- What a caller of `kmalloc` sees: memory of its own, or a kernel that has stopped, since the
  -- heap is out of memory.
  pub data Kmalloced (size align : ℕ) (s : Memory P)
      : Outcome (ℕ × Option ℕ × Memory P) → Type 0 where
    given :
        (out : ℕ) (s' : Memory P) (before after : List Block) (b b' : Block) (n f : ℕ)
        → Taken b n f b'
        → Placed b n f size align out
        → (s.heap.blocks ≡ before ++ b ∷ after) ⊎ ((before ≡ []) × (s.heap.blocks ≡ after))
        → s'.heap.blocks ≡ before ++ b' ∷ after
        → Sound interface laws s'.heap s'.asa s'.paging
        → Kmalloced size align s (ok (out, none, s'))
    panic :
        (m : Malloced P)
        → k_failed m.code ≡ true
        → Allotted interface laws contents size align s.heap s.asa s.paging (ok m)
        → Kmalloced size align s abort

  -- The wrapper of `kheap_malloc` without a physical address.
  seen :
      (size align : ℕ) (s : Memory P) {r : Outcome (Malloced P)}
      → Allotted interface laws contents size align s.heap s.asa s.paging r
      → Kmalloced size align s (
          (r >>= λ m.
          assert (not (k_failed m.code))
          >> elim m.out [ none ↦ ok (m, none) | some res ↦ ok (m, none) ])
          >>= λ (m, phys). elim m.out [
            | none ↦ abort
            | some res ↦ ok (res, phys, record { heap = m.heap; asa = m.asa; paging = m.paging })
          ])
  seen size align s (allotted m before after b b' n f out code at t placed from blocks sound) =
      rw (at, code, at)
        (given out (record { heap = m.heap; asa = m.asa; paging = m.paging }) before after b b' n f
          t placed from blocks sound)
  seen size align s (out_of_memory e all expands oom same sound) =
      let failed : k_failed e.code ≡ true = rw oom refl in
      subst (Kmalloced size align s) (sym (rw oom refl))
        (panic _ failed (out_of_memory e all expands oom same sound))

  module _ (memory : IsMemory contents) where
    -- `kmalloc` once `kheap_kalloc_install` has run, over any paging system that keeps what
    -- `PagingLaws` says, for 1 byte or more, with size and alignment together at most 1 GiB, on a
    -- sound heap of which the smallest block size is at most 1 GiB, where a new block has room for
    -- the request: the call either gives memory of its own, which is aligned to a page if the flags
    -- ask for it, or it is a `PANIC`, since the heap is out of memory.
    pub kmalloc_lem :
        (fuel size flags : ℕ) (s : Memory P)
        → 0 < size
        → size + align_for flags ≤ 2 ^ 30
        → Sound interface laws s.heap s.asa s.paging
        → s.heap.min_block_size ≤ 2 ^ 30
        → request size (align_for flags) + 48
          ≤ 4032 * pages_needed (max32 s.heap.min_block_size (request size (align_for flags)))
        → Kmalloced size
            (align_for flags)
            s
            (kmalloc (kheap_kalloc_install interface 4096 contents (suc (suc fuel))).1 size flags s)
    unfolding kmalloc kheap_kalloc_install malloc_real kalloc_malloc_real
    kmalloc_lem fuel size flags s pos small v min fits = seen size (align_for flags) s (
        kheap_malloc-Allotted interface laws contents memory size (align_for flags) pos small fuel
          s.heap s.asa s.paging v min fits)
