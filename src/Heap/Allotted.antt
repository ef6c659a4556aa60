-- ===== src/Heap/Allotted.antt =====
-- How `kheap_malloc` of kernel/mm/heap.c may end, and the answer where a block serves.
use shawn_os.Prelude.{
  ℕ, ◌+◌, ◌^◌, ◌≤◌, ◌<◌, ◌≡◌, refl, arith, List, [], ◌∷◌, ◌++◌, All, none, some, Outcome, ok, ◌⊎◌,
}
use shawn_os.Kernel.{sub32, max32, k_oom, k_success}
use shawn_os.Asa.{Kasa}
use shawn_os.Paging.{PagingInterface}
use shawn_os.Heap.{Block, Heap}
use shawn_os.Heap.Sections.{try_block, sections_for}
use shawn_os.Heap.Sections.Take.{Taken}
use shawn_os.Heap.Malloc.{Expanded, Malloced, place, kheap_expand}
use shawn_os.Heap.Mapping.{PagingLaws}
use shawn_os.Heap.Blocks.{InHeap}
use shawn_os.Heap.Place.{Placed, manual, request, place-Placed}
use shawn_os.Heap.Sound.{Sound, swap-Sound}

module _ {P : Type 0} (interface : PagingInterface P) (laws : PagingLaws interface)
    (contents : ℕ → ℕ → List ℕ) where
  -- How `kheap_malloc` may end: `size` bytes at `out`, in sections that were free in a block that
  -- the heap had or that is new, or no memory, since no block serves and the heap cannot grow.
  pub data Allotted (size align : ℕ) (heap : Heap) (asa : Kasa) (p : P)
      : Outcome (Malloced P) → Type 0 where
    allotted :
        (m : Malloced P) (before after : List Block) (b b' : Block) (n f out : ℕ)
        → m.code ≡ k_success
        → m.out ≡ some out
        → Taken b n f b'
        → Placed b n f size align out
        → (heap.blocks ≡ before ++ b ∷ after) ⊎ ((before ≡ []) × (heap.blocks ≡ after))
        → m.heap.blocks ≡ before ++ b' ∷ after
        → Sound interface laws m.heap m.asa m.paging
        → Allotted size align heap asa p (ok m)
    out_of_memory :
        (e : Expanded P)
        → All (λ b. try_block (request size align) b ≡ ok none) heap.blocks
        → kheap_expand interface 4096 contents
            (max32 heap.min_block_size (request size align))
            heap
            asa
            p
          ≡ ok e
        → e.code ≡ k_oom
        → e.heap ≡ heap
        → Sound interface laws heap e.asa e.paging
        → Allotted size align heap asa p (
            ok
              (record { code = e.code; out = none; heap = e.heap; asa = e.asa; paging = e.paging }))

module _ {P : Type 0} (interface : PagingInterface P) (laws : PagingLaws interface)
    (contents : ℕ → ℕ → List ℕ) (size align : ℕ) (pos : 0 < size)
    (small : size + align ≤ 2 ^ 30) where
  abbrev pub wanted : ℕ
  wanted = request size align

  pub wanted-le : (0 < wanted) × (wanted ≤ 2 ^ 30)
  wanted-le = ground arith

  -- The answer with the sections that block `b` gives.
  abbrev pub answer : Heap → Kasa → P → List Block → List Block → Block → Block → ℕ → Malloced P
  answer heap asa p before after b b' f = record {
    code = k_success;
    out = some (
        place
          (record {
            start = b.start;
            section_size = b.section_size;
            first_free = f;
            n_sec = sections_for b wanted;
            blocks = before ++ b' ∷ after;
          })
          align (manual align));
    heap = record heap {
      blocks = before ++ b' ∷ after;
      total_free_sections = sub32 heap.total_free_sections (sections_for b wanted);
    };
    asa = asa;
    paging = p;
  }

  -- A block serves the request: one that the heap `old` had, or one that is new in `heap`.
  pub serves :
      (old heap : Heap) (asa old_asa : Kasa) (p old_p : P) (before after : List Block)
      (b b' : Block) (f : ℕ)
      → Sound interface laws heap asa p
      → heap.blocks ≡ before ++ b ∷ after
      → InHeap b
      → Taken b (sections_for b wanted) f b'
      → (old.blocks ≡ before ++ b ∷ after) ⊎ ((before ≡ []) × (old.blocks ≡ after))
      → Allotted interface laws contents size align old old_asa old_p
          (ok (answer heap asa p before after b b' f))
  serves old heap asa old_asa p old_p before after b b' f v at h t from =
      allotted (answer heap asa p before after b b' f) before after b b' (sections_for b wanted) f
        (place
          (record {
            start = b.start;
            section_size = b.section_size;
            first_free = f;
            n_sec = sections_for b wanted;
            blocks = before ++ b' ∷ after;
          })
          align (manual align))
        refl refl t
        (place-Placed b b' (sections_for b wanted) f size align h t pos small refl
          (before ++ b' ∷ after))
        from refl
        (swap-Sound interface laws b b' (sections_for b wanted) f t before after heap asa p at h v)
