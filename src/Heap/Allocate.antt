-- ===== src/Heap/Allocate.antt =====
-- `kheap_malloc` of kernel/mm/heap.c on a whole heap, with pages of 4096 bytes.
use shawn_os.Prelude.{
  ℕ, suc, ◌+◌, ◌*◌, ◌^◌, ◌≤◌, ◌<◌, ◌≡◌, refl, arith, ltb, ◌==◌, ◌&&◌, not, true, false,
  if◌then◌else◌, List, [], ◌∷◌, All, ap, ◌∙◌, sym, Option, none, some, Outcome, ok, ◌>>=◌, inl, inr,
}
use mathlib.Core.Path.{subst}
use shawn_os.Kernel.{add32, sub32, max32, k_failed, k_success}
use shawn_os.Asa.{Kasa}
use shawn_os.Paging.{PagingInterface}
use shawn_os.Heap.{Block, Heap}
use shawn_os.Heap.Sections.{try_block}
use shawn_os.Heap.Malloc.{
  Served, Expanded, try_blocks, place, kheap_expand, malloc_loop, kheap_malloc,
}
use shawn_os.Heap.Build.{IsMemory, IsFresh, reserved}
use shawn_os.Heap.Pages.{pages_needed}
use shawn_os.Heap.Mapping.{PagingLaws}
use shawn_os.Heap.Serve.{fresh_serves}
use shawn_os.Heap.Expand.{Expansion, no_space, no_frames, grown, kheap_expand-Expansion}
use shawn_os.Heap.Blocks.{InHeap, extents, Walked, found, not_found, try_blocks-Walked}
use shawn_os.Heap.Place.{manual, request}
use shawn_os.Heap.Allotted.{Allotted, out_of_memory, wanted-le, serves}
use shawn_os.Heap.Sound.{Sound, Owned-keeps, built-InHeap, built-Sound}

module _ {P : Type 0} (interface : PagingInterface P) (laws : PagingLaws interface)
    (contents : ℕ → ℕ → List ℕ) (memory : IsMemory contents) (size align : ℕ) (pos : 0 < size)
    (small : size + align ≤ 2 ^ 30) where
  abbrev wanted : ℕ
  wanted = request size align

  module _ (heap : Heap) (asa : Kasa) (p : P) (v : Sound interface laws heap asa p) (pages : ℕ)
      (some_pages : 0 < pages) (few : pages < 2 ^ 19) (fits : wanted + 48 ≤ 4032 * pages) where
    -- The walk over the heap once it has grown: its new block serves.
    walk_again :
        (fuel f : ℕ) (asa' : Kasa) (q : P) (b : Block) (heap' : Heap)
        → IsFresh (f * 4096) (4096 * pages) b
        → InHeap b
        → heap'.blocks ≡ b ∷ heap.blocks
        → Sound interface laws heap' asa' q
        → Allotted interface laws contents size align heap asa p (
            malloc_loop interface 4096 contents (suc fuel) wanted align (manual align) heap' asa' q)
    unfolding malloc_loop try_blocks
    walk_again fuel f asa' q b heap' fresh h front v' =
        let (b', e, t) =
          fresh_serves b (f * 4096) pages fresh some_pages few wanted
            (wanted-le interface laws contents size align pos small).0 fits in
        rw (front, e)
          (serves interface laws contents size align pos small heap heap' asa' asa q p []
            heap.blocks b b' (reserved (4096 * pages)) v' front h t (inr (refl, refl)))

    abbrev big : ℕ
    big = max32 heap.min_block_size wanted

    -- No block of the heap serves, and the heap is to grow.
    walk_on :
        (fuel : ℕ) {r : Outcome (Expanded P)}
        → All (λ b. try_block wanted b ≡ ok none) heap.blocks
        → kheap_expand interface 4096 contents big heap asa p ≡ r
        → Expansion interface laws pages heap asa p r
        → Allotted interface laws contents size align heap asa p (
            r >>= λ e. elim (k_failed e.code) [
              | true ↦ ok (record {
                code = e.code;
                out = none;
                heap = e.heap;
                asa = e.asa;
                paging = e.paging;
              })
              | false ↦
                  malloc_loop interface 4096 contents
                    (suc fuel)
                    wanted
                    align
                    (manual align)
                    e.heap
                    e.asa
                    e.paging
            ])
    walk_on fuel all e (no_space no_run) = out_of_memory _ all e refl refl v
    walk_on fuel all e (no_frames asa' q space same keeps) =
        out_of_memory _ all e refl refl (record {
          is_heap = v.is_heap;
          space = space;
          owned = Owned-keeps asa asa' (extents heap.blocks) keeps v.owned;
        })
    walk_on fuel all e (grown f asa' q b heap' g space maps built) =
        walk_again fuel f asa' q b heap' built.fresh
          (built-InHeap interface laws heap heap' asa asa' p q pages f b v g some_pages built)
          built.in_front
          (built-Sound interface laws heap heap' asa asa' p q pages f b v g some_pages built space)

    -- The walk over the heap as it is.
    walk :
        (fuel : ℕ) {r : Outcome (Option Served)}
        → Walked wanted heap.blocks r
        → Expansion interface laws pages heap asa p
            (kheap_expand interface 4096 contents big heap asa p)
        → Allotted interface laws contents size align heap asa p (
            r >>= λ r. elim r [
              | some s ↦ ok (record {
                code = k_success;
                out = some (place s align (manual align));
                heap = record heap {
                  blocks = s.blocks;
                  total_free_sections = sub32 heap.total_free_sections s.n_sec;
                };
                asa = asa;
                paging = p;
              })
              | none ↦ kheap_expand interface 4096 contents big heap asa p >>= λ e.
                  elim (k_failed e.code) [
                    | true ↦ ok (record {
                      code = e.code;
                      out = none;
                      heap = e.heap;
                      asa = e.asa;
                      paging = e.paging;
                    })
                    | false ↦
                        malloc_loop interface 4096 contents
                          (suc fuel)
                          wanted
                          align
                          (manual align)
                          e.heap
                          e.asa
                          e.paging
                  ]
            ])
    walk fuel (found before after b b' f at all h t) grows =
        serves interface laws contents size align pos small heap heap asa asa p p before after b b'
          f v at h t (inl at)
    walk fuel (not_found all) grows = walk_on fuel all refl grows

    loop_lem :
        (fuel : ℕ)
        → Expansion interface laws pages heap asa p
            (kheap_expand interface 4096 contents big heap asa p)
        → Allotted interface laws contents size align heap asa p (
            malloc_loop interface 4096 contents
              (suc (suc fuel))
              wanted
              align
              (manual align)
              heap
              asa
              p)
    unfolding malloc_loop
    loop_lem fuel grows =
        walk fuel
          (try_blocks-Walked wanted heap.blocks
            (wanted-le interface laws contents size align pos small).0
            (omega (arith, (wanted-le interface laws contents size align pos small)))
            v.is_heap.blocks_in)
          grows

  -- The call, with what it asks a block for.
  kheap_malloc_lem :
      (fuel : ℕ) (heap : Heap) (asa : Kasa) (p : P)
      → heap.default_section_size ≡ 16
      → kheap_malloc interface 4096 contents fuel size align heap asa p
        ≡ malloc_loop interface 4096 contents fuel wanted align (manual align) heap asa p
  unfolding kheap_malloc
  kheap_malloc_lem fuel heap asa p section =
      ap
        (λ (d : ℕ).
          malloc_loop interface 4096 contents fuel
            (if ltb 0 align && not (d == align) then add32 size align else size) align
            (ltb 0 align && not (d == align)) heap asa p)
        section
      ∙ ap
          (λ (w : ℕ).
            malloc_loop interface 4096 contents fuel (if manual align then w else size) align
              (manual align) heap asa p)
          no_wrap
    where
      no_wrap : add32 size align ≡ size + align
      no_wrap = omega arith

  -- `kheap_malloc` over any paging system that keeps what `PagingLaws` says, as the i386 one does
  -- at pages of which the page tables are present, for 1 byte or more, with size and alignment
  -- together at most 1 GiB, on a sound heap of which the smallest block size is at most 1 GiB,
  -- where a new block of the size that `kheap_expand` chooses has room for the request: with two
  -- rounds, and so any more, the call returns. Either it succeeds, and the answer is the address of
  -- `size` bytes, aligned as asked, in sections that were all free, in a block that the heap had or
  -- in one that was added in front; these sections alone are marked, and no other block changes. Or
  -- it reports `K_OOM`, since no block serves and the heap cannot be expanded, and the heap is as
  -- it was. The heap, the address space and the paging system stay sound: blocks are valid, with
  -- sections of 16 bytes, apart from each other and on pages of their own, the count of free
  -- sections is that of the blocks, and each page that is free in the address space is one that the
  -- paging system serves, and is not mapped.
  pub kheap_malloc-Allotted :
      (fuel : ℕ) (heap : Heap) (asa : Kasa) (p : P)
      → Sound interface laws heap asa p
      → heap.min_block_size ≤ 2 ^ 30
      → wanted + 48 ≤ 4032 * pages_needed (max32 heap.min_block_size wanted)
      → Allotted interface laws contents size align heap asa p
          (kheap_malloc interface 4096 contents (suc (suc fuel)) size align heap asa p)
  kheap_malloc-Allotted fuel heap asa p v min fits =
      subst (Allotted interface laws contents size align heap asa p)
        (sym (kheap_malloc_lem (suc (suc fuel)) heap asa p v.is_heap.section))
        (loop_lem heap asa p v (pages_needed big_request) (ground arith) (ground arith) fits fuel (
          kheap_expand-Expansion interface laws contents memory big_request heap asa p
            (ground arith) (ground arith) v.is_heap.section v.space))
    where
      big_request : ℕ
      big_request = max32 heap.min_block_size wanted
