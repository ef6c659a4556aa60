-- ===== src/Heap/Starve.antt =====
-- `kheap_malloc` of kernel/mm/heap.c where the blocks that `kheap_expand` makes are too small.
use shawn_os.Prelude.{
  ℕ, zero, suc, ◌+◌, ◌*◌, ◌^◌, ◌≤◌, ◌<◌, ◌≡◌, refl, arith, true, false, List, [], ◌∷◌, All, ap, ◌∙◌,
  sym, none, Outcome, ok, ◌>>=◌,
}
use mathlib.Core.Path.{subst}
use shawn_os.Kernel.{max32, k_failed, k_oom}
use native.Mathlib.Decide.{dec_lt, ℕ_discrete}
use shawn_os.Asa.{Kasa}
use shawn_os.Asa.Scan.{RunAt}
use shawn_os.Asa.Alloc.{Granted}
use shawn_os.Paging.{PagingInterface}
use shawn_os.Heap.{Block, Heap}
use shawn_os.Heap.Sections.{try_block}
use shawn_os.Heap.Malloc.{Expanded, Malloced, try_blocks, kheap_expand, malloc_loop, kheap_malloc}
use shawn_os.Heap.Build.{IsMemory}
use shawn_os.Heap.Pages.{pages_needed}
use shawn_os.Heap.Mapping.{PagingLaws}
use shawn_os.Heap.Serve.{fresh_passes}
use shawn_os.Heap.Expand.{Expansion, no_space, no_frames, grown, kheap_expand-Expansion}
use shawn_os.Heap.Sound.{Sound, built-Sound}

-- The request is refused: the call returns, with an error and without memory.
pub data Refused {P : Type 0} : Outcome (Malloced P) → Type 0 where
  refused : (m : Malloced P) → m.code ≡ k_oom → m.out ≡ none → Refused (ok m)

All-passes :
    (size : ℕ) (bs : List Block)
    → All (λ b. try_block size b ≡ ok none) bs
    → try_blocks size bs ≡ ok none
unfolding try_blocks
All-passes size [] all = refl
All-passes size (b ∷ bs) (e, all) = rw (e, All-passes size bs all) refl

module _ {P : Type 0} (interface : PagingInterface P) (laws : PagingLaws interface)
    (contents : ℕ → ℕ → List ℕ) (memory : IsMemory contents) (size : ℕ) (pos : 0 < size)
    (small : size ≤ 2 ^ 30) (short : 4032 * pages_needed size < size + 48) where
  -- What the loop does once it has tried to grow.
  abbrev go_on : ℕ → Expanded P → Outcome (Malloced P)
  go_on fuel e = elim (k_failed e.code) [
    | true ↦
        ok (record { code = e.code; out = none; heap = e.heap; asa = e.asa; paging = e.paging })
    | false ↦ malloc_loop interface 4096 contents fuel size 0 false e.heap e.asa e.paging
  ]

  grows :
      (fuel : ℕ) (heap : Heap) (asa : Kasa) (p : P)
      → All (λ b. try_block size b ≡ ok none) heap.blocks
      → malloc_loop interface 4096 contents (suc fuel) size 0 false heap asa p ≡ (
          kheap_expand interface 4096 contents (max32 heap.min_block_size size) heap asa p
          >>= go_on fuel)
  unfolding malloc_loop
  grows fuel heap asa p all = rw (All-passes size heap.blocks all) refl

  -- No run of pages for the request begins below page `k`.
  abbrev NoneBelow : ℕ → Kasa → Type 0
  NoneBelow k asa = (g : ℕ) → g < k → ¬ RunAt asa.pages (pages_needed size) g

  still_none :
      (f : ℕ) {asa : Kasa} (asa' : Kasa)
      → Granted asa (pages_needed size) f asa'
      → 0 < pages_needed size
      → NoneBelow (suc f) asa'
  still_none f asa' g some_pages h lt run = elim (ℕ_discrete h f) [
    | yes e ↦ absurd (ground (arith, run f (omega arith) (omega arith), g.members f, some_pages))
    | no ne ↦ g.lowest h (omega arith) (λ m lo hi. ground (arith, run m lo hi, g.members m))
  ]

  -- The rounds: each adds a block that does not serve the request, on pages behind those of the
  -- round before, so that there is at most one for each page.
  malloc_loop-Refused :
      (fuel k : ℕ) (heap : Heap) (asa : Kasa) (p : P)
      → Sound interface laws heap asa p
      → heap.min_block_size ≤ size
      → All (λ b. try_block size b ≡ ok none) heap.blocks
      → NoneBelow k asa
      → k ≤ asa.pages.length
      → asa.pages.length < k + fuel
      → Refused (malloc_loop interface 4096 contents fuel size 0 false heap asa p)
  malloc_loop-Refused zero k heap asa p v min all none_below in_space enough = absurd (omega arith)
  malloc_loop-Refused (suc fuel) k heap asa p v min all none_below in_space enough =
      let same : max32 heap.min_block_size size ≡ size = ground arith in
      subst Refused
        (sym (
          grows fuel heap asa p all
          ∙ ap (λ (s : ℕ). kheap_expand interface 4096 contents s heap asa p >>= go_on fuel) same))
        (expanded
          (kheap_expand-Expansion interface laws contents memory size heap asa p pos small
            v.is_heap.section v.space)
          (λ k' heap' asa' q v' min' all' none' room enough'.
            malloc_loop-Refused fuel k' heap' asa' q v' min' all' none' room enough'))
    where
      expanded :
          {r : Outcome (Expanded P)}
          → Expansion interface laws (pages_needed size) heap asa p r
          → ((k' : ℕ) (heap' : Heap) (asa' : Kasa) (q : P)
              → Sound interface laws heap' asa' q
              → heap'.min_block_size ≤ size
              → All (λ b. try_block size b ≡ ok none) heap'.blocks
              → NoneBelow k' asa'
              → k' ≤ asa'.pages.length
              → asa'.pages.length < k' + fuel
              → Refused (malloc_loop interface 4096 contents fuel size 0 false heap' asa' q))
          → Refused (r >>= go_on fuel)
      expanded (no_space none_fits) again = refused _ refl refl
      expanded (no_frames asa' q space same keeps) again = refused _ refl refl
      expanded (grown f asa' q b heap' g space maps built) again =
          let some_pages : 0 < pages_needed size = ground arith in
          let passes =
            fresh_passes b (f * 4096) (pages_needed size) built.fresh some_pages (ground arith) size
              (omega arith) short in
          let behind : k ≤ f = elim (dec_lt f k) [
            | yes lt ↦ absurd (none_below f lt g.was_free)
            | no ge ↦ omega arith
          ] in
          again (suc f) heap' asa' q
            (built-Sound interface laws heap heap' asa asa' p q (pages_needed size) f b v g
              some_pages built space)
            (omega (arith, min, built.same_min))
            (subst (All (λ b. try_block size b ≡ ok none)) (sym built.in_front) (passes, all))
            (still_none f asa' g some_pages) (omega (arith, g.inside, g.same_length, some_pages))
            (omega (arith, behind, enough, g.same_length))

  -- `kheap_malloc` without alignment, over any paging system that keeps what `PagingLaws` says, for
  -- a size from the heap's smallest block size up to 1 GiB, where the block that `kheap_expand`
  -- makes for it has too little room beside its own sections, on a sound heap of which no block
  -- serves the request: with more rounds than the address space has pages, the call returns `K_OOM`
  -- and no memory, however many pages and frames are free.
  pub kheap_malloc-Refused :
      (fuel : ℕ) (heap : Heap) (asa : Kasa) (p : P)
      → Sound interface laws heap asa p
      → heap.min_block_size ≤ size
      → All (λ b. try_block size b ≡ ok none) heap.blocks
      → asa.pages.length < fuel
      → Refused (kheap_malloc interface 4096 contents fuel size 0 heap asa p)
  unfolding kheap_malloc
  kheap_malloc-Refused fuel heap asa p v min all enough =
      malloc_loop-Refused fuel 0 heap asa p v min all (λ g lt. absurd (omega arith)) (omega arith)
        (omega arith)
