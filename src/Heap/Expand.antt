-- ===== src/Heap/Expand.antt =====
-- `kheap_expand` of kernel/mm/heap.c, with pages of 4096 bytes and sections of the default size.
use shawn_os.Prelude.{
  ℕ, ◌+◌, ◌*◌, ◌/◌, ◌^◌, ◌≤◌, ◌<◌, ◌≡◌, ◌≢◌, arith, ltb, leb, ◌==◌, ◌&&◌, if◌then◌else◌, List,
  Outcome, ok, true, false, ap, ◌∙◌, ◌>>=◌, Bool-cases, inl, inr,
}
use native.Mathlib.Decide.{ℕ_discrete}
use native.Mathlib.Nat.{mul-div_cancel}
use shawn_os.Kernel.{mul32, k_oom, k_success, k_failed}
use shawn_os.Bitset.Laws.{member}
use shawn_os.Asa.{Kasa, asa_alloc}
use shawn_os.Asa.Scan.{RunAt}
use shawn_os.Asa.Alloc
use shawn_os.Asa.Alloc.{Granted, Allocated, granted, refused, asa_alloc-Allocated}
use shawn_os.Asa.Free.{asa_free_lem}
use shawn_os.Paging.{PagingInterface}
use shawn_os.Heap.{Block, Heap}
use shawn_os.Heap.Malloc.{Expanded, map_pages, map_block, kheap_expand}
use shawn_os.Heap.Build.{IsMemory, Built, kheap_add_block-Built}
use shawn_os.Heap.Pages.{pages_needed, pages_for_lem}
use shawn_os.Heap.Mapping.{PagingLaws, unmap_pages_lem, Mapped, map_pages_lem}

module _ {P : Type 0} (interface : PagingInterface P) (laws : PagingLaws interface) where
  open laws use {IsReady, serves, mapped}

  -- The address space and the paging system agree: the paging system is ready, and a page that is
  -- free in the address space is one that it serves, and not mapped. Page 0 is taken.
  pub record IsSpace (asa : Kasa) (p : P) : Type 0 where
    pub valid : Alloc.IsValid asa
    pub page_bytes : asa.page_size ≡ 4096
    pub null_taken : member asa.pages 0 ≡ 1
    pub ready : IsReady p
    pub free_served : (h : ℕ) → h < asa.pages.length → member asa.pages h ≡ 0 → serves h ≡ true
    pub free_unmapped : (h : ℕ) → member asa.pages h ≡ 0 → mapped h p ≡ 0

  pub Granted-in_space :
      (asa asa' : Kasa) (p : P) (pages f : ℕ)
      → IsSpace asa p
      → Granted asa pages f asa'
      → (f + pages) * 4096 < 2 ^ 32
  Granted-in_space asa asa' p pages f v g = omega (arith, g.inside, addressed)
    where
      addressed : asa.pages.length * 4096 < 2 ^ 32
      addressed = rw (← v.page_bytes) v.valid.addressed

  -- How an expansion by `pages` pages may end.
  pub data Expansion (pages : ℕ) (heap : Heap) (asa : Kasa) (p : P)
      : Outcome (Expanded P) → Type 0 where
    no_space :
        ((g : ℕ) → g + pages ≤ asa.pages.length → ¬ RunAt asa.pages pages g)
        → Expansion pages heap asa p
            (ok (record { code = k_oom; heap = heap; asa = asa; paging = p }))
    no_frames :
        (asa' : Kasa) (q : P)
        → IsSpace asa' q
        → ((h : ℕ) → mapped h q ≡ mapped h p)
        → ((h : ℕ) → member asa.pages h ≡ 1 → member asa'.pages h ≡ 1)
        → Expansion pages heap asa p
            (ok (record { code = k_oom; heap = heap; asa = asa'; paging = q }))
    grown :
        (f : ℕ) (asa' : Kasa) (q : P) (b : Block) (heap' : Heap)
        → Granted asa pages f asa'
        → IsSpace asa' q
        → ((h : ℕ) → mapped h q ≡ (if leb f h && ltb h (f + pages) then 1 else mapped h p))
        → Built heap (f * 4096) (4096 * pages) b heap'
        → Expansion pages heap asa p
            (ok (record { code = k_success; heap = heap'; asa = asa'; paging = q }))

module _ {P : Type 0} (interface : PagingInterface P) (laws : PagingLaws interface)
    (contents : ℕ → ℕ → List ℕ) (memory : IsMemory contents) where
  open laws use {serves, mapped}

  module _ (pages f : ℕ) (heap : Heap) (asa asa' : Kasa) (p : P) (some_pages : 0 < pages)
      (few : pages < 2 ^ 19) (section : heap.default_section_size ≡ 16)
      (v : IsSpace interface laws asa p) (g : Granted asa pages f asa') where
    in_space : (f + pages) * 4096 < 2 ^ 32
    in_space = Granted-in_space interface laws asa asa' p pages f v g

    run_served : (h : ℕ) → f ≤ h → h < f + pages → serves h ≡ true
    run_served h lo hi = v.free_served h (omega (arith, g.inside)) (g.was_free h lo hi)

    not_null : f ≢ 0
    not_null e = omega (arith, v.null_taken, g.was_free 0 (omega arith) (omega arith))

    -- All pages are mapped, and the block is made.
    grows :
        (c j : ℕ) (q : P)
        → Mapped interface laws contents f 0 pages p
            (map_pages interface 4096 contents pages 0 (f * 4096) p)
            c
            j
            q
        → c ≡ 0
        → Expansion interface laws pages heap asa p
            (map_block interface 4096 contents heap asa' (f * 4096) pages p)
    unfolding map_block
    grows c j q m good =
        let bytes : mul32 pages 4096 ≡ 4096 * pages = omega arith in
        let succeeds : k_failed c ≡ false = ground arith in
        let (b, heap', adds, built) =
          kheap_add_block-Built contents memory (f * 4096) (4096 * pages) (omega arith)
            (omega arith) (omega arith) heap (omega arith) section in
        let maps : (h : ℕ) → mapped h q ≡ (if leb f h && ltb h (f + pages) then 1 else mapped h p) =
          λ h. ground (arith, m.maps h, m.all good) in
        rw (m.returns, succeeds, bytes, adds)
          (grown f asa' q b heap' g
            (record {
              valid = g.valid;
              page_bytes = g.same_page_size ∙ v.page_bytes;
              null_taken = ground (arith, g.members 0, v.null_taken);
              ready = m.ready;
              free_served = λ h b e.
                  v.free_served h (omega (arith, b, g.same_length))
                    (ground (arith, e, g.members h));
              free_unmapped = λ h e. ground (arith, maps h, g.members h, v.free_unmapped h);
            })
            maps built)

    -- A page cannot be mapped: those mapped before it are unmapped again.
    gives_back :
        (c j : ℕ) (q : P)
        → Mapped interface laws contents f 0 pages p
            (map_pages interface 4096 contents pages 0 (f * 4096) p)
            c
            j
            q
        → (c == 0) ≡ false
        → Expansion interface laws pages heap asa p
            (map_block interface 4096 contents heap asa' (f * 4096) pages p)
    unfolding map_block
    gives_back c j q m bad =
        let (q', u) =
          unmap_pages_lem interface laws contents j f q (omega (arith, m.bounds, in_space)) m.ready
            (λ h lo hi. run_served h lo (omega (arith, hi, m.bounds)))
            (λ h lo hi. ground (arith, m.maps h, lo, hi)) in
        let at : f * 4096 / asa'.page_size ≡ f =
          rw (g.same_page_size, v.page_bytes) (mul-div_cancel f (omega arith)) in
        let (asa'', frees, valid, left, bytes, bits) =
          asa_free_lem (f * 4096) pages asa' g.valid (omega (arith, g.inside, g.same_length))
            (rw at (omega (arith, g.inside, g.same_length))) in
        let left' : (h : ℕ)
            → member asa''.pages h ≡ (if leb f h && ltb h pages then 0 else member asa'.pages h) =
          λ h. ground (arith, left h, at) in
        let new : (h : ℕ) → f ≤ h → h < f + pages → mapped h p ≡ 0 =
          λ h lo hi. v.free_unmapped h (g.was_free h lo hi) in
        let maps : (h : ℕ) → mapped h q' ≡ mapped h p =
          λ h. ground (arith, m.maps h, u.maps h, m.bounds, new h) in
        let fails : k_failed c ≡ true = ground arith in
        rw (m.returns, fails, frees, u.returns)
          (no_frames asa'' q'
            (record {
              valid = valid;
              page_bytes = bytes ∙ g.same_page_size ∙ v.page_bytes;
              null_taken = ground (arith, left' 0, g.members 0, v.null_taken, not_null);
              ready = u.ready;
              free_served = λ h b e. elim (Bool-cases (leb f h && ltb h (f + pages))) [
                | inl within ↦ run_served h (ground (arith, within)) (ground (arith, within))
                | inr without ↦
                    v.free_served h (omega (arith, b, bits, g.same_length))
                      (ground (arith, e, left' h, g.members h, without))
              ];
              free_unmapped =
                  λ h e. ground (arith, maps h, left' h, g.members h, v.free_unmapped h, new h);
            })
            maps (λ h e. ground (arith, left' h, g.members h, g.was_free h)))

    -- What is left to do once the pages are reserved.
    map_block-Expansion :
        Expansion interface laws pages heap asa p
          (map_block interface 4096 contents heap asa' (f * 4096) pages p)
    map_block-Expansion =
        let (c, j, q, m) =
          map_pages_lem interface laws contents pages 0 f p (omega (arith, in_space)) v.ready
            (λ h lo hi. run_served h (omega (arith, lo)) (omega (arith, hi))) in
        elim (ℕ_discrete c 0) [
          | yes good ↦ grows c j q m good
          | no bad ↦ gives_back c j q m (ground arith)
        ]

  pub kheap_expand-Expansion :
      (size : ℕ) (heap : Heap) (asa : Kasa) (p : P)
      → 0 < size
      → size ≤ 2 ^ 30
      → heap.default_section_size ≡ 16
      → IsSpace interface laws asa p
      → Expansion interface laws
          (pages_needed size)
          heap
          asa
          p
          (kheap_expand interface 4096 contents size heap asa p)
  unfolding kheap_expand
  kheap_expand-Expansion size heap asa p pos small section v =
      rw (pages_for_lem size pos small) (space (pages_needed size) (ground arith) (ground arith))
    where
      space :
          (pages : ℕ)
          → 0 < pages
          → pages < 2 ^ 19
          → Expansion interface laws pages heap asa p (
              asa_alloc pages asa >>= λ (location, asa').
              if location == 0
              then ok (record { code = k_oom; heap = heap; asa = asa'; paging = p })
              else map_block interface 4096 contents heap asa' location pages p)
      space pages some_pages few = answered (asa_alloc-Allocated pages asa some_pages v.valid)
        where
          answered :
              {r : Outcome (ℕ × Kasa)}
              → Allocated asa pages r
              → Expansion interface laws pages heap asa p (
                  r >>= λ (location, asa').
                  if location == 0
                  then ok (record { code = k_oom; heap = heap; asa = asa'; paging = p })
                  else map_block interface 4096 contents heap asa' location pages p)
          answered (refused none_fits) = no_space none_fits
          answered (granted f asa' g) =
              let bytes : f * asa.page_size ≡ f * 4096 = ap (λ (b : ℕ). f * b) v.page_bytes in
              let there : (f * 4096 == 0) ≡ false =
                ground (arith, not_null pages f heap asa asa' p some_pages few section v g) in
              rw (bytes, there)
                (map_block-Expansion pages f heap asa asa' p some_pages few section v g)
