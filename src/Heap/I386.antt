-- ===== src/Heap/I386.antt =====
-- The paging system of kernel/arch/i386/paging.c as the one that kernel/mm/heap.c maps its pages
-- with: at the pages from `first` up to `end`, of which the page tables are present.
use shawn_os.Prelude.{
  ℕ, ◌+◌, ◌*◌, ◌/◌, ◌%◌, ◌^◌, ◌≤◌, ◌<◌, ◌≡◌, ◌≢◌, refl, arith, Bool, true, false, ltb, leb, ◌==◌,
  ◌&&◌, if◌then◌else◌, Outcome, ok, ap, ◌∙◌, sym, ◌>>=◌, Bool-cases, inl, inr,
}
use mathlib.Core.Path.{subst}
use native.Mathlib.Decide.{ℕ_discrete}
use shawn_os.Kernel.{k_success, k_oom}
use shawn_os.Bitset.{without_bit}
use shawn_os.Bitset.Laws.{member-without_bit, without_bit-IsValid}
use shawn_os.Bitset.Range.{length-without_bit}
use shawn_os.Frames.{Frames, allocate_frame}
use shawn_os.Frames.Alloc
use shawn_os.Frames.Alloc.{Allocated, granted, exhausted, searched, allocate_frame-Allocated}
use shawn_os.Paging.{kpage_allocate, kpage_free}
use shawn_os.Mmu.{Mmu}
use shawn_os.Mmu.Pages.{allocate_page, i386_kpage_allocate, i386_kpage_free, i386_paging_interface}
use shawn_os.Mmu.Walk
use shawn_os.Mmu.Walk.{dir_entry, table_entry, walk, leaf}
use shawn_os.Mmu.Walk.Entry.{Changed}
use shawn_os.Mmu.Walk.Alloc.{allocate_page_lem, free_page_lem}
use shawn_os.Heap.Mapping.{PagingLaws}

module _ (first end : ℕ) where
  abbrev pub in_range : ℕ → Bool
  in_range g = leb first g && ltb g end

  -- The page tables of the range are there, the window is not one of its pages, and a page that is
  -- mapped leads to a frame that the search for free frames reads.
  pub record IsReady (s : Mmu) : Type 0 where
    pub tables_valid : Walk.IsValid s
    pub frames_valid : Alloc.IsValid s.frames
    pub few_frames : searched s.frames ≤ 2 ^ 20
    pub tables : (g : ℕ) → in_range g ≡ true → dir_entry s (g * 4096) % 2 ≡ 1
    pub off_window : (g : ℕ) → in_range g ≡ true → g ≢ s.window_page / 4096
    pub named : (g : ℕ) → in_range g ≡ true → walk s (g * 4096) / 4096 < searched s.frames

  -- Is the page one of the range that the processor finds a frame for?
  abbrev pub present : ℕ → Mmu → ℕ
  present h s = if in_range h then (if walk s (h * 4096) == 0 then 0 else 1) else 0

  -- One entry of the range has changed, to a page in frame `n` or to none, where `n` is 0.
  module _ (s s' : Mmu) (g n value : ℕ) (v : IsReady s) (within : in_range g ≡ true)
      (c : Changed s s' (g * 4096) value) (leads : walk s' (g * 4096) ≡ n * 4096)
      (frames_valid : Alloc.IsValid s'.frames) (same : searched s'.frames ≡ searched s.frames)
      (inside : n < searched s.frames) where
    elsewhere : (h : ℕ) → in_range h ≡ true → h ≢ g → walk s' (h * 4096) ≡ walk s (h * 4096)
    elsewhere h i ne = c.others (h * 4096) (omega (arith, ne)) (omega (arith, v.off_window h i))

    changed-IsReady : IsReady s'
    changed-IsReady = record {
      tables_valid = c.valid;
      frames_valid = frames_valid;
      few_frames = omega (arith, same, v.few_frames);
      tables = λ h i. ap (λ (e : ℕ). e % 2) (c.same_dirs (h * 4096)) ∙ v.tables h i;
      off_window = λ h i. omega (arith, c.same_window, v.off_window h i);
      named = λ h i. elim (ℕ_discrete h g) [
        | yes e ↦
            let here : walk s' (h * 4096) ≡ n * 4096 =
              ap (λ (k : ℕ). walk s' (k * 4096)) e ∙ leads in
            omega (arith, here, same, inside)
        | no ne ↦ omega (arith, elsewhere h i ne, same, v.named h i)
      ];
    }

    changed_presence :
        (h : ℕ) → present h s' ≡ (if h == g then (if n == 0 then 0 else 1) else present h s)
    changed_presence h = elim (ℕ_discrete h g) [
      | yes e ↦
          let here : walk s' (h * 4096) ≡ n * 4096 = ap (λ (k : ℕ). walk s' (k * 4096)) e ∙ leads in
          let in_it : in_range h ≡ true = ap in_range e ∙ within in
          let it : (h == g) ≡ true = ground (arith, e) in rw (in_it, it, here) (ground arith)
      | no ne ↦
          let other : (h == g) ≡ false = ground (arith, ne) in
          elim (Bool-cases (in_range h)) [
            | inl i ↦ rw (other, i, elsewhere h i ne) refl
            | inr o ↦ rw (other, o) refl
          ]
    ]

  pub i386_allocates :
      (g : ℕ) (s : Mmu)
      → IsReady s
      → in_range g ≡ true
      → (c : ℕ) × (q : Mmu) × (kpage_allocate i386_paging_interface (g * 4096) 3 s ≡ ok (c, q))
        × IsReady q
        × ((h : ℕ) → present h q ≡ (if c == 0 && h == g then 1 else present h s))
  unfolding kpage_allocate i386_paging_interface i386_kpage_allocate allocate_page
  i386_allocates g s v within = answered refl (allocate_frame-Allocated s.frames v.frames_valid)
    where
      answered :
          {r : Outcome (ℕ × Frames)}
          → allocate_frame s.frames ≡ r
          → Allocated s.frames r
          → (c : ℕ) × (q : Mmu) × (kpage_allocate i386_paging_interface (g * 4096) 3 s ≡ ok (c, q))
            × IsReady q
            × ((h : ℕ) → present h q ≡ (if c == 0 && h == g then 1 else present h s))
      answered e (exhausted all) =
          let at : g * 4096 % 4096 ≡ 0 = omega arith in (k_oom, s, rw (at, e) refl, v, λ h. refl)
      answered e (granted f t real inside free lowest ms valid same) =
          let (s', runs, c, leads, kept) =
            allocate_page_lem s (g * 4096) 3 3 f t v.tables_valid (omega arith) (v.tables g within)
              (omega arith) refl e real (omega (arith, inside, v.few_frames)) in
          let same' : searched s'.frames ≡ searched s.frames = ap searched kept ∙ same in
          let valid' = subst Alloc.IsValid (sym kept) valid in
          (
            k_success,
            s',
            ap (λ r. r >>= λ (x : ℕ × ℕ × Mmu). ok (x.0, x.2)) runs,
            changed-IsReady s s' g f (f * 4096 + 3) v within c leads valid' same' inside,
            λ h.
                changed_presence s s' g f (f * 4096 + 3) v within c leads valid' same' inside h
                ∙ ground (arith, real),
          )

  pub i386_frees :
      (g : ℕ) (s : Mmu)
      → IsReady s
      → in_range g ≡ true
      → present g s ≡ 1
      → (c : ℕ) × (q : Mmu) × (kpage_free i386_paging_interface (g * 4096) s ≡ ok (c, q))
        × IsReady q
        × ((h : ℕ) → present h q ≡ (if h == g then 0 else present h s))
  unfolding kpage_free i386_paging_interface i386_kpage_free walk leaf
  i386_frees g s v within on =
      let frame = table_entry s (g * 4096) / 4096 in
      let named : (frame ≢ 0) × (frame < searched s.frames) =
        ground (arith, on, within, v.named g within) in
      let inside : frame < s.frames.bitset.length = omega (arith, named, v.frames_valid.sized) in
      let (s', runs, c, gone, kept) =
        free_page_lem s (g * 4096) v.tables_valid (omega arith) (v.tables g within)
          (omega (arith, v.off_window g within)) v.frames_valid.bits inside in
      let valid : Alloc.IsValid (record s.frames { bitset = without_bit s.frames.bitset frame }) =
        record {
          bits = without_bit-IsValid s.frames.bitset frame v.frames_valid.bits inside;
          sized = length-without_bit s.frames.bitset frame ∙ v.frames_valid.sized;
          zero_taken = ground (
            arith,
            member-without_bit s.frames.bitset frame v.frames_valid.bits inside 0,
            v.frames_valid.zero_taken,
            named,
          );
        } in
      let same : searched s'.frames ≡ searched s.frames = ap searched kept in
      let valid' = subst Alloc.IsValid (sym kept) valid in
      (
        k_success,
        s',
        runs,
        changed-IsReady s s' g 0 2 v within c gone valid' same (omega (arith, named)),
        changed_presence s s' g 0 2 v within c gone valid' same (omega (arith, named)),
      )

  -- The i386 paging system keeps what the heap relies on.
  abbrev pub i386_laws : PagingLaws i386_paging_interface
  i386_laws = record {
    IsReady = IsReady;
    serves = in_range;
    mapped = present;
    allocates = i386_allocates;
    frees = i386_frees;
  }
