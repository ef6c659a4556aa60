-- ===== src/Mmu/Init/Done.antt =====
-- What `i386_paging_init` establishes.
use shawn_os.Prelude.{
  ℕ, ◌+◌, ◌*◌, ◌/◌, ◌%◌, ◌^◌, ◌≤◌, ◌<◌, ◌≡◌, ◌≢◌, refl, ap, sym, ◌∙◌, arith, true, false, leb,
  bit_and, ok, List,
}
use native.Mathlib.Decide.{ℕ_discrete}
use shawn_os.Kernel.{page_size, add32, kvirt_reserved}
use shawn_os.Bitset.Laws
use shawn_os.Bitset.Laws.{member}
use shawn_os.EarlyHeap.{EarlyHeap, max_size}
use shawn_os.EarlyHeap.Laws as Heap
use shawn_os.MemoryMap.{MemInfo}
use shawn_os.Isr.{isr_install_handler}
use shawn_os.Mmu.{Mmu, address_mask, index_in_table, window_table}
use shawn_os.Mmu.Pages.{i386_paging_interface}
use shawn_os.Mmu.Window.{Ready, masked}
use shawn_os.Mmu.Walk.{IsValid, walk, leaf, dir_entry, table_entry}
use shawn_os.Mmu.Init.{KpagingData, i386_paging_init}
use shawn_os.Mmu.Init.Identity.{Partial}
use shawn_os.Mmu.Init.Start.{block, with_directory, mmu_data_init_lem, with_directory-Fresh}
use shawn_os.Mmu.Init.Table.{table_of, loop_lem}

-- Early initialisation is done.
abbrev finished : ℕ → Mmu → Mmu
finished window t = record t { window_page = window; early_init_done = true }

module _ (t : Mmu) (table : ℕ) (p : Partial table 380 t) (window : ℕ) (low : window ≤ 0x17_c000)
    (apart : t.page_directory < window) where
  first_of : (a : ℕ) → a ≤ 0x17_c000 → dir_entry t a ≡ table + 3
  first_of a below = ap (t.memory (t.page_directory / 4096)) (omega arith) ∙ p.first

  own_page : table / 4096 ≢ t.page_directory / 4096
  own_page e = p.own (omega (arith, p.page, p.common.aligned, e))

  finished-Ready : Ready (finished window t)
  unfolding window_table
  finished-Ready = record {
    done = refl;
    aligned = p.common.aligned;
    small = p.common.small;
    apart = omega arith;
    own_table = λ e. own_page (
        omega (arith, p.page, p.fits, masked (table + 3) (omega (arith, p.fits)))
        ∙ ap (λ (w : ℕ). bit_and w address_mask / 4096) (sym (first_of window low))
        ∙ e);
    words = p.common.words;
  }

  -- The first entry of the directory is the only one that is present.
  finished-IsValid : IsValid (finished window t)
  finished-IsValid = record {
    ready = finished-Ready;
    window_present = omega (arith, p.page, first_of window low);
    off_dir = λ i present. elim (ℕ_discrete i 0) [
      | yes e ↦ λ same.
          own_page (omega (arith, p.page, p.first, ap (t.memory (t.page_directory / 4096)) e, same))
      | no ne ↦ absurd (omega (arith, present, p.common.others i ne))
    ];
    separate = λ i j ne pi pj. elim (ℕ_discrete i 0) [
      | yes e ↦ absurd (omega (arith, pj, p.common.others j (λ z. ne (e ∙ sym z))))
      | no ni ↦ absurd (omega (arith, pi, p.common.others i ni))
    ];
  }

  walk-finished : (a : ℕ) → a < 0x17_c000 → a % 4096 ≡ 0 → walk (finished window t) a ≡ a
  unfolding walk leaf
  walk-finished a below page =
      let entry : t.memory (table / 4096) (index_in_table a) ≡ index_in_table a * 4096 + 3 =
        p.entries (index_in_table a) (omega arith) in
      let at : table_entry t a ≡ a + 3 =
        ap (λ (e : ℕ). t.memory (e / 4096) (index_in_table a)) (first_of a (omega arith))
        ∙ ap (λ (f : ℕ). t.memory f (index_in_table a)) (omega (arith, p.page))
        ∙ entry
        ∙ omega arith in
      ground (arith, first_of a (omega arith), at, p.page)

-- `i386_paging_init`, where early initialisation is not done, the early heap is valid, has room for
-- four pages and ends two pages below KVIRT_RESERVED at least, the bitset is valid and covers the
-- 380 frames below that, and a frame is 1024 words of 32 bits: it succeeds, installs the handler of
-- page faults and leaves page tables that are valid. A page below KVIRT_RESERVED is then mapped to
-- itself, and its frame is in use.
pub paging_init_lem :
    (handler address : ℕ) (meminfo : MemInfo) (routines : List ℕ) (s : Mmu)
    → s.early_init_done ≡ false
    → Heap.IsValid s.early
    → s.early.curpos + 0x4000 ≤ s.early.start + max_size
    → s.early.start + max_size + page_size ≤ kvirt_reserved
    → Laws.IsValid s.frames.bitset
    → 380 ≤ s.frames.bitset.length
    → ((f i : ℕ) → s.memory f i < 2 ^ 32)
    → ((f i : ℕ) → 1024 ≤ i → s.memory f i ≡ 0)
    → address < kvirt_reserved
    → address % 4096 ≡ 0
    → (info : KpagingData) × (t : Mmu) × (i386_paging_init handler meminfo routines s
        ≡ ok (info, isr_install_handler 14 handler routines, t))
      × IsValid t
      × (walk t address ≡ address)
      × (member t.frames.bitset (address / 4096) ≡ 1)
      × (info.highest_page ≡ s.early.start + max_size)
unfolding i386_paging_init
paging_init_lem handler address meminfo routines s early v room low bits long words beyond below
      page =
    let d = with_directory s in
    let fresh = with_directory-Fresh s early v bits long room words beyond in
    let first = block s false v (omega arith) in
    let second = block d true fresh.heap fresh.room in
    let (t, run, p, same_dir, same_heap) = loop_lem d fresh in
    let start : t.early.start ≡ s.early.start =
      ap (λ (e : EarlyHeap). e.start) same_heap ∙ second.same_start ∙ first.same_start in
    let top : add32 t.early.start max_size ≡ s.early.start + max_size = omega (arith, start, low) in
    let window : add32 (s.early.start + max_size) page_size ≡ s.early.start + max_size + page_size =
      omega (arith, low) in
    let passes : leb (s.early.start + max_size + page_size) kvirt_reserved ≡ true =
      ground (arith, low) in
    let apart : t.page_directory < s.early.start + max_size + page_size =
      omega (arith, same_dir, first.inside) in
    (
      record {
        interface = i386_paging_interface;
        kernel_start = meminfo.kernel_reserved_start;
        kernel_end = t.early.curpos;
        highest_page = s.early.start + max_size;
        page_size = page_size;
        mem_total = add32 meminfo.mem_lower meminfo.mem_upper;
      },
      finished (s.early.start + max_size + page_size) t,
      rw (mmu_data_init_lem s early v bits long room words beyond, run, top, window, passes) refl,
      finished-IsValid t (table_of d) p (s.early.start + max_size + page_size) low apart,
      walk-finished t (table_of d) p (s.early.start + max_size + page_size) low apart address below
          page,
      p.taken (address / 4096) (omega arith),
      refl,
    )
