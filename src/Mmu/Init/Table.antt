-- ===== src/Mmu/Init/Table.antt =====
-- The first round of the loop allocates the page table.
use shawn_os.Prelude.{
  ℕ, suc, ◌+◌, ◌/◌, ◌≡◌, ◌≢◌, refl, ap, ◌∙◌, arith, true, false, ◌==◌, if_false, bit_or, ok,
}
use shawn_os.Kernel.{k_success}
use shawn_os.EarlyHeap.{kmalloc_real, kmalloc_ap}
use shawn_os.EarlyHeap.Laws as Heap
use shawn_os.Mmu.{Mmu, update, load, store, table_index}
use shawn_os.Mmu.Access.{allocate_page_table, ensure_table}
use shawn_os.Mmu.Pages.{identity_map_page}
use shawn_os.Mmu.Window.{flagged}
use shawn_os.Mmu.Init.{identity_map_kernel}
use shawn_os.Mmu.Init.Fill.{
  resolve_early, get_virt_ptr_early, filled, filled_lem, memset32-filled, kmalloc_room,
}
use shawn_os.Mmu.Init.Identity.{Partial, ensure_early, identity_map_kernel_lem}
use shawn_os.Mmu.Init.Start.{Fresh, block}

-- The page table, filled with entries that are not present, is entered in the directory.
abbrev pub table_of : Mmu → ℕ
table_of s = (kmalloc_real 4096 true 5 s.early).address

abbrev pub emptied : Mmu → Mmu
emptied s = record s {
  early = (kmalloc_real 4096 true 5 s.early).heap;
  memory = filled 1024 0 (table_of s / 4096) 2 s.memory;
}

abbrev pub with_table : Mmu → Mmu
with_table s = record (emptied s) {
  memory = update (emptied s).memory (s.page_directory / 4096) 0 (table_of s + 3);
}

module _ (s : Mmu) (f : Fresh s) where
  placed : Heap.Placed s.early 4096 true (kmalloc_real 4096 true 5 s.early)
  placed = block s true f.heap f.room

  with_table-Partial : Partial (table_of s) 0 (with_table s)
  with_table-Partial =
      let own : table_of s / 4096 ≢ s.page_directory / 4096 =
        λ e. ground (arith, placed.behind, placed.aligns, f.behind, f.common.aligned, e) in
      let memory = filled_lem 1024 0 (table_of s / 4096) 2 s.memory in
      record {
        common = record {
          early = f.common.early;
          aligned = f.common.aligned;
          small = f.common.small;
          words = λ g i. ground (arith, memory g i, f.common.words g i, placed.inside, f.heap.room);
          others =
              λ i ne. ground (arith, memory (s.page_directory / 4096) i, f.common.others i ne, own);
          bits = f.common.bits;
          long = f.common.long;
        };
        page = placed.aligns;
        fits = omega (arith, placed.inside, f.heap.room);
        own = λ e. own (ap (λ (p : ℕ). p / 4096) e);
        first = ground arith;
        entries = λ i below. absurd (omega arith);
        taken = λ n below. absurd (omega arith);
      }

  table_lem : allocate_page_table s ≡ ok (k_success, table_of s, emptied s)
  unfolding allocate_page_table kmalloc_ap
  table_lem =
      let real : (table_of s == 0) ≡ false =
        ground (arith, kmalloc_room 4096 true s.early f.heap (omega (arith, f.room))) in
      if_false s.early_init_done _ _ f.common.early
      ∙ if_false (table_of s == 0) _ _ real
      ∙ ap (λ (t : Mmu). ok (k_success, table_of s, t))
          (memset32-filled 1024 0 (table_of s) 2 _ f.common.early)

  load_absent : load s s.page_directory (table_index 0) ≡ 2
  unfolding load
  load_absent =
      ap (λ (g : ℕ). s.memory g 0) (resolve_early s s.page_directory f.common.early) ∙ f.absent

  store_table : store s.page_directory 0 (table_of s + 3) (emptied s) ≡ with_table s
  unfolding store
  store_table =
      ap (λ (g : ℕ). record (emptied s) { memory = update (emptied s).memory g 0 (table_of s + 3) })
        (resolve_early (emptied s) s.page_directory f.common.early)

  ensure_allocates :
      ensure_table s.page_directory (table_index 0) 3 s.page_directory s
      ≡ ok (k_success, s.page_directory, with_table s)
  unfolding ensure_table
  ensure_allocates =
      let word : bit_or (table_of s) 3 ≡ table_of s + 3 =
        flagged (table_of s) 3 placed.aligns (omega arith) in
      rw
        (
          load_absent,
          table_lem,
          get_virt_ptr_early (emptied s) s.page_directory f.common.early f.common.aligned,
          word,
          store_table,
        )
        refl

  first_page :
      identity_map_page s.page_directory 0 3 3 s
      ≡ identity_map_page s.page_directory 0 3 3 (with_table s)
  unfolding identity_map_page
  first_page =
      let p = with_table-Partial in
      let there =
        ensure_early (with_table s) p.common (table_of s) p.page p.fits p.first 0 3 (omega arith) in
      rw
        (
          get_virt_ptr_early s s.page_directory f.common.early f.common.aligned,
          get_virt_ptr_early (with_table s) s.page_directory f.common.early f.common.aligned,
          ensure_allocates,
          there,
        )
        refl

  first_round :
      (fuel : ℕ)
      → identity_map_kernel (suc fuel) 0 s ≡ identity_map_kernel (suc fuel) 0 (with_table s)
  unfolding identity_map_kernel
  first_round fuel = rw first_page refl

  -- The whole loop, the fuel of which is enough.
  pub loop_lem :
      (t : Mmu) × (identity_map_kernel 381 0 s ≡ ok t)
      × Partial (table_of s) 380 t
      × (t.page_directory ≡ s.page_directory)
      × (t.early ≡ (with_table s).early)
  loop_lem =
      let (t, run, p, d, e) =
        identity_map_kernel_lem 380 0 (table_of s) (with_table s) refl with_table-Partial in
      (t, first_round 380 ∙ run, p, d, e)
