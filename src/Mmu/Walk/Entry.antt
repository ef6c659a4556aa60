-- ===== src/Mmu/Walk/Entry.antt =====
-- Writing a page-table entry: what the walk finds afterwards.
use shawn_os.Prelude.{ℕ, ◌/◌, ◌%◌, ◌^◌, ◌<◌, ◌≡◌, ◌≢◌, refl, ap, sym, ◌∙◌, arith, bit_and, ok}
use shawn_os.Mmu.{Mmu, address_mask, update, table_index, index_in_table, window_table, store}
use shawn_os.Mmu.Access.{move_window}
use shawn_os.Mmu.Pages.{write_entry}
use shawn_os.Mmu.Window.{Ready}
use shawn_os.Mmu.Walk.{
  dir_entry, table_entry, walk, leaf, walk_cong, IsValid, at_dir, at_table, table_ptr_window,
  resolve-at_table, memory-at_table, entries_apart,
}
use shawn_os.Mmu.Walk.Phys.{at_table-Moved}

-- The state with `value` in the entry of an address.
abbrev pub with_entry : ℕ → ℕ → Mmu → Mmu
with_entry address value s = record s {
  memory = update s.memory (dir_entry s address / 4096) (index_in_table address) value;
}

-- One translation is changed, and no other but the window's.
pub record Changed (s s' : Mmu) (address value : ℕ) : Type 0 where
  pub valid : IsValid s'
  pub same_dir : s'.page_directory ≡ s.page_directory
  pub same_window : s'.window_page ≡ s.window_page
  pub same_table : dir_entry s' address ≡ dir_entry s address
  pub entry : table_entry s' address ≡ value
  pub here : walk s' address ≡ leaf 1 value
  pub others :
      (b : ℕ) → b / 4096 ≢ address / 4096 → b / 4096 ≢ s.window_page / 4096 → walk s' b ≡ walk s b
  pub same_dirs : (b : ℕ) → dir_entry s' b ≡ dir_entry s b

module _ (s : Mmu) (v : IsValid s) (address value : ℕ) (present : dir_entry s address % 2 ≡ 1)
    (fits : value < 2 ^ 32) where
  dir-with_entry :
      (i : ℕ)
      → (with_entry address value s).memory (s.page_directory / 4096) i
        ≡ s.memory (s.page_directory / 4096) i
  dir-with_entry i = ground (arith, v.off_dir (table_index address) present)

  with_entry-Ready : Ready (with_entry address value s)
  unfolding window_table
  with_entry-Ready = record {
    done = v.ready.done;
    aligned = v.ready.aligned;
    small = v.ready.small;
    apart = v.ready.apart;
    own_table = λ e. v.ready.own_table (
        ap (λ (w : ℕ). bit_and w address_mask / 4096)
          (sym (dir-with_entry (table_index s.window_page)))
        ∙ e);
    words = λ f i. ground (arith, v.ready.words f i, fits);
  }

  with_entry-IsValid : IsValid (with_entry address value s)
  with_entry-IsValid = record {
    ready = with_entry-Ready;
    window_present =
        ap (λ (w : ℕ). w % 2) (dir-with_entry (table_index s.window_page)) ∙ v.window_present;
    off_dir = λ i p. ground (arith, dir-with_entry i, v.off_dir i);
    separate =
        λ i j ne pi pj. ground (arith, dir-with_entry i, dir-with_entry j, v.separate i j ne);
  }

  here-with_entry : walk (with_entry address value s) address ≡ leaf 1 value
  unfolding walk leaf
  here-with_entry =
      ap
        (λ (e : ℕ).
          leaf e ((with_entry address value s).memory (e / 4096) (index_in_table address)))
        (dir-with_entry (table_index address))
      ∙ ground (arith, present)

  table-with_entry : table_entry (with_entry address value s) address ≡ value
  table-with_entry =
      ap (λ (e : ℕ). (with_entry address value s).memory (e / 4096) (index_in_table address))
        (dir-with_entry (table_index address))
      ∙ ground arith

  others-with_entry :
      (b : ℕ) → b / 4096 ≢ address / 4096 → walk (with_entry address value s) b ≡ walk s b
  others-with_entry b other =
      walk_cong s (with_entry address value s) b (dir-with_entry (table_index b))
        (λ p. ground (arith, entries_apart s v b address p present other))

module _ (s : Mmu) (v : IsValid s) (address value : ℕ) (present : dir_entry s address % 2 ≡ 1) where
  dirs-at_table : (b : ℕ) → dir_entry (at_table s address) b ≡ dir_entry s b
  unfolding move_window
  dirs-at_table b =
      memory-at_table s v address present (s.page_directory / 4096) (table_index b)
        (ground (arith, v.ready.own_table))

  dir-at_table : dir_entry (at_table s address) address ≡ dir_entry s address
  dir-at_table = dirs-at_table address

  pub store_entry :
      store s.window_page (index_in_table address) value (at_table s address)
      ≡ with_entry address value (at_table s address)
  unfolding store
  store_entry =
      ap
        (λ (f : ℕ). record (at_table s address) {
          memory = update (at_table s address).memory f (index_in_table address) value;
        })
        (resolve-at_table s v address present ∙ ap (λ (e : ℕ). e / 4096) (sym dir-at_table))

  pub write_entry_lem :
      write_entry address value s.window_page (at_dir s)
      ≡ ok (with_entry address value (at_table s address))
  unfolding write_entry
  write_entry_lem = rw (table_ptr_window s v address present, store_entry) refl

  pub with_entry-Changed :
      value < 2 ^ 32 → Changed s (with_entry address value (at_table s address)) address value
  unfolding move_window
  with_entry-Changed fits =
      let moved = at_table-Moved s v address in
      let there : dir_entry (at_table s address) address % 2 ≡ 1 =
        ap (λ (w : ℕ). w % 2) dir-at_table ∙ present in
      record {
        valid = with_entry-IsValid (at_table s address) moved.valid address value there fits;
        same_dir = moved.same_dir;
        same_window = moved.same_window;
        same_table =
            dir-with_entry (at_table s address) moved.valid address value there fits
              (table_index address)
            ∙ dir-at_table;
        entry = table-with_entry (at_table s address) moved.valid address value there fits;
        here = here-with_entry (at_table s address) moved.valid address value there fits;
        others = λ b other no_window.
            others-with_entry (at_table s address) moved.valid address value there fits b other
            ∙ moved.same_walk b no_window;
        same_dirs = λ b.
            dir-with_entry (at_table s address) moved.valid address value there fits (table_index b)
            ∙ dirs-at_table b;
      }
