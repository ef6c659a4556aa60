-- ===== src/Mmu/Walk.antt =====
-- The two pointers by which the operations reach a page-table entry, and the walk that they make.
pub mod Phys
pub mod Entry
pub mod Alloc
pub mod Errors
pub mod RoundTrip
use shawn_os.Prelude.{
  ℕ, zero, suc, ◌+◌, ◌-◌, ◌*◌, ◌/◌, ◌%◌, ◌^◌, ◌≤◌, ◌<◌, ◌≡◌, ◌≢◌, refl, ap, sym, ◌∙◌, arith, Bool,
  true, false, ◌&&◌, not, ◌==◌, if◌then◌else◌, bit_and, bit_or, Bool-cases, inl, inr, Outcome, ok,
  ◌>>=◌, ◌>>◌, assert,
}
use native.Mathlib.Decide.{ℕ_discrete}
use shawn_os.Kernel.{page_size}
use shawn_os.Mmu.{
  Mmu, address_mask, update, table_index, index_in_table, window_table, resolve, load, store,
}
use shawn_os.Mmu.Access.{move_window, get_virt_ptr, table_ptr}
use shawn_os.Mmu.Window.{
  Ready, masked, get_virt_ptr_ready, memory-move_window, window_table-move_window,
  move_window-Ready, resolve_other, resolve-move_window,
}

-- The directory entry and the page-table entry of an address.
abbrev pub dir_entry : Mmu → ℕ → ℕ
dir_entry s address = s.memory (s.page_directory / 4096) (table_index address)

abbrev pub table_entry : Mmu → ℕ → ℕ
table_entry s address = s.memory (dir_entry s address / 4096) (index_in_table address)

-- The physical address in a page-table entry, 0 where a page or its table is not present.
unfoldable pub leaf : ℕ → ℕ → ℕ
leaf pde pte = if pde % 2 == 0 then 0 else if pte % 2 == 0 then 0 else pte - pte % 4096

-- What the processor's walk finds for an address.
unfoldable pub walk : Mmu → ℕ → ℕ
walk s address = leaf (dir_entry s address) (table_entry s address)

leaf_absent : (pde p q : ℕ) → pde % 2 ≢ 1 → leaf pde p ≡ leaf pde q
unfolding leaf
leaf_absent pde p q absent = ground (arith, absent)

-- A walk reads the directory, and a table that is present.
pub walk_cong :
    (s s' : Mmu) (b : ℕ)
    → dir_entry s' b ≡ dir_entry s b
    → (dir_entry s b % 2 ≡ 1
        → s'.memory (dir_entry s b / 4096) (index_in_table b) ≡ table_entry s b)
    → walk s' b ≡ walk s b
unfolding walk
walk_cong s s' b same_dir same_entry =
    ap (λ (e : ℕ). leaf e (s'.memory (e / 4096) (index_in_table b))) same_dir
    ∙ elim (ℕ_discrete (dir_entry s b % 2) 1) [
      | yes present ↦ ap (leaf (dir_entry s b)) (same_entry present)
      | no absent ↦ leaf_absent (dir_entry s b) _ _ absent
    ]

-- Tables that are present are pages of their own, the window's among them.
pub record IsValid (s : Mmu) : Type 0 where
  pub ready : Ready s
  pub window_present : dir_entry s s.window_page % 2 ≡ 1
  pub off_dir :
      (i : ℕ)
      → s.memory (s.page_directory / 4096) i % 2 ≡ 1
      → s.memory (s.page_directory / 4096) i / 4096 ≢ s.page_directory / 4096
  pub separate :
      (i j : ℕ)
      → i ≢ j
      → s.memory (s.page_directory / 4096) i % 2 ≡ 1
      → s.memory (s.page_directory / 4096) j % 2 ≡ 1
      → s.memory (s.page_directory / 4096) i / 4096 ≢ s.memory (s.page_directory / 4096) j / 4096

-- The state in which the window shows the directory.
abbrev pub at_dir : Mmu → Mmu
at_dir s = move_window s.page_directory s

-- The state in which it shows the table of an address.
abbrev pub at_table : Mmu → ℕ → Mmu
at_table s address = move_window (dir_entry s address - dir_entry s address % 4096) (at_dir s)

module _ (s : Mmu) (r : Ready s) where
  pub dir_ptr : get_virt_ptr s.page_directory s ≡ ok (s.window_page, at_dir s)
  dir_ptr = get_virt_ptr_ready s r s.page_directory r.aligned r.small

  memory-at_dir :
      (i : ℕ) → (at_dir s).memory (s.page_directory / 4096) i ≡ s.memory (s.page_directory / 4096) i
  memory-at_dir i = ground (
    arith,
    r.own_table,
    memory-move_window s r s.page_directory r.aligned r.small (s.page_directory / 4096) i,
  )

  pub load_dir : (i : ℕ) → load (at_dir s) s.window_page i ≡ s.memory (s.page_directory / 4096) i
  unfolding load
  load_dir i =
      ap (λ (f : ℕ). (at_dir s).memory f i)
        (resolve-move_window s r s.page_directory r.aligned r.small)
      ∙ memory-at_dir i

  load_dir_itself :
      (i : ℕ) → load (at_dir s) s.page_directory i ≡ s.memory (s.page_directory / 4096) i
  unfolding load move_window
  load_dir_itself i =
      ap (λ (f : ℕ). (at_dir s).memory f i) (resolve_other (at_dir s) s.page_directory r.apart)
      ∙ memory-at_dir i

-- An address whose table is present, in another page than the window.
module _ (s : Mmu) (v : IsValid s) (address : ℕ) (mapped : dir_entry s address % 2 ≡ 1) where
  shown : Ready (at_dir s)
  shown = move_window-Ready s v.ready s.page_directory v.ready.aligned v.ready.small

  masked_entry :
      bit_and (dir_entry s address) address_mask ≡ dir_entry s address - dir_entry s address % 4096
  masked_entry = masked (dir_entry s address) (v.ready.words _ _)

  ptr_of :
      (w : ℕ)
      → w ≡ dir_entry s address
      → get_virt_ptr (bit_and w address_mask) (at_dir s) ≡ ok (s.window_page, at_table s address)
  unfolding move_window
  ptr_of w e =
      ap (λ (p : ℕ). get_virt_ptr p (at_dir s))
        (ap (λ (u : ℕ). bit_and u address_mask) e ∙ masked_entry)
      ∙ get_virt_ptr_ready (at_dir s) shown _ (omega arith)
          (omega (arith, v.ready.words (s.page_directory / 4096) (table_index address)))

  pub table_ptr_window :
      table_ptr (table_index address) s.window_page (at_dir s)
      ≡ ok (s.window_page, at_table s address)
  unfolding table_ptr
  table_ptr_window = ptr_of _ (load_dir s v.ready (table_index address))

  pub table_ptr_dir :
      table_ptr (table_index address) s.page_directory (at_dir s)
      ≡ ok (s.window_page, at_table s address)
  unfolding table_ptr
  table_ptr_dir = ptr_of _ (load_dir_itself s v.ready (table_index address))

  at_table-Ready : Ready (at_table s address)
  at_table-Ready =
      move_window-Ready (at_dir s) shown _ (omega arith)
        (omega (arith, v.ready.words (s.page_directory / 4096) (table_index address)))

  -- Off the window's own entry, the memory is what it was.
  pub memory-at_table :
      (f i : ℕ)
      → (f == window_table s / 4096 && i == index_in_table s.window_page) ≡ false
      → (at_table s address).memory f i ≡ s.memory f i
  unfolding move_window
  memory-at_table f i off = ground (
    arith,
    off,
    memory-move_window (at_dir s) shown (dir_entry s address - dir_entry s address % 4096)
        (omega arith) (omega (arith, v.ready.words (s.page_directory / 4096) (table_index address)))
        f i,
    memory-move_window s v.ready s.page_directory v.ready.aligned v.ready.small f i,
    window_table-move_window s v.ready s.page_directory v.ready.aligned v.ready.small,
  )

  pub resolve-at_table : resolve (at_table s address) s.window_page ≡ dir_entry s address / 4096
  unfolding move_window
  resolve-at_table =
      resolve-move_window (at_dir s) shown _ (omega arith)
        (omega (arith, v.ready.words (s.page_directory / 4096) (table_index address)))
      ∙ omega arith

-- The window's table, of which the directory entry names the page.
pub window_table_page :
    (s : Mmu) → Ready s → window_table s / 4096 ≡ dir_entry s s.window_page / 4096
unfolding window_table
window_table_page s r =
    ap (λ (t : ℕ). t / 4096) (masked (dir_entry s s.window_page) (r.words _ _)) ∙ omega arith

-- Two pages have different entries.
pub entries_apart :
    (s : Mmu) (v : IsValid s) (a b : ℕ)
    → dir_entry s a % 2 ≡ 1
    → dir_entry s b % 2 ≡ 1
    → a / 4096 ≢ b / 4096
    → (dir_entry s a / 4096 == dir_entry s b / 4096 && index_in_table a == index_in_table b) ≡ false
entries_apart s v a b pa pb other = elim (ℕ_discrete (table_index a) (table_index b)) [
  | yes e ↦ ground (arith, other, e)
  | no ne ↦ ground (arith, v.separate (table_index a) (table_index b) ne pa pb)
]
