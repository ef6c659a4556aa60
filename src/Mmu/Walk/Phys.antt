-- ===== src/Mmu/Walk/Phys.antt =====
-- `i386_page_get_phys` finds what the processor's walk finds.
use shawn_os.Prelude.{
  ℕ, ◌-◌, ◌/◌, ◌%◌, ◌^◌, ◌<◌, ◌≡◌, ◌≢◌, refl, ap, ◌∙◌, arith, ◌&&◌, ◌==◌, if◌then◌else◌, bit_and,
  ok,
}
use native.Mathlib.Decide.{ℕ_discrete}
use shawn_os.Bits.{bit_and-one}
use shawn_os.Mmu.{Mmu, address_mask, table_index, index_in_table, load}
use shawn_os.Mmu.Access.{move_window}
use shawn_os.Mmu.Pages.{page_get_phys}
use shawn_os.Mmu.Window.{masked, memory-move_window, move_window-Ready}
use shawn_os.Mmu.Walk.{
  dir_entry, table_entry, walk, leaf, walk_cong, IsValid, at_dir, at_table, dir_ptr, load_dir,
  table_ptr_dir, memory-at_table, resolve-at_table, window_table_page, entries_apart,
}

-- Moving the window changes no translation but its own.
pub record Moved (s s' : Mmu) : Type 0 where
  pub valid : IsValid s'
  pub same_dir : s'.page_directory ≡ s.page_directory
  pub same_window : s'.window_page ≡ s.window_page
  pub same_walk : (b : ℕ) → b / 4096 ≢ s.window_page / 4096 → walk s' b ≡ walk s b

module _ (s : Mmu) (v : IsValid s) (phys : ℕ) (page : phys % 4096 ≡ 0) (fits : phys < 2 ^ 32) where
  dir-move_window :
      (i : ℕ)
      → (move_window phys s).memory (s.page_directory / 4096) i
        ≡ s.memory (s.page_directory / 4096) i
  dir-move_window i = ground (
    arith,
    v.ready.own_table,
    memory-move_window s v.ready phys page fits (s.page_directory / 4096) i,
  )

  table-move_window :
      (b : ℕ)
      → dir_entry s b % 2 ≡ 1
      → b / 4096 ≢ s.window_page / 4096
      → (move_window phys s).memory (dir_entry s b / 4096) (index_in_table b) ≡ table_entry s b
  table-move_window b present other = ground (
    arith,
    memory-move_window s v.ready phys page fits (dir_entry s b / 4096) (index_in_table b),
    window_table_page s v.ready,
    entries_apart s v b s.window_page present v.window_present other,
  )

  move_window-Moved : Moved s (move_window phys s)
  unfolding move_window
  move_window-Moved = record {
    valid = record {
      ready = move_window-Ready s v.ready phys page fits;
      window_present = ap (λ (w : ℕ). w % 2) (dir-move_window _) ∙ v.window_present;
      off_dir = λ i present. ground (arith, dir-move_window i, v.off_dir i);
      separate =
          λ i j ne pi pj. ground (arith, dir-move_window i, dir-move_window j, v.separate i j ne);
    };
    same_dir = refl;
    same_window = refl;
    same_walk = λ b other.
        walk_cong s (move_window phys s) b (dir-move_window (table_index b))
          (λ present. table-move_window b present other);
  }

Moved-trans : (s t u : Mmu) → Moved s t → Moved t u → Moved s u
Moved-trans s t u a b = record {
  valid = b.valid;
  same_dir = b.same_dir ∙ a.same_dir;
  same_window = b.same_window ∙ a.same_window;
  same_walk = λ x other. b.same_walk x (omega (arith, a.same_window, other)) ∙ a.same_walk x other;
}

pub at_dir-Moved : (s : Mmu) → IsValid s → Moved s (at_dir s)
at_dir-Moved s v = move_window-Moved s v s.page_directory v.ready.aligned v.ready.small

pub at_table-Moved : (s : Mmu) → IsValid s → (address : ℕ) → Moved s (at_table s address)
at_table-Moved s v address = Moved-trans s (at_dir s) (at_table s address) (at_dir-Moved s v) (
    move_window-Moved (at_dir s) (at_dir-Moved s v).valid
      (dir_entry s address - dir_entry s address % 4096) (omega arith)
      (omega (arith, v.ready.words (s.page_directory / 4096) (table_index address))))

-- The entry of an address that is not the window's, once the window shows its table.
pub load_entry :
    (s : Mmu) (v : IsValid s) (address : ℕ)
    → dir_entry s address % 2 ≡ 1
    → address / 4096 ≢ s.window_page / 4096
    → load (at_table s address) s.window_page (index_in_table address) ≡ table_entry s address
unfolding load
load_entry s v address present other =
    ap (λ (f : ℕ). (at_table s address).memory f (index_in_table address))
      (resolve-at_table s v address present)
    ∙ memory-at_table s v address present (dir_entry s address / 4096) (index_in_table address) (
        ap
          (λ (f : ℕ).
            dir_entry s address / 4096 == f
            && index_in_table address == index_in_table s.window_page)
          (window_table_page s v.ready)
        ∙ entries_apart s v address s.window_page present v.window_present other)

pub absent_value : (s : Mmu) (address : ℕ) → dir_entry s address % 2 ≡ 0 → walk s address ≡ 0
unfolding walk leaf
absent_value s address absent = rw absent refl

entry_value :
    (s : Mmu) (v : IsValid s) (address : ℕ)
    → dir_entry s address % 2 ≡ 1
    → (if bit_and (table_entry s address) 1 == 0
        then 0
        else bit_and (table_entry s address) address_mask)
      ≡ walk s address
unfolding walk leaf
entry_value s v address present = ground (
  arith,
  present,
  bit_and-one (table_entry s address),
  masked (table_entry s address) (v.ready.words _ _),
)

-- After early initialisation, for an address in another page than the window,
-- `i386_page_get_phys` returns what the processor's walk finds, and moves the window alone.
pub page_get_phys-walk :
    (s : Mmu) (address : ℕ)
    → IsValid s
    → address / 4096 ≢ s.window_page / 4096
    → (s' : Mmu) × (page_get_phys s.page_directory address s ≡ ok (walk s address, s')) × Moved s s'
unfolding page_get_phys
page_get_phys-walk s address v other = elim (ℕ_discrete (dir_entry s address % 2) 0) [
  | yes absent ↦ (
    at_dir s,
    rw
        (
          dir_ptr s v.ready,
          load_dir s v.ready (table_index address),
          bit_and-one (dir_entry s address),
          absent,
          absent_value s address absent,
        )
        refl,
    at_dir-Moved s v,
  )
  | no present ↦ (
    at_table s address,
    rw
        (
          dir_ptr s v.ready,
          load_dir s v.ready (table_index address),
          bit_and-one (dir_entry s address),
          is_one present,
          table_ptr_dir s v address (is_one present),
          load_entry s v address (is_one present) other,
          entry_value s v address (is_one present),
        )
        refl,
    at_table-Moved s v address,
  )
]
  where
    is_one : dir_entry s address % 2 ≢ 0 → dir_entry s address % 2 ≡ 1
    is_one present = omega arith
