-- ===== src/Mmu/Window.antt =====
-- The window page: where a new pointer leads, and what obtaining it changes.
use shawn_os.Prelude.{
  ℕ, ◌+◌, ◌-◌, ◌*◌, ◌/◌, ◌%◌, ◌^◌, ◌<◌, ◌≡◌, ◌≢◌, refl, ap, sym, ◌∙◌, arith, true, false, ◌&&◌,
  ◌==◌, if◌then◌else◌, bit_and, bit_or, Bool-cases, inl, inr, ok,
}
use shawn_os.Bits.{bit_or-low, bit_or-high, bit_and-high}
use shawn_os.Mmu.{Mmu, address_mask, table_index, index_in_table, window_table, resolve}
use shawn_os.Mmu.Access.{move_window, get_virt_ptr}

-- After early initialisation: the directory is a page of its own, reached at its own address, and
-- the table of the window is another page. Each word of the memory has 32 bits.
pub record Ready (s : Mmu) : Type 0 where
  pub done : s.early_init_done ≡ true
  pub aligned : s.page_directory % 4096 ≡ 0
  pub small : s.page_directory < 2 ^ 32
  pub apart : s.page_directory ≢ s.window_page
  pub own_table : window_table s / 4096 ≢ s.page_directory / 4096
  pub words : (f i : ℕ) → s.memory f i < 2 ^ 32

pub masked : (w : ℕ) → w < 2 ^ 32 → bit_and w address_mask ≡ w - w % 4096
masked w h = bit_and-high 32 12 w (omega arith) h

-- `phys | flags` for a page's address
pub flagged : (phys flags : ℕ) → phys % 4096 ≡ 0 → flags < 4096 → bit_or phys flags ≡ phys + flags
flagged phys flags aligned small =
    let page : phys ≡ phys / 4096 * 2 ^ 12 = omega arith in
    ap (λ (t : ℕ). bit_or t flags) page ∙ bit_or-low 12 (phys / 4096) flags small ∙ omega arith

window_word : (phys : ℕ) → phys % 4096 ≡ 0 → bit_or (bit_or phys 1) 2 ≡ phys + 3
window_word phys aligned =
    let page : phys + 1 ≡ phys / 4096 * 2 ^ 12 + 1 = omega arith in
    ap (λ (t : ℕ). bit_or t 2) (flagged phys 1 aligned (omega arith) ∙ page)
    ∙ bit_or-high 12 (phys / 4096) 1 2 (omega arith) (omega arith)
    ∙ omega arith

resolve_window :
    (s : Mmu)
    → s.early_init_done ≡ true
    → resolve s s.window_page
      ≡ bit_and (s.memory (window_table s / 4096) (index_in_table s.window_page)) address_mask
        / 4096
unfolding resolve
resolve_window s done =
    let same : (s.window_page == s.window_page) ≡ true = ground arith in rw (done, same) refl

pub resolve_other : (s : Mmu) (virt : ℕ) → virt ≢ s.window_page → resolve s virt ≡ virt / 4096
unfolding resolve
resolve_other s virt ne =
    let other : (virt == s.window_page) ≡ false = ground (arith, ne) in
    elim (Bool-cases s.early_init_done) [ inl e ↦ rw (e, other) refl | inr e ↦ rw e refl ]

module _ (s : Mmu) (r : Ready s) (phys : ℕ) (page : phys % 4096 ≡ 0) (fits : phys < 2 ^ 32) where
  pub get_virt_ptr_ready : get_virt_ptr phys s ≡ ok (s.window_page, move_window phys s)
  unfolding get_virt_ptr
  get_virt_ptr_ready = rw (page, r.done) refl

  pub memory-move_window :
      (f i : ℕ)
      → (move_window phys s).memory f i ≡ (
          if f == window_table s / 4096 && i == index_in_table s.window_page
          then phys + 3
          else s.memory f i)
  unfolding move_window
  memory-move_window f i = rw (window_word phys page) refl

  pub window_table-move_window : window_table (move_window phys s) ≡ window_table s
  unfolding window_table move_window
  window_table-move_window =
      ap (λ (w : ℕ). bit_and w address_mask)
        (ground (
          arith,
          r.own_table,
          memory-move_window (s.page_directory / 4096) (table_index s.window_page),
        ))

  pub move_window-Ready : Ready (move_window phys s)
  unfolding move_window
  move_window-Ready = record {
    done = r.done;
    aligned = r.aligned;
    small = r.small;
    apart = r.apart;
    own_table = λ e. r.own_table (ap (λ (t : ℕ). t / 4096) (sym window_table-move_window) ∙ e);
    words = λ f i. ground (arith, memory-move_window f i, r.words f i);
  }

  -- The new pointer leads to the page that it was obtained for.
  pub resolve-move_window : resolve (move_window phys s) s.window_page ≡ phys / 4096
  unfolding move_window
  resolve-move_window =
      resolve_window (move_window phys s) move_window-Ready.done
      ∙ ap (λ (w : ℕ). bit_and w address_mask / 4096) entry
      ∙ omega (arith, masked (phys + 3) (omega arith))
    where
      entry :
          (move_window phys s).memory
            (window_table (move_window phys s) / 4096)
            (index_in_table (move_window phys s).window_page)
          ≡ phys + 3
      entry = ground (
        arith,
        window_table-move_window,
        memory-move_window (window_table (move_window phys s) / 4096)
            (index_in_table s.window_page),
      )
