-- ===== src/Mmu/Init/Identity.antt =====
-- The loop that maps the first pages to themselves, once their page table is there.
use shawn_os.Prelude.{
  ℕ, zero, suc, ◌+◌, ◌-◌, ◌*◌, ◌/◌, ◌%◌, ◌^◌, ◌≤◌, ◌<◌, ◌≡◌, ◌≢◌, refl, ap, ◌∙◌, arith, true, false,
  ltb, bit_and, bit_or, ok,
}
use mathlib.Core.Path.{subst}
use shawn_os.Bits.{bit_and-one}
use shawn_os.Kernel.{add32, mul32, k_success, kvirt_reserved}
use shawn_os.Bitset.{with_bit}
use shawn_os.Bitset.Laws
use shawn_os.Bitset.Laws.{member, set_bit-ok, member-with_bit, with_bit-IsValid}
use shawn_os.Mmu.{Mmu, address_mask, update, table_index, index_in_table, load, store}
use shawn_os.Mmu.Access.{ensure_table, table_ptr}
use shawn_os.Mmu.Pages.{identity_map_page, write_entry}
use shawn_os.Mmu.Window.{masked, flagged}
use shawn_os.Mmu.Init.{identity_map_kernel}
use shawn_os.Mmu.Init.Fill.{resolve_early, get_virt_ptr_early}

-- What holds before the first iteration, and what the loop leaves alone.
pub record Common (s : Mmu) : Type 0 where
  pub early : s.early_init_done ≡ false
  pub aligned : s.page_directory % 4096 ≡ 0
  pub small : s.page_directory < 2 ^ 32
  pub words : (f i : ℕ) → s.memory f i < 2 ^ 32
  pub others : (i : ℕ) → i ≢ 0 → s.memory (s.page_directory / 4096) i % 2 ≡ 0
  pub bits : Laws.IsValid s.frames.bitset
  pub long : 380 ≤ s.frames.bitset.length

-- The first `k` pages are mapped to themselves through the table, and their frames are in use.
pub record Partial (table k : ℕ) (s : Mmu) : Type 0 where
  pub common : Common s
  pub page : table % 4096 ≡ 0
  pub fits : table < 2 ^ 32 - 4096
  pub own : table ≢ s.page_directory
  pub first : s.memory (s.page_directory / 4096) 0 ≡ table + 3
  pub entries : (i : ℕ) → i < k → s.memory (table / 4096) i ≡ i * 4096 + 3
  pub taken : (n : ℕ) → n < k → member s.frames.bitset n ≡ 1

-- The state after page `k` is mapped.
abbrev pub with_page : ℕ → ℕ → Mmu → Mmu
with_page table k s = record s {
  memory = update s.memory (table / 4096) k (k * 4096 + 3);
  frames = record s.frames { bitset = with_bit s.frames.bitset k };
}

module _ (s : Mmu) (c : Common s) (table : ℕ) (page : table % 4096 ≡ 0)
    (fits : table < 2 ^ 32 - 4096) (first : s.memory (s.page_directory / 4096) 0 ≡ table + 3) where
  load_first : (k : ℕ) → k < 1024 → load s s.page_directory (table_index (k * 4096)) ≡ table + 3
  unfolding load
  load_first k inside =
      ap (λ (f : ℕ). s.memory f (table_index (k * 4096))) (resolve_early s s.page_directory c.early)
      ∙ ap (s.memory (s.page_directory / 4096)) (omega arith)
      ∙ first

  pub ensure_early :
      (k flags : ℕ)
      → k < 1024
      → ensure_table s.page_directory (table_index (k * 4096)) flags s.page_directory s
        ≡ ok (k_success, s.page_directory, s)
  unfolding ensure_table
  ensure_early k flags inside =
      let odd : bit_and (table + 3) 1 ≡ 1 = bit_and-one (table + 3) ∙ omega arith in
      rw (load_first k inside, odd) refl

  table_ptr_early :
      (k : ℕ) → k < 1024 → table_ptr (table_index (k * 4096)) s.page_directory s ≡ ok (table, s)
  unfolding table_ptr
  table_ptr_early k inside =
      let address : bit_and (table + 3) address_mask ≡ table =
        masked (table + 3) (omega arith) ∙ omega arith in
      rw (load_first k inside, address) (get_virt_ptr_early s table c.early page)

  write_early :
      (k : ℕ)
      → k < 1024
      → write_entry (k * 4096) (k * 4096 + 3) s.page_directory s
        ≡ ok (record s { memory = update s.memory (table / 4096) k (k * 4096 + 3) })
  unfolding write_entry store
  write_early k inside =
      let index : index_in_table (k * 4096) ≡ k = omega arith in
      rw (table_ptr_early k inside, index)
        (ap (λ (f : ℕ). ok (record s { memory = update s.memory f k (k * 4096 + 3) }))
          (resolve_early s table c.early))

page_entry : (k : ℕ) → k < 1024 → bit_or (mul32 (k * 4096 / 4096) 4096) 3 ≡ k * 4096 + 3
page_entry k inside =
    flagged (mul32 (k * 4096 / 4096) 4096) 3 (omega arith) (omega arith) ∙ omega arith

-- Page `k` is mapped, where the directory's first entry is the table's.
identity_map_early :
    (s : Mmu) (c : Common s) (table k : ℕ)
    → table % 4096 ≡ 0
    → table < 2 ^ 32 - 4096
    → s.memory (s.page_directory / 4096) 0 ≡ table + 3
    → k < 380
    → identity_map_page s.page_directory (k * 4096) 3 3 s ≡ ok (k * 4096 + 3, with_page table k s)
unfolding identity_map_page
identity_map_early s c table k page fits first inside =
    let aligned : k * 4096 % 4096 ≡ 0 = omega arith in
    let index : k * 4096 / 4096 ≡ k = omega arith in
    let small : k < 1024 = omega arith in
    rw
      (
        aligned,
        get_virt_ptr_early s s.page_directory c.early c.aligned,
        ensure_early s c table page fits first k 3 small,
        page_entry k small,
        write_early s c table page fits first k small,
        index,
        set_bit-ok s.frames.bitset k c.bits (omega (arith, c.long)),
      )
      refl

with_page-Common :
    (table k : ℕ) (s : Mmu)
    → Common s
    → table / 4096 ≢ s.page_directory / 4096
    → k < 380
    → Common (with_page table k s)
unfolding with_bit
with_page-Common table k s c own inside = record {
  early = c.early;
  aligned = c.aligned;
  small = c.small;
  words = λ f i. ground (arith, c.words f i);
  others = λ i ne. ground (arith, own, c.others i ne);
  bits = with_bit-IsValid s.frames.bitset k c.bits (omega (arith, c.long));
  long = c.long;
}

with_page-Partial :
    (table k : ℕ) (s : Mmu)
    → Partial table k s
    → k < 380
    → Partial table (k + 1) (with_page table k s)
with_page-Partial table k s p inside =
    let own : table / 4096 ≢ s.page_directory / 4096 =
      λ e. p.own (omega (arith, p.page, p.common.aligned, e)) in
    record {
      common = with_page-Common table k s p.common own inside;
      page = p.page;
      fits = p.fits;
      own = p.own;
      first = ground (arith, own, p.first);
      entries = λ i below. ground (arith, p.entries i);
      taken = λ n below. ground (
        arith,
        p.taken n,
        member-with_bit s.frames.bitset k p.common.bits (omega (arith, p.common.long)) n,
      );
    }

loop_step :
    (left k table : ℕ) (s : Mmu)
    → k < 380
    → Partial table k s
    → identity_map_kernel (suc left + 1) (k * 4096) s
      ≡ identity_map_kernel (left + 1) ((k + 1) * 4096) (with_page table k s)
unfolding identity_map_kernel
loop_step left k table s below p =
    let more : ltb (k * 4096) kvirt_reserved ≡ true = ground arith in
    let inside : ltb kvirt_reserved (k * 4096) ≡ false = ground arith in
    let next : add32 (k * 4096) 0x1000 ≡ (k + 1) * 4096 = omega arith in
    let fuel : suc left + 1 ≡ suc (left + 1) = omega arith in
    rw (fuel, more, identity_map_early s p.common table k p.page p.fits p.first below, inside, next)
      refl

-- From page `k` on, the loop maps the rest of the 380 pages and stops.
pub identity_map_kernel_lem :
    (left k table : ℕ) (s : Mmu)
    → left + k ≡ 380
    → Partial table k s
    → (t : Mmu) × (identity_map_kernel (left + 1) (k * 4096) s ≡ ok t)
      × Partial table 380 t
      × (t.page_directory ≡ s.page_directory)
      × (t.early ≡ s.early)
unfolding identity_map_kernel
identity_map_kernel_lem zero k table s total p =
    let done : ltb (k * 4096) kvirt_reserved ≡ false = ground arith in
    let all : k ≡ 380 = omega arith in
    (s, rw done refl, subst (λ (n : ℕ). Partial table n s) all p, refl, refl)
identity_map_kernel_lem (suc left) k table s total p =
    let (t, run, q, d, e) =
      identity_map_kernel_lem left (k + 1) table (with_page table k s) (omega arith)
        (with_page-Partial table k s p (omega arith)) in
    (t, loop_step left k table s (omega arith) p ∙ run, q, d, e)
