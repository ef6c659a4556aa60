-- ===== src/Mmu/Init/Fill.antt =====
-- Before early initialisation is done: pointers are addresses, and `memset32` fills a frame.
use shawn_os.Prelude.{
  ℕ, zero, suc, ◌+◌, ◌/◌, ◌%◌, ◌≤◌, ◌<◌, ◌≡◌, ◌≢◌, refl, ap, sym, ◌∙◌, arith, Bool, true, false,
  ◌&&◌, ◌==◌, ltb, leb, if◌then◌else◌, ok,
}
use shawn_os.Kernel.{page_size, add32}
use shawn_os.EarlyHeap.{EarlyHeap, max_size, aligned, kmalloc_real, has_flag}
use shawn_os.EarlyHeap.Laws
use shawn_os.EarlyHeap.Laws.{aligned_lem}
use shawn_os.Mmu.{Mmu, update, resolve, store}
use shawn_os.Mmu.Access.{memset32, get_virt_ptr}

pub resolve_early : (s : Mmu) (virt : ℕ) → s.early_init_done ≡ false → resolve s virt ≡ virt / 4096
unfolding resolve
resolve_early s virt early = rw early refl

pub get_virt_ptr_early :
    (s : Mmu) (phys : ℕ)
    → s.early_init_done ≡ false
    → phys % 4096 ≡ 0
    → get_virt_ptr phys s ≡ ok (phys, s)
unfolding get_virt_ptr
get_virt_ptr_early s phys early page = rw (page, early) refl

-- The memory with `left` words of a frame set, from word `index` on.
unfoldable pub filled : ℕ → ℕ → ℕ → ℕ → (ℕ → ℕ → ℕ) → ℕ → ℕ → ℕ
filled zero index frame value memory = memory
filled (suc left) index frame value memory =
    filled left (index + 1) frame value (update memory frame index value)

pub filled_lem :
    (left index frame value : ℕ) (memory : ℕ → ℕ → ℕ) (f i : ℕ)
    → filled left index frame value memory f i
      ≡ (if f == frame && (leb index i && ltb i (index + left)) then value else memory f i)
unfolding filled
filled_lem zero index frame value memory f i = ground arith
filled_lem (suc left) index frame value memory f i =
    filled_lem left (index + 1) frame value (update memory frame index value) f i ∙ ground arith

pub memset32-filled :
    (left index virt value : ℕ) (s : Mmu)
    → s.early_init_done ≡ false
    → memset32 left index virt value s
      ≡ record s { memory = filled left index (virt / 4096) value s.memory }
unfolding memset32 filled store
memset32-filled zero index virt value s early = refl
memset32-filled (suc left) index virt value s early =
    ap
      (λ (f : ℕ).
        memset32 left (index + 1) virt value (record s { memory = update s.memory f index value }))
      (resolve_early s virt early)
    ∙ memset32-filled left (index + 1) virt value
        (record s { memory = update s.memory (virt / 4096) index value }) early

-- A critical, page-aligned request for which there is room.
pub kmalloc_room :
    (size : ℕ) (wants_phys : Bool) (s : EarlyHeap)
    → Laws.IsValid s
    → size + s.curpos + page_size ≤ s.start + max_size
    → (kmalloc_real size wants_phys 5 s).address ≢ 0
unfolding kmalloc_real
kmalloc_room size wants_phys s v room e =
    let over : ltb (add32 s.start max_size) (add32 (add32 size s.curpos) page_size) ≡ false =
      ground (arith, v.room) in
    let flag : has_flag 5 1 ≡ true = refl in
    let align : has_flag 5 4 ≡ true = refl in
    let (up, near, divides) = aligned_lem true s.curpos (omega (arith, v.above, v.room)) in
    absurd (
      positive (aligned true s.curpos) (omega (arith, v.above_zero, v.below, up))
        (sym (rw over (rw flag (rw align refl))) ∙ e))
  where
    positive : (a : ℕ) → 0 < a → a ≢ 0
    positive a h z = omega arith
