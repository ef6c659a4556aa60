-- ===== src/EarlyHeap/Laws.antt =====
-- The placement allocator hands out aligned blocks, one behind the other, within its bounds.
use shawn_os.Prelude.{
  ℕ, ◌+◌, ◌-◌, ◌%◌, ◌^◌, ◌≤◌, ◌<◌, ◌≡◌, ◌≢◌, refl, arith, Bool, true, false, ltb, if◌then◌else◌,
  bit_and, inl, inr, Bool-cases,
}
use shawn_os.Bits.{bit_and-high}
use shawn_os.Kernel.{add32, page_size}
use shawn_os.EarlyHeap.{
  EarlyHeap, max_size, kalloc_critical, kalloc_page_align, has_flag, aligned, Allocation,
  kmalloc_real,
}

-- The position lies in the heap, and the heap does not reach the end of the address space.
pub record IsValid (s : EarlyHeap) : Type 0 where
  pub above_zero : 0 < s.start
  pub below : s.start ≤ s.curpos
  pub above : s.curpos ≤ s.start + max_size
  pub room : s.start + max_size + page_size < 2 ^ 32

page_down : (w : ℕ) → w < 2 ^ 32 → bit_and w 0xffff_f000 ≡ w - w % 0x1000
page_down w h = bit_and-high 32 12 w (omega arith) h

-- The alignment that a request gets.
abbrev pub alignment : Bool → ℕ
alignment page_align = if page_align then page_size else 8

pub aligned_lem :
    (page_align : Bool) (p : ℕ)
    → p + page_size < 2 ^ 32
    → (p ≤ aligned page_align p)
      × (aligned page_align p < p + alignment page_align)
      × (aligned page_align p % alignment page_align ≡ 0)
unfolding aligned
aligned_lem true p h = ground (arith, page_down p (omega arith))
aligned_lem false p h = ground arith

-- What holds of an allocation that succeeds.
pub record Placed (s : EarlyHeap) (size : ℕ) (page_align : Bool) (r : Allocation) : Type 0 where
  pub behind : s.curpos ≤ r.address
  pub near : r.address < s.curpos + alignment page_align
  pub aligns : r.address % alignment page_align ≡ 0
  pub moves : r.heap.curpos ≡ r.address + size
  pub inside : r.address + size ≤ s.start + max_size
  pub valid : IsValid r.heap
  pub same_start : r.heap.start ≡ s.start

-- `i386_mem_kmalloc_real` on a critical request whose size does not overflow the bounds check: if
-- it does not return 0, then the block starts at or behind all earlier ones and less than an
-- alignment behind them, is aligned as asked (to a page, or to 8 bytes), ends within the early heap,
-- and the state moves to its end and stays valid.
pub kmalloc_real-Placed :
    (size flags : ℕ) (wants_phys : Bool) (s : EarlyHeap)
    → IsValid s
    → size + s.curpos + page_size < 2 ^ 32
    → (kmalloc_real size wants_phys flags s).address ≢ 0
    → Placed s size (has_flag flags kalloc_page_align) (kmalloc_real size wants_phys flags s)
unfolding kmalloc_real
kmalloc_real-Placed size flags wants_phys s v fits ne =
    elim (Bool-cases (has_flag flags kalloc_critical)) [
      | inl critical ↦
          elim (Bool-cases (ltb (add32 s.start max_size) (add32 (add32 size s.curpos) page_size))) [
            | inl over ↦ absurd (ne (rw (critical, over) refl))
            | inr within ↦
                let (up, near, divides) =
                  aligned_lem (has_flag flags kalloc_page_align) s.curpos
                    (omega (arith, v.above, v.room)) in
                let short : alignment (has_flag flags kalloc_page_align) ≤ page_size =
                  ground arith in
                let last : size + s.curpos + page_size ≤ s.start + max_size =
                  ground (arith, v.room) in
                rw (critical, within)
                  (record {
                    behind = up;
                    near = near;
                    aligns = divides;
                    moves = omega (arith, v.room);
                    inside = omega arith;
                    valid = record {
                      above_zero = v.above_zero;
                      below = omega (arith, v.below, v.room);
                      above = omega (arith, v.room);
                      room = v.room;
                    };
                    same_start = refl;
                  })
          ]
      | inr other ↦ absurd (ne (rw other refl))
    ]

-- A failed request, by its flags or for lack of room, returns 0 and changes nothing.
kmalloc_real-zero :
    (size flags : ℕ) (wants_phys : Bool) (s : EarlyHeap)
    → IsValid s
    → (kmalloc_real size wants_phys flags s).address ≡ 0
    → (kmalloc_real size wants_phys flags s).heap ≡ s
unfolding kmalloc_real
kmalloc_real-zero size flags wants_phys s v z = ground (
  arith,
  v.above_zero,
  v.below,
  aligned_lem (has_flag flags kalloc_page_align) s.curpos (omega (arith, v.above, v.room)),
)

-- The check for room does not hold for a size that makes its sum wrap: such a request succeeds,
-- and moves the allocator back in front of the block that it returns.
kmalloc_real_wraps :
    (size : ℕ) (wants_phys : Bool) (s : EarlyHeap)
    → IsValid s
    → s.curpos % 8 ≡ 0
    → size < 2 ^ 32
    → 2 ^ 32 ≤ size + s.curpos
    → size + s.curpos + page_size ≤ 2 ^ 32 + s.start + max_size
    → let r = kmalloc_real size wants_phys kalloc_critical s in
      (r.address ≡ s.curpos) × (r.heap.curpos < s.curpos)
unfolding kmalloc_real aligned
kmalloc_real_wraps size wants_phys s v even small wraps room =
    let within : ltb (add32 s.start max_size) (add32 (add32 size s.curpos) page_size) ≡ false =
      ground (arith, v.room) in
    rw (within, stays) (refl, omega (arith, v.room, v.above))
  where
    stays : aligned false s.curpos ≡ s.curpos
    stays = ground arith
