-- ===== src/EarlyHeap/Tests.antt =====
-- The theorems on the placement allocator.
use shawn_os.Prelude.{◌≡◌, refl, arith, true, some}
use shawn_os.EarlyHeap.{EarlyHeap, kmalloc_real, kmalloc_ap, aligned, kalloc_page_align, has_flag}
use shawn_os.EarlyHeap.Laws.{IsValid, Placed, kmalloc_real-Placed}

abbrev heap : EarlyHeap
heap = record { start = 0x12_0000; curpos = 0x12_0010 }

heap-IsValid : IsValid heap
heap-IsValid = omega arith

page_of_heap : kmalloc_ap 0x1000 heap ≡ record {
  address = 0x12_1000;
  phys = some 0x12_1000;
  heap = record { start = 0x12_0000; curpos = 0x12_2000 };
}
unfolding kmalloc_ap aligned
page_of_heap = refl

kmalloc_real-Placed_example :
    Placed heap 0x1000 (has_flag 5 kalloc_page_align) (kmalloc_real 0x1000 true 5 heap)
unfolding kmalloc_real aligned
kmalloc_real-Placed_example =
    kmalloc_real-Placed 0x1000 5 true heap heap-IsValid (omega arith) (omega arith)
