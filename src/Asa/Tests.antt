-- ===== src/Asa/Tests.antt =====
-- The theorems on the address-space allocator at a space of eight pages, the first two in use.
use shawn_os.Prelude.{
  ℕ, ◌+◌, ◌*◌, ◌<◌, ◌≤◌, ◌≡◌, refl, arith, [], ◌∷◌, List, some, Option, ok, ◌⊎◌, zero, suc, ◌/◌,
}
use shawn_os.Bits.{bit}
use shawn_os.Bitset.{test_bit, set_bit}
use shawn_os.Bitset.Range.{set_bits}
use shawn_os.Bitset.Laws.{fits_of_all, member}
use shawn_os.Asa.{Kasa, asa_alloc}
use shawn_os.Asa.Alloc.{IsValid, Allocated, asa_alloc-Allocated, asa_alloc_disjoint}
use shawn_os.Asa.Free.{ReservedBelow}

abbrev eight : ℕ → Kasa
eight w = record { pages = record { length = 8; start = w ∷ [] }; page_size = 0x1000 }

eight-IsValid : (w : ℕ) → w < 0x1_0000_0000 → IsValid (eight w)
eight-IsValid w h = record {
  pages_valid = record { covered = omega arith; fits = λ n. fits_of_all (w ∷ []) (h, tt) (n / 32) };
  addressed = omega arith;
}

small-IsValid : IsValid (eight 0x3)
small-IsValid = eight-IsValid 0x3 (omega arith)

two_pages : asa_alloc 2 (eight 0x3) ≡ ok (0x2000, eight 0xf)
unfolding asa_alloc test_bit set_bits set_bit
two_pages = refl

then_three : asa_alloc 3 (eight 0xf) ≡ ok (0x4000, eight 0x7f)
unfolding asa_alloc test_bit set_bits set_bit
then_three = refl

no_room : asa_alloc 3 (eight 0x33) ≡ ok (0, eight 0x33)
unfolding asa_alloc test_bit
no_room = refl

reserved_pages : ReservedBelow 2 (eight 0x3)
unfolding member bit
reserved_pages zero h = refl
reserved_pages (suc zero) h = refl
reserved_pages (suc (suc i)) h = absurd (omega arith)

asa_alloc-Allocated_example : Allocated (eight 0x3) 2 (asa_alloc 2 (eight 0x3))
asa_alloc-Allocated_example = asa_alloc-Allocated 2 (eight 0x3) (omega arith) small-IsValid

asa_alloc_disjoint_example : (0x2000 + 2 * 0x1000 ≤ 0x4000) ⊎ (0x4000 + 3 * 0x1000 ≤ 0x2000)
asa_alloc_disjoint_example =
    asa_alloc_disjoint 2 3 0x2000 0x4000 (eight 0x3) (eight 0xf) (eight 0x7f) (omega arith)
      (omega arith) small-IsValid two_pages (omega arith) then_three (omega arith)

-- 64 pages of 16 MiB, on two words of memory with old contents.
abbrev old_words : List ℕ
old_words = 0xdead_beef ∷ 0x1234_5678 ∷ []

abbrev grants : ℕ → Option (List ℕ)
grants size = some old_words
