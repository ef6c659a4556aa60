-- ===== src/OrderedArray/Tests.antt =====
-- The theorems on the ordered array at three objects in a place for five.
use shawn_os.Prelude.{zero, suc, ◌≡◌, refl, arith, [], ◌∷◌}
use shawn_os.OrderedArray.{OrderedArray, comparator_default, find_index}
use shawn_os.OrderedArray.Insert.{AllBefore, IsSorted}

abbrev three_objects : OrderedArray
unfolding comparator_default
three_objects = record {
  array = 10 ∷ 20 ∷ 30 ∷ 0 ∷ 0 ∷ [];
  size = 3;
  max_size = 5;
  comparator = comparator_default;
}

all_before : AllBefore three_objects 40 3
unfolding comparator_default
all_before zero h = refl
all_before (suc zero) h = refl
all_before (suc (suc zero)) h = refl
all_before (suc (suc (suc k))) h = absurd (omega arith)

sorted : IsSorted three_objects
unfolding comparator_default
sorted zero zero lt h = absurd (omega arith)
sorted zero (suc zero) lt h = refl
sorted zero (suc (suc zero)) lt h = refl
sorted (suc zero) (suc (suc zero)) lt h = refl
sorted (suc zero) (suc zero) lt h = absurd (omega arith)
sorted (suc zero) zero lt h = absurd (omega arith)
sorted (suc (suc j)) zero lt h = absurd (omega arith)
sorted (suc (suc j)) (suc zero) lt h = absurd (omega arith)
sorted (suc (suc j)) (suc (suc zero)) lt h = absurd (omega arith)
sorted j (suc (suc (suc k))) lt h = absurd (omega arith)

front : find_index 3 0 three_objects 5 ≡ 0
unfolding find_index comparator_default
front = refl
