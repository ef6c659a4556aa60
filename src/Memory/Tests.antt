-- ===== src/Memory/Tests.antt =====
-- Overlapping ranges.
use shawn_os.Prelude.{◌+◌, ◌≡◌, refl}
use shawn_os.Memory.{copy_up, memcpy, memmove}
use shawn_os.Memory.Laws.{memmove_lem}

memmove_lem_example : memmove 102 100 8 (λ a. a + 1) 105 ≡ 104
memmove_lem_example = memmove_lem 102 100 8 (λ a. a + 1) 105

-- The same ranges in the other direction, which `memcpy` does not allow.
copies_twice : memcpy 102 100 8 (λ a. a + 1) 105 ≡ 102
unfolding memcpy copy_up
copies_twice = refl
