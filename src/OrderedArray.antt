-- ===== src/OrderedArray.antt =====
-- kernel/kernel/ordered_array.c: a sorted array of pointers. No part of the kernel uses it yet.
-- `array` is the memory at the array's address; a write behind its end is lost.
pub mod Insert
pub mod Remove
mod Tests
use shawn_os.Prelude.{
  ℕ, zero, suc, ◌+◌, ◌-◌, ◌*◌, ◌/◌, ◌^◌, Bool, true, false, Option, none, some, List, [], ◌∷◌, ltb,
  leb, ◌==◌, if◌then◌else◌, get_or, set, Outcome, ok, out_of_fuel, ◌>>=◌,
}
use shawn_os.Kernel.{add32, sub32, mul32}
use shawn_os.Bitset.{zero_words}

-- A comparator returns an `int32_t` by its bit pattern.
abbrev pub Comparator : Type 0
Comparator = ℕ → ℕ → ℕ

pub record OrderedArray : Type 0 where
  pub array : List ℕ
  pub size : ℕ
  pub max_size : ℕ
  pub comparator : Comparator

unfoldable pub comparator_default : Comparator
comparator_default a b = sub32 a b

-- `comparator(a, b) >= 0`
abbrev pub not_before : Comparator → ℕ → ℕ → Bool
not_before c a b = ltb (c a b) (2 ^ 31)

-- `size` is what the uninitialised field of the structure holds: the function never sets it.
unfoldable pub create : List ℕ → ℕ → ℕ → Option Comparator → OrderedArray
unfolding comparator_default
create memory size max_size comparator = record {
  array = zero_words (mul32 max_size 4 / 4) memory;
  size = size;
  max_size = max_size;
  comparator = elim comparator [ none ↦ comparator_default | some c ↦ c ];
}

-- The first index from `i` on whose object does not come before the new one.
unfoldable pub find_index : ℕ → ℕ → OrderedArray → ℕ → ℕ
find_index zero i a object = i
find_index (suc left) i a object =
    let rest = find_index left (i + 1) a object in
    if not_before a.comparator (get_or a.array i 0) object then i else rest

-- `for (j = size - 1; j <= i; j--) array[j + 1] = array[j]`, with `j` a `uint32_t`.
unfoldable pub shift_up : ℕ → ℕ → ℕ → List ℕ → Outcome (List ℕ)
shift_up zero j i xs = out_of_fuel
shift_up (suc fuel) j i xs =
    let rest = shift_up fuel (sub32 j 1) i (set xs (add32 j 1) (get_or xs j 0)) in
    if leb j i then rest else ok xs

-- The loop makes a round for each object at most, and its last test.
unfoldable pub insert : OrderedArray → ℕ → Outcome (Bool × OrderedArray)
insert a object =
    let i = find_index a.size 0 a object in
    if leb a.max_size a.size
    then ok (false, a)
    else if i == a.size
    then ok (true, record a { array = set a.array a.size object; size = add32 a.size 1 })
    else (shift_up (a.size + 1) (sub32 a.size 1) i a.array >>= λ xs.
        ok (true, record a { array = set xs i object; size = add32 a.size 1 }))

-- 0 is `NULL`.
unfoldable pub get : OrderedArray → ℕ → ℕ
get a index = if ltb a.size index then 0 else get_or a.array index 0

-- `while (index < size) { array[index] = array[index + 1]; ++index; }`
unfoldable pub shift_down : ℕ → ℕ → List ℕ → List ℕ
shift_down zero index xs = xs
shift_down (suc left) index xs =
    shift_down left (index + 1) (set xs index (get_or xs (index + 1) 0))

unfoldable pub remove : OrderedArray → ℕ → Bool × OrderedArray
remove a index = if ltb a.size index then (false, a) else (
  true,
  record a { array = shift_down (a.size - index) index a.array; size = sub32 a.size 1 },
)
