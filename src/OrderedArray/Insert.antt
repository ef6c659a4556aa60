-- ===== src/OrderedArray/Insert.antt =====
-- `ordered_array_insert`: the end of the array is right, the middle is not.
use shawn_os.Prelude.{
  ◌%◌, ℕ, zero, suc, ◌+◌, ◌^◌, ◌≤◌, ◌<◌, ◌≡◌, refl, arith, true, false, List, leb, ◌==◌, get_or,
  set, length, get_or-set_self, get_or-set_ne, ok,
}
use native.Mathlib.Decide.{ℕ_discrete}
use shawn_os.Kernel.{add32, sub32}
use shawn_os.OrderedArray.{OrderedArray, not_before, find_index, shift_up, insert}

-- The object at each index below `n` comes before the new one.
abbrev pub AllBefore : OrderedArray → ℕ → ℕ → Type 0
AllBefore a object n = (k : ℕ) → k < n → not_before a.comparator (get_or a.array k 0) object ≡ false

-- The objects stand in the order of the comparator.
abbrev pub IsSorted : OrderedArray → Type 0
IsSorted a =
    (j k : ℕ)
    → j < k
    → k < a.size
    → not_before a.comparator (get_or a.array j 0) (get_or a.array k 0) ≡ false

find_index_end :
    (left i : ℕ) (a : OrderedArray) (object : ℕ)
    → ((k : ℕ) → i ≤ k → k < i + left → not_before a.comparator (get_or a.array k 0) object ≡ false)
    → find_index left i a object ≡ i + left
unfolding find_index
find_index_end zero i a object before = omega arith
find_index_end (suc left) i a object before = rw (before i (omega arith) (omega arith)) (
    omega (
      arith,
      find_index_end left (i + 1) a object (λ k lo hi. before k (omega arith) (omega arith)),
    ))

-- An object behind all others is appended: the array stays sorted, keeps the others in their
-- places, and ends in the new object.
insert_end :
    (a : OrderedArray) (object : ℕ)
    → a.size < a.max_size
    → a.max_size ≤ length a.array
    → a.max_size < 2 ^ 32
    → AllBefore a object a.size
    → IsSorted a
    → (a' : OrderedArray) × (insert a object ≡ ok (true, a'))
      × (a'.size ≡ a.size + 1)
      × IsSorted a'
      × (get_or a'.array a.size 0 ≡ object)
      × ((k : ℕ) → k < a.size → get_or a'.array k 0 ≡ get_or a.array k 0)
unfolding insert
insert_end a object room memory small before sorted = (
  record a { array = set a.array a.size object; size = a.size + 1 },
  rw (not_full, at_end, one_more) refl,
  refl,
  λ j k lt in_size. elim (ℕ_discrete k a.size) [
    | yes e ↦ rw (e, new, kept j (omega arith)) (before j (omega arith))
    | no ne ↦ rw (kept j (omega arith), kept k (omega arith)) (sorted j k lt (omega arith))
  ],
  new,
  kept,
)
  where
    not_full : leb a.max_size a.size ≡ false
    not_full = ground arith

    at_end : (find_index a.size 0 a object == a.size) ≡ true
    at_end = ground (arith, find_index_end a.size 0 a object (λ k lo hi. before k (omega arith)))

    one_more : add32 a.size 1 ≡ a.size + 1
    one_more = omega arith

    new : get_or (set a.array a.size object) a.size 0 ≡ object
    new = get_or-set_self a.array a.size object 0 (omega arith)

    kept : (k : ℕ) → k < a.size → get_or (set a.array a.size object) k 0 ≡ get_or a.array k 0
    kept k h = get_or-set_ne a.array a.size k object 0 (omega arith)

shift_up-stops : (fuel j i : ℕ) (xs : List ℕ) → leb j i ≡ false → shift_up (suc fuel) j i xs ≡ ok xs
unfolding shift_up
shift_up-stops fuel j i xs e = rw (e) refl

-- An object that belongs in front of two others or more overwrites the first of them: nothing is
-- moved up, and the size counts a slot that was never written.
insert_overwrites :
    (a : OrderedArray) (object : ℕ)
    → a.size < a.max_size
    → a.max_size < 2 ^ 32
    → find_index a.size 0 a object + 1 < a.size
    → insert a object
      ≡ ok (
        true,
        record a { array = set a.array (find_index a.size 0 a object) object; size = a.size + 1 },
      )
unfolding insert
insert_overwrites a object room small inside =
    let not_full : leb a.max_size a.size ≡ false = ground arith in
    let not_end : (find_index a.size 0 a object == a.size) ≡ false = ground arith in
    let at_once : leb (sub32 a.size 1) (find_index a.size 0 a object) ≡ false = ground arith in
    let one_more : suc a.size % 2 ^ 32 ≡ suc a.size = omega arith in
    let rounds : a.size + 1 ≡ suc a.size = omega arith in
    rw
      (
        not_full,
        not_end,
        rounds,
        shift_up-stops a.size (sub32 a.size 1) (find_index a.size 0 a object) a.array at_once,
        one_more,
      )
      refl
