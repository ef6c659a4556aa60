-- ===== src/OrderedArray/Remove.antt =====
-- `ordered_array_remove`: what it does at each index that it lets through.
use shawn_os.Prelude.{
  ℕ, zero, suc, ◌+◌, ◌-◌, ◌^◌, ◌≤◌, ◌<◌, ◌≡◌, refl, arith, true, false, List, ltb, ◌==◌,
  if◌then◌else◌, get_or, set, length, length-set, get_or-set_self, get_or-set_ne, ap,
}
use native.Mathlib.Decide.{ℕ_discrete}
use shawn_os.Kernel.{sub32}
use shawn_os.OrderedArray.{OrderedArray, shift_down, remove}

get_or-shift_down :
    (left index k : ℕ) (xs : List ℕ)
    → index + left ≤ length xs
    → get_or (shift_down left index xs) k 0 ≡ (
        if ltb k index
        then get_or xs k 0
        else (if ltb k (index + left) then get_or xs (k + 1) 0 else get_or xs k 0))
unfolding shift_down
get_or-shift_down zero index k xs fits = ground arith
get_or-shift_down (suc left) index k xs fits = elim (ℕ_discrete index k) [
  | yes e ↦ ground (
    arith,
    get_or-shift_down left (index + 1) k (set xs index (get_or xs (index + 1) 0))
        (omega (arith, length-set {0} xs index (get_or xs (index + 1) 0))),
    get_or-set_self xs index (get_or xs (index + 1) 0) 0 (omega arith),
    ap (λ (t : ℕ). get_or (set xs index (get_or xs (index + 1) 0)) t 0) e,
    ap (λ (t : ℕ). get_or xs (t + 1) 0) e,
  )
  | no ne ↦ ground (
    arith,
    get_or-shift_down left (index + 1) k (set xs index (get_or xs (index + 1) 0))
        (omega (arith, length-set {0} xs index (get_or xs (index + 1) 0))),
    get_or-set_ne xs index k (get_or xs (index + 1) 0) 0 ne,
    get_or-set_ne xs index (k + 1) (get_or xs (index + 1) 0) 0,
  )
]

-- Removing the object at an index below the size moves the objects behind it down by one, keeps
-- those in front of it, and lowers the size by one.
remove_lem :
    (a : OrderedArray) (index : ℕ)
    → index < a.size
    → a.size < length a.array
    → a.size < 2 ^ 32
    → let (done, a') = remove a index in
      (done ≡ true)
      × (a'.size ≡ a.size - 1)
      × ((k : ℕ)
          → k < a'.size
          → get_or a'.array k 0 ≡ get_or a.array (if ltb k index then k else k + 1) 0)
unfolding remove
remove_lem a index inside memory small =
    let test : ltb a.size index ≡ false = ground arith in
    let less : sub32 a.size 1 ≡ a.size - 1 = omega arith in
    rw (test, less)
      (
        refl,
        refl,
        λ k h. ground (arith, get_or-shift_down (a.size - index) index k a.array (omega arith)),
      )

-- The guard lets the index of the size itself through: the call reports success, moves nothing
-- and drops the last object; on an empty array the size wraps round to `0xffffffff`.
remove_at_size :
    (a : OrderedArray)
    → a.size < 2 ^ 32
    → remove a a.size ≡ (true, record a { size = if a.size == 0 then 0xffff_ffff else a.size - 1 })
unfolding remove shift_down
remove_at_size a small =
    let test : ltb a.size a.size ≡ false = ground arith in
    let none_left : a.size - a.size ≡ 0 = omega arith in
    let less : sub32 a.size 1 ≡ (if a.size == 0 then 0xffff_ffff else a.size - 1) = ground arith in
    rw (test, none_left, less) refl
