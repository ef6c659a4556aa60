-- ===== src/Memory/Laws.antt =====
-- A move copies the bytes as they were, whether or not the two ranges overlap.
use shawn_os.Prelude.{
  ℕ, zero, suc, ◌+◌, ◌-◌, ◌≤◌, ◌<◌, ◌≡◌, ap, ◌∙◌, arith, Bool-cases, inl, inr, ◌&&◌, ltb, leb,
  ltb→lt, if◌then◌else◌,
}
use native.Mathlib.Decide.{ℕ_discrete}
use shawn_os.Memory.{put, copy_up, copy_down, memmove}

-- The byte at `a` once the bytes from place `i` on, up to place `end`, are copied.
abbrev copied_range : ℕ → ℕ → ℕ → ℕ → (ℕ → ℕ) → ℕ → ℕ
copied_range i end dst src memory a =
    if leb (dst + i) a && ltb a (dst + end) then memory (src + (a - dst)) else memory a

range_first :
    (left i dst src : ℕ) (memory : ℕ → ℕ) (a : ℕ)
    → dst < src
    → copied_range (i + 1) (i + 1 + left) dst src (put (dst + i) (memory (src + i)) memory) a
      ≡ copied_range i (i + suc left) dst src memory a
range_first left i dst src memory a below = elim (ℕ_discrete a (dst + i)) [
  | yes e ↦ let place : src + (a - dst) ≡ src + i = omega arith in ground (arith, ap memory place)
  | no ne ↦ ground (arith, ne)
]

copy_up_lem :
    (left i dst src : ℕ) (memory : ℕ → ℕ) (a : ℕ)
    → dst < src
    → copy_up left i dst src memory a ≡ copied_range i (i + left) dst src memory a
unfolding copy_up
copy_up_lem zero i dst src memory a below = ground arith
copy_up_lem (suc left) i dst src memory a below =
    copy_up_lem left (i + 1) dst src (put (dst + i) (memory (src + i)) memory) a below
    ∙ range_first left i dst src memory a below

range_last :
    (i dst src : ℕ) (memory : ℕ → ℕ) (a : ℕ)
    → src ≤ dst
    → copied_range 0 i dst src (put (dst + i) (memory (src + i)) memory) a
      ≡ copied_range 0 (suc i) dst src memory a
range_last i dst src memory a above = elim (ℕ_discrete a (dst + i)) [
  | yes e ↦ let place : src + (a - dst) ≡ src + i = omega arith in ground (arith, ap memory place)
  | no ne ↦ ground (arith, ne)
]

copy_down_lem :
    (i dst src : ℕ) (memory : ℕ → ℕ) (a : ℕ)
    → src ≤ dst
    → copy_down i dst src memory a ≡ copied_range 0 i dst src memory a
unfolding copy_down
copy_down_lem zero dst src memory a above = ground arith
copy_down_lem (suc i) dst src memory a above =
    copy_down_lem i dst src (put (dst + i) (memory (src + i)) memory) a above
    ∙ range_last i dst src memory a above

-- After `memmove` of any number of bytes between any two places, overlapping or not, each byte of
-- the destination is the one that the source held before, and every other byte is as it was.
pub memmove_lem :
    (dst src size : ℕ) (memory : ℕ → ℕ) (a : ℕ)
    → memmove dst src size memory a
      ≡ (if leb dst a && ltb a (dst + size) then memory (src + (a - dst)) else memory a)
unfolding memmove
memmove_lem dst src size memory a = elim (Bool-cases (ltb dst src)) [
  | inl below ↦ rw below (copy_up_lem size 0 dst src memory a (ltb→lt dst src below) ∙ ground arith)
  | inr above ↦
      rw above (copy_down_lem size dst src memory a (ground (arith, above)) ∙ ground arith)
]
