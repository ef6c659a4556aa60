-- ===== src/Heap/Sections/Mark.antt =====
-- Marking by words and bits does what marking each section would do.
use shawn_os.Prelude.{
  ℕ, zero, suc, ◌+◌, ◌-◌, ◌*◌, ◌/◌, ◌%◌, ◌≤◌, ◌<◌, ◌≡◌, refl, arith, ◌&&◌, ltb, leb, ◌==◌,
  if◌then◌else◌, set, length, length-set, get_or, get_or-set_self, get_or-set_ne, Outcome, ok, inl,
  inr, Bool-cases, ap,
}
use native.Mathlib.Decide.{ℕ_discrete}
use shawn_os.Bits.{bit-ones}
use shawn_os.Bitset.{Bitset, word, with_bit}
use shawn_os.Bitset.Laws.{IsValid, member, member-with_bit, with_bit-IsValid, set_bit-ok}
use shawn_os.Bitset.Range.{length-with_bit}
use shawn_os.Heap.Sections.{fill_word, mark_used}

module _ (b : Bitset) (q : ℕ) (v : IsValid b) (h : q < length b.start) where
  word-fill_word :
      (m : ℕ) → word (fill_word b q) m ≡ (if q == m / 32 then 0xffff_ffff else word b m)
  unfolding fill_word
  word-fill_word m = elim (ℕ_discrete q (m / 32)) [
    | yes e ↦ ground (
      arith,
      get_or-set_self b.start q 0xffff_ffff 0 h,
      ap (λ t. get_or (set b.start q 0xffff_ffff) t 0) e,
    )
    | no ne ↦ ground (arith, get_or-set_ne b.start q (m / 32) 0xffff_ffff 0 ne)
  ]

  member-fill_word : (m : ℕ) → member (fill_word b q) m ≡ (if q == m / 32 then 1 else member b m)
  unfolding member
  member-fill_word m = rw (word-fill_word m) (ground (arith, bit-ones 32 (m % 32) (omega arith)))

  fill_word-covered : (fill_word b q).length ≤ 32 * length (fill_word b q).start
  unfolding fill_word
  fill_word-covered = omega (arith, v.covered, length-set {0} b.start q 0xffff_ffff)

  fill_word-IsValid : IsValid (fill_word b q)
  fill_word-IsValid = record {
    covered = fill_word-covered;
    fits = λ m. ground (arith, word-fill_word m, v.fits m);
  }

length-fill_word : (b : Bitset) (q : ℕ) → (fill_word b q).length ≡ b.length
unfolding fill_word
length-fill_word b q = refl

-- The sections from `j` up to `end` are set, and no others change.
pub record Marked (b : Bitset) (j end : ℕ) (r : Outcome Bitset) (b' : Bitset) : Type 0 where
  pub returns : r ≡ ok b'
  pub valid : IsValid b'
  pub same_length : b'.length ≡ b.length
  pub members : (m : ℕ) → member b' m ≡ (if leb j m && ltb m end then 1 else member b m)

-- The loop by which `kheap_malloc` marks an allocation, a word at a time where a whole word lies
-- inside it, ends on a valid bitset, sets every section from `j` up to `end`, and no other.
pub mark_used-Marked :
    (fuel j end : ℕ) (b : Bitset)
    → end - j < fuel
    → end ≤ b.length
    → IsValid b
    → (b' : Bitset) × Marked b j end (mark_used fuel j end b) b'
unfolding mark_used
mark_used-Marked zero j end b enough fits v = absurd (omega arith)
mark_used-Marked (suc fuel) j end b enough fits v = elim (Bool-cases (ltb j end)) [
  | inr done ↦ (
    b,
    record { returns = rw done refl; valid = v; same_length = refl; members = λ m. ground arith },
  )
  | inl more ↦
      let lt : j < end = ground arith in
      elim (Bool-cases (j % 32 == 0 && ltb (j + 32) end)) [
        | inl whole ↦
            let edge : j % 32 ≡ 0 = ground arith in
            let q : j / 32 < length b.start = ground (arith, v.covered) in
            let (b', r) =
              mark_used-Marked fuel (j + 32) end (fill_word b (j / 32)) (omega arith)
                (omega (arith, length-fill_word b (j / 32))) (fill_word-IsValid b (j / 32) v q) in
            (
              b',
              record {
                returns = rw (more, whole) r.returns;
                valid = r.valid;
                same_length = omega (arith, r.same_length, length-fill_word b (j / 32));
                members = λ m. ground (arith, r.members m, member-fill_word b (j / 32) v q m);
              },
            )
        | inr single ↦
            let here : j < b.length = omega arith in
            let (b', r) =
              mark_used-Marked fuel (j + 1) end (with_bit b j) (omega arith)
                (omega (arith, length-with_bit b j)) (with_bit-IsValid b j v here) in
            (
              b',
              record {
                returns = rw (more, single, set_bit-ok b j v here) r.returns;
                valid = r.valid;
                same_length = omega (arith, r.same_length, length-with_bit b j);
                members = λ m. ground (arith, r.members m, member-with_bit b j v here m);
              },
            )
      ]
]
