-- ===== src/MemoryMap/Marked.antt =====
-- `_i386_mem_init_bitset`: which frames start out in use.
use shawn_os.Prelude.{
  ℕ, zero, suc, ◌+◌, ◌-◌, ◌*◌, ◌/◌, ◌^◌, ◌≤◌, ◌<◌, ◌≡◌, ◌≢◌, refl, arith, ltb, ltb→lt, Outcome, ok,
  ◌>>=◌, inl, inr, Bool-cases, sym, ◌∙◌,
}
use native.Mathlib.Decide.{ℕ_discrete}
use mathlib.Core.Path.{subst}
use shawn_os.Kernel.{add32, page_size}
use shawn_os.Bitset.{Bitset, with_bit, set_bit}
use shawn_os.Bitset.Laws
use shawn_os.Bitset.Laws.{member, member-with_bit, with_bit-IsValid, set_bit-ok}
use shawn_os.Bitset.Range.{length-with_bit}
use shawn_os.MemoryMap.{
  MemState, reserved, free, nonexistant, MmapEntry, MemInfo, check_reserved, mark_reserved,
  init_bitset,
}
use shawn_os.MemoryMap.Walk.{NoWrap}
use shawn_os.MemoryMap.Reserved.{map_end, check_reserved_ends}

module _ (entry_at : ℕ → MmapEntry) (m : MemInfo) where
  -- The loop reaches frame `j`, and the frame's page is reserved.
  abbrev pub ToMark : ℕ → Type 0
  ToMark j =
      (j * page_size + page_size < m.highest_free_address)
      × (check_reserved entry_at m (j * page_size) ≡ ok reserved)

  -- The outcome `r` of the loop from frame `k`.
  pub record Marks (k : ℕ) (b : Bitset) (r : Outcome Bitset) (b' : Bitset) : Type 0 where
    pub returns : r ≡ ok b'
    pub valid : Laws.IsValid b'
    pub same_length : b'.length ≡ b.length
    pub marked : (j : ℕ) → k ≤ j → ToMark j → member b' j ≡ 1
    pub kept : (j : ℕ) → ¬ ((k ≤ j) × ToMark j) → member b' j ≡ member b j

  -- One round at a page that is reserved, and one at a page that is not.
  mark_here :
      (k : ℕ) (b : Bitset) (r : Outcome Bitset) (b' : Bitset)
      → Laws.IsValid b
      → k < b.length
      → ToMark k
      → Marks (k + 1) (with_bit b k) r b'
      → Marks k b r b'
  mark_here k b r b' v here mark rest = record {
    returns = rest.returns;
    valid = rest.valid;
    same_length = omega (arith, rest.same_length, length-with_bit b k);
    marked = λ j le to. elim (ℕ_discrete j k) [
      | yes e ↦
          ground
            (arith, rest.kept j (λ p. absurd (omega (arith, p.0))), member-with_bit b k v here j)
      | no ne ↦ rest.marked j (omega arith) to
    ];
    kept = λ j not_here.
        let ne : k ≢ j = λ e. not_here (omega arith, subst ToMark e mark) in
        ground (
          arith,
          rest.kept j (λ p. not_here (omega (arith, p.0), p.1)),
          member-with_bit b k v here j,
        );
  }

  pass_here :
      (k : ℕ) (b : Bitset) (r : Outcome Bitset) (b' : Bitset)
      → check_reserved entry_at m (k * page_size) ≢ ok reserved
      → Marks (k + 1) b r b'
      → Marks k b r b'
  pass_here k b r b' other rest = record {
    returns = rest.returns;
    valid = rest.valid;
    same_length = rest.same_length;
    marked = λ j le to. elim (ℕ_discrete j k) [
      | yes e ↦
          absurd
            (other (subst (λ t. check_reserved entry_at m (t * page_size) ≡ ok reserved) e to.1))
      | no ne ↦ rest.marked j (omega arith) to
    ];
    kept = λ j not_here. rest.kept j (λ p. not_here (omega (arith, p.0), p.1));
  }

  module _ (fits : NoWrap entry_at m.mmap (map_end m))
      (top : m.highest_free_address + page_size < 2 ^ 32) where
    round :
        (state : MemState) (next : Bitset → Outcome Bitset) (k : ℕ) (b : Bitset)
        → check_reserved entry_at m (k * page_size) ≡ ok state
        → Laws.IsValid b
        → k < b.length
        → k * page_size + page_size < m.highest_free_address
        → ((c : Bitset)
            → Laws.IsValid c
            → c.length ≡ b.length
            → (b' : Bitset) × Marks (k + 1) c (next c) b')
        → (b' : Bitset) × Marks k b
            (elim state [ reserved ↦ set_bit b (k * page_size / page_size) | _ ↦ ok b ] >>= next)
            b'
    round reserved next k b e v here inside rest =
        let (b', r) = rest (with_bit b k) (with_bit-IsValid b k v here) (length-with_bit b k) in
        let index : k * page_size / page_size ≡ k = omega arith in
        (b', rw (index, set_bit-ok b k v here) (mark_here k b _ b' v here (inside, e) r))
    round free next k b e v here inside rest =
        let (b', r) = rest b v refl in (b', pass_here k b _ b' (λ f. other (sym e ∙ f)) r)
      where
        other : ok free ≡ ok reserved → ⊥
        other f = cc
    round nonexistant next k b e v here inside rest =
        let (b', r) = rest b v refl in (b', pass_here k b _ b' (λ f. other (sym e ∙ f)) r)
      where
        other : ok nonexistant ≡ ok reserved → ⊥
        other f = cc

    mark_reserved-Marks :
        (fuel k : ℕ) (b : Bitset)
        → Laws.IsValid b
        → b.length ≡ m.highest_free_address / page_size
        → k * page_size ≤ m.highest_free_address
        → m.highest_free_address - k * page_size < page_size * fuel
        → (b' : Bitset) × Marks k b (mark_reserved entry_at fuel m (k * page_size) b) b'
    unfolding mark_reserved
    mark_reserved-Marks zero k b v len in_memory enough = absurd (omega arith)
    mark_reserved-Marks (suc fuel) k b v len in_memory enough =
        elim (Bool-cases (ltb (add32 (k * page_size) page_size) m.highest_free_address)) [
          | inl more ↦
              let next : add32 (k * page_size) page_size ≡ (k + 1) * page_size = omega arith in
              let inside : k * page_size + page_size < m.highest_free_address =
                omega (arith, ltb→lt _ _ more) in
              let (state, e) = check_reserved_ends entry_at m (k * page_size) fits in
              rw (more, e, next)
                (round state (mark_reserved entry_at fuel m ((k + 1) * page_size)) k b e v
                  (omega arith) inside
                  (λ c vc lc.
                    mark_reserved-Marks fuel (k + 1) c vc (lc ∙ len) (omega arith) (omega arith)))
          | inr done ↦ (
            b,
            record {
              returns = rw done refl;
              valid = v;
              same_length = refl;
              marked = λ j le to. absurd (ground (arith, to.0));
              kept = λ j not_here. refl;
            },
          )
        ]

    -- `_i386_mem_init_bitset` over a valid bitset with a bit for each frame of memory returns, if
    -- the entries of the map stay in the address space and memory ends a page below its end. It
    -- sets the bit of every frame whose page ends below the highest address and is reserved, and
    -- no other bit: a frame that the map does not mention stays free.
    pub init_bitset_lem :
        (b : Bitset)
        → Laws.IsValid b
        → b.length ≡ m.highest_free_address / page_size
        → (b' : Bitset) × (init_bitset entry_at m b ≡ ok b')
          × Laws.IsValid b'
          × (b'.length ≡ b.length)
          × ((j : ℕ) → ToMark j → member b' j ≡ 1)
          × ((j : ℕ) → ¬ ToMark j → member b' j ≡ member b j)
    unfolding init_bitset
    init_bitset_lem b v len =
        let (b', r) =
          mark_reserved-Marks (m.highest_free_address / page_size + 1) 0 b v len (omega arith)
            (omega arith) in
        (
          b',
          r.returns,
          r.valid,
          r.same_length,
          λ j to. r.marked j (omega arith) to,
          λ j not_to. r.kept j (λ p. not_to p.1),
        )
