-- ===== src/MemoryMap/Walk.antt =====
-- The walk over the multiboot memory map: it ends, and what its answers say of the map.
use shawn_os.Prelude.{
  ℕ, zero, suc, ◌+◌, ◌-◌, ◌^◌, ◌≤◌, ◌<◌, ◌≡◌, ◌≢◌, refl, arith, true, ltb, ltb→lt, ok, inl, inr,
  Bool-cases,
}
use shawn_os.Kernel.{add32, page_size}
use shawn_os.MemoryMap.{
  MemState, free, nonexistant, MmapEntry, entry_end, holds, classify, mmap_loop,
}

module _ (entry_at : ℕ → MmapEntry) where
  -- The entries are met in this order, from `cur` to the end of the map.
  pub data Entry (end : ℕ) : ℕ → ℕ → Type 0 where
    first : {cur : ℕ} → cur < end → Entry end cur cur
    later :
        {cur next p : ℕ}
        → cur < end
        → next ≡ add32 cur (add32 (entry_at cur).size 4)
        → Entry end next p
        → Entry end cur p

  -- The page from `addr` lies within an available entry of the map.
  pub record Covered (cur end addr : ℕ) : Type 0 where
    pub at : ℕ
    pub in_map : Entry end cur at
    pub starts : (entry_at at).addr ≤ addr
    pub ends : add32 addr page_size ≤ entry_end (entry_at at)
    pub available : (entry_at at).type ≢ 2

  Covered-here :
      (cur end addr : ℕ)
      → cur < end
      → holds (entry_at cur) addr ≡ true
      → classify (entry_at cur) addr ≡ free
      → Covered cur end addr
  unfolding classify
  Covered-here cur end addr lt h c = record {
    at = cur;
    in_map = first lt;
    starts = ground arith;
    ends = ground arith;
    available = λ e. ground arith;
  }

  Covered-later :
      (cur end addr : ℕ)
      → cur < end
      → Covered (add32 cur (add32 (entry_at cur).size 4)) end addr
      → Covered cur end addr
  Covered-later cur end addr lt c = record {
    at = c.at;
    in_map = later lt refl c.in_map;
    starts = c.starts;
    ends = c.ends;
    available = c.available;
  }

  pub Covered-of_free :
      (fuel cur end addr : ℕ)
      → mmap_loop entry_at fuel cur end addr ≡ ok free
      → Covered cur end addr
  unfolding mmap_loop
  Covered-of_free zero cur end addr e = absurd (cc)
  Covered-of_free (suc fuel) cur end addr e = elim (Bool-cases (ltb cur end)) [
    | inl inside ↦ elim (Bool-cases (holds (entry_at cur) addr)) [
      | inl held ↦ Covered-here cur end addr (ltb→lt cur end inside) held (ground arith)
      | inr other ↦
          let c =
            Covered-of_free fuel (add32 cur (add32 (entry_at cur).size 4)) end addr
              (ground arith) in
          Covered-later cur end addr (ltb→lt cur end inside) c
    ]
    | inr outside ↦ absurd (ground arith)
  ]

  -- No step of the walk goes past the end of the address space.
  abbrev pub NoWrap : ℕ → ℕ → Type 0
  NoWrap from end = (cur : ℕ) → from ≤ cur → cur < end → cur + (entry_at cur).size + 4 < 2 ^ 32

  pub mmap_loop_ends :
      (fuel cur end addr : ℕ)
      → end - cur < fuel
      → NoWrap cur end
      → (state : MemState) × (mmap_loop entry_at fuel cur end addr ≡ ok state)
  unfolding mmap_loop
  mmap_loop_ends zero cur end addr enough fits = absurd (omega arith)
  mmap_loop_ends (suc fuel) cur end addr enough fits = elim (Bool-cases (ltb cur end)) [
    | inl inside ↦
        let lt : cur < end = ltb→lt cur end inside in
        let (state, e) =
          mmap_loop_ends fuel (add32 cur (add32 (entry_at cur).size 4)) end addr
            (omega (arith, fits cur (omega arith) lt))
            (λ p lo hi. fits p (omega (arith, fits cur (omega arith) lt)) hi) in
        elim (Bool-cases (holds (entry_at cur) addr)) [
          | inl held ↦ (classify (entry_at cur) addr, rw (inside, held) refl)
          | inr other ↦ (state, rw (inside, other) e)
        ]
    | inr outside ↦ (nonexistant, rw outside refl)
  ]
