-- ===== src/Heap/Mapping.antt =====
-- The loops of `kheap_expand` in kernel/mm/heap.c that map the pages of a new block and give them
-- back, over a paging system that maps and unmaps pages of 4096 bytes.
use shawn_os.Prelude.{
  ℕ, zero, suc, ◌+◌, ◌*◌, ◌^◌, ◌≤◌, ◌<◌, ◌≡◌, refl, arith, ltb, leb, ◌==◌, ◌&&◌, if◌then◌else◌,
  if_true, if_false, Bool, true, List, Outcome, ok, inl, inr, Bool-cases, ◌∙◌,
}
use shawn_os.Kernel.{add32, mul32}
use shawn_os.Paging.{PagingInterface, kpage_allocate, kpage_free}
use shawn_os.Heap.Malloc.{unmap_pages, map_pages}

-- What the heap relies on at the pages that the paging system serves, in a state that is ready: a
-- call for the page number `g` returns, a successful `kpage_allocate` maps that page, `kpage_free`
-- unmaps a page that is mapped, no other page changes, and the state stays ready.
pub record PagingLaws {P : Type 0} (interface : PagingInterface P) : Type 1 where
  pub IsReady : P → Type 0
  pub serves : ℕ → Bool
  pub mapped : ℕ → P → ℕ
  pub allocates :
      (g : ℕ) (p : P)
      → IsReady p
      → serves g ≡ true
      → (c : ℕ) × (q : P) × (kpage_allocate interface (g * 4096) 3 p ≡ ok (c, q))
        × IsReady q
        × ((h : ℕ) → mapped h q ≡ (if c == 0 && h == g then 1 else mapped h p))
  pub frees :
      (g : ℕ) (p : P)
      → IsReady p
      → serves g ≡ true
      → mapped g p ≡ 1
      → (c : ℕ) × (q : P) × (kpage_free interface (g * 4096) p ≡ ok (c, q))
        × IsReady q
        × ((h : ℕ) → mapped h q ≡ (if h == g then 0 else mapped h p))

module _ {P : Type 0} (interface : PagingInterface P) (laws : PagingLaws interface)
    (contents : ℕ → ℕ → List ℕ) where
  open laws use {IsReady, serves, mapped, allocates, frees}

  page_at : (f i : ℕ) → (f + i) * 4096 < 2 ^ 32 → add32 (f * 4096) (mul32 i 4096) ≡ (f + i) * 4096
  page_at f i h = omega arith

  -- The pages `f` up to `f + i` are unmapped, and no others change.
  pub record Unmapped (f i : ℕ) (p : P) (r : Outcome P) (q : P) : Type 0 where
    pub returns : r ≡ ok q
    pub ready : IsReady q
    pub maps : (h : ℕ) → mapped h q ≡ (if leb f h && ltb h (f + i) then 0 else mapped h p)

  -- The loop that gives pages back unmaps them all.
  pub unmap_pages_lem :
      (i f : ℕ) (p : P)
      → (f + i) * 4096 < 2 ^ 32
      → IsReady p
      → ((h : ℕ) → f ≤ h → h < f + i → serves h ≡ true)
      → ((h : ℕ) → f ≤ h → h < f + i → mapped h p ≡ 1)
      → (q : P) × Unmapped f i p (unmap_pages interface 4096 contents i (f * 4096) p) q
  unfolding unmap_pages
  unmap_pages_lem zero f p fits v all on =
      (p, record { returns = refl; ready = v; maps = λ h. ground arith })
  unmap_pages_lem (suc i) f p fits v all on =
      let (c, q, e, w, m) =
        frees (f + i) p v (all (f + i) (omega arith) (omega arith))
          (on (f + i) (omega arith) (omega arith)) in
      let (s, u) =
        unmap_pages_lem i f q (omega arith) w (λ h lo hi. all h lo (omega arith))
          (λ h lo hi. ground (arith, m h, on h lo (omega arith))) in
      (
        s,
        record {
          returns = rw (page_at f i (omega arith), e) u.returns;
          ready = u.ready;
          maps = λ h. ground (arith, m h, u.maps h);
        },
      )

  -- The pages from `f + i` up to `f + j` are mapped; without a failure these are all `left`.
  pub record Mapped (f i left : ℕ) (p : P) (r : Outcome (ℕ × ℕ × P)) (c j : ℕ) (q : P)
      : Type 0 where
    pub returns : r ≡ ok (c, j, q)
    pub ready : IsReady q
    pub bounds : (i ≤ j) × (j ≤ i + left)
    pub all : c ≡ 0 → j ≡ i + left
    pub maps : (h : ℕ) → mapped h q ≡ (if leb (f + i) h && ltb h (f + j) then 1 else mapped h p)

  map_step :
      (left i f c : ℕ) (p q : P)
      → (f + i) * 4096 < 2 ^ 32
      → kpage_allocate interface ((f + i) * 4096) 3 p ≡ ok (c, q)
      → map_pages interface 4096 contents (suc left) i (f * 4096) p ≡ (
          if c == 0
          then map_pages interface 4096 contents left (i + 1) (f * 4096) q
          else ok (c, i, q))
  unfolding map_pages
  map_step left i f c p q fits e = elim (Bool-cases (c == 0)) [
    | inl good ↦ rw (page_at f i fits, e, good) refl
    | inr bad ↦ rw (page_at f i fits, e, bad) refl
  ]

  -- The loop that maps the pages maps them all, or stops at the first call that fails.
  pub map_pages_lem :
      (left i f : ℕ) (p : P)
      → (f + i + left) * 4096 < 2 ^ 32
      → IsReady p
      → ((h : ℕ) → f + i ≤ h → h < f + i + left → serves h ≡ true)
      → (c j : ℕ) × (q : P) × Mapped f i left p
          (map_pages interface 4096 contents left i (f * 4096) p)
          c
          j
          q
  unfolding map_pages
  map_pages_lem zero i f p fits v served = (
    0,
    i,
    p,
    record {
      returns = refl;
      ready = v;
      bounds = omega arith;
      all = λ e. omega arith;
      maps = λ h. ground arith;
    },
  )
  map_pages_lem (suc left) i f p fits v served =
      let (c, q, e, w, m) = allocates (f + i) p v (served (f + i) (omega arith) (omega arith)) in
      let step = map_step left i f c p q (omega arith) e in
      elim (Bool-cases (c == 0)) [
        | inl good ↦
            let (c', j, s, t) =
              map_pages_lem left (i + 1) f q (omega arith) w
                (λ h lo hi. served h (omega arith) (omega arith)) in
            (
              c',
              j,
              s,
              record {
                returns = step ∙ if_true (c == 0) _ _ good ∙ t.returns;
                ready = t.ready;
                bounds = omega (arith, t.bounds);
                all = λ z. omega (arith, t.all z);
                maps = λ h. ground (arith, m h, t.maps h, t.bounds);
              },
            )
        | inr bad ↦ (
          c,
          i,
          q,
          record {
            returns = step ∙ if_false (c == 0) _ _ bad;
            ready = w;
            bounds = omega arith;
            all = λ z. absurd (ground arith);
            maps = λ h. ground (arith, m h);
          },
        )
      ]
