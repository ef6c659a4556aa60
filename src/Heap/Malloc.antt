-- ===== src/Heap/Malloc.antt =====
-- `kheap_malloc`, `kheap_free`, `kheap_expand` and the wrappers for the `kalloc` interface.
-- The address space is that of Asa; the installed paging system, with state `P`, is a parameter.
use shawn_os.Prelude.{
  ℕ, zero, suc, ◌+◌, ◌-◌, ◌*◌, ◌%◌, Bool, true, false, ◌&&◌, not, Option, none, some, ltb, ◌==◌,
  if◌then◌else◌, List, [], ◌∷◌, Outcome, ok, out_of_fuel, ◌>>=◌, ◌>>◌, assert, bit_and,
}
use shawn_os.Kernel.{add32, sub32, mul32, max32, div_round_up, k_success, k_oom, k_failed}
use shawn_os.Asa.{Kasa, asa_alloc, asa_free}
use shawn_os.Paging.{PagingInterface, kpage_allocate, kpage_free, kpage_get_phys}
use shawn_os.Heap.{Block, Heap, section_size_default, header_size, kheap_add_block}
use shawn_os.Heap.Sections.{sections_for, try_block, release}

-- The first block that serves the request: its start and section size, the first section, the
-- sections taken, and the blocks after it.
pub record Served : Type 0 where
  pub start : ℕ
  pub section_size : ℕ
  pub first_free : ℕ
  pub n_sec : ℕ
  pub blocks : List Block

unfoldable pub try_blocks : ℕ → List Block → Outcome (Option Served)
try_blocks size [] = ok none
try_blocks size (b ∷ bs) =
    let rest = try_blocks size bs in
    try_block size b >>= λ r. elim r [
      | some (first_free, b') ↦ ok (
          some (record {
            start = b.start;
            section_size = b.section_size;
            first_free = first_free;
            n_sec = sections_for b size;
            blocks = b' ∷ bs;
          }))
      | none ↦ rest >>= λ found. elim found [
        | none ↦ ok none
        | some s ↦ ok (some (record s { blocks = b ∷ s.blocks }))
      ]
    ]

-- The address of a served request, moved up to the alignment where that is done by hand.
unfoldable pub place : Served → ℕ → Bool → ℕ
place s align manual_align =
    let section_start = add32 s.start (mul32 s.first_free s.section_size) in
    if manual_align && ltb 0 (section_start % align)
    then add32 section_start (align - section_start % align)
    else section_start

-- `kheap_free`: the first block whose bytes, its first one left out, hold the address.
unfoldable pub free_blocks : ℕ → List Block → Outcome (Option (ℕ × List Block))
free_blocks addr [] = ok none
free_blocks addr (b ∷ bs) =
    let rest = free_blocks addr bs in
    if ltb b.start addr && ltb addr (add32 b.start b.block_size)
    then (release b addr >>= λ (count, b'). ok (some (count, b' ∷ bs)))
    else (rest >>= λ r. elim r [ none ↦ ok none | some (count, bs') ↦ ok (some (count, b ∷ bs')) ])

unfoldable pub kheap_free : Heap → ℕ → Outcome (Bool × Heap)
kheap_free heap addr = do
  r ← free_blocks addr heap.blocks
  elim r [
    | none ↦ ok (false, heap)
    | some (count, blocks) ↦ ok (
      true,
      record heap { blocks = blocks; total_free_sections = add32 heap.total_free_sections count },
    )
  ]

-- The loop of `kheap_expand` that adds pages until the request and the metadata fit: the pages
-- required, or the fuel is out.
unfoldable pub pages_for : ℕ → ℕ → ℕ → ℕ → ℕ → Outcome ℕ
pages_for zero page_size size pages bitset_size = out_of_fuel
pages_for (suc fuel) page_size size pages bitset_size =
    let block_size = mul32 pages page_size in
    let bitset_size' = mul32 (div_round_up block_size (section_size_default * 32)) 4 in
    let rest = pages_for fuel page_size size (add32 pages 1) bitset_size' in
    if ltb (sub32 (sub32 block_size header_size) (mul32 bitset_size 2)) size then rest else ok pages

-- A result code, the heap, the address space and the state of the paging system.
pub record Expanded (P : Type 0) : Type 0 where
  pub code : ℕ
  pub heap : Heap
  pub asa : Kasa
  pub paging : P

-- The same with the address that `kheap_malloc` stores through `out`, if it does.
pub record Malloced (P : Type 0) : Type 0 where
  pub code : ℕ
  pub out : Option ℕ
  pub heap : Heap
  pub asa : Kasa
  pub paging : P

module _ {P : Type 0} (interface : PagingInterface P) (page_size : ℕ)
    (contents : ℕ → ℕ → List ℕ) where
  -- `while (i-- > 0) kpage_free(...)`
  unfoldable pub unmap_pages : ℕ → ℕ → P → Outcome P
  unmap_pages zero location p = ok p
  unmap_pages (suc i) location p = do
    (code, p') ← kpage_free interface (add32 location (mul32 i page_size)) p
    unmap_pages i location p'

  -- The loop that maps the pages from `i` on: the result code, and the pages it has mapped.
  unfoldable pub map_pages : ℕ → ℕ → ℕ → P → Outcome (ℕ × ℕ × P)
  map_pages zero i location p = ok (k_success, i, p)
  map_pages (suc left) i location p = do
    (code, p') ← kpage_allocate interface (add32 location (mul32 i page_size)) 3 p
    let rest = map_pages left (i + 1) location p'
    if k_failed code then ok (code, i, p') else rest

  -- What is left to do once the virtual pages from `location` are reserved.
  unfoldable pub map_block : Heap → Kasa → ℕ → ℕ → P → Outcome (Expanded P)
  map_block heap asa location pages p = do
    (code, i, p') ← map_pages pages 0 location p
    if k_failed code
        then (asa_free location pages asa >>= λ (_, asa'). unmap_pages i location p' >>= λ p''.
            ok (record { code = k_oom; heap = heap; asa = asa'; paging = p'' }))
        else (kheap_add_block contents heap location (mul32 pages page_size)
              heap.default_section_size
            >>= λ heap'. ok (record { code = k_success; heap = heap'; asa = asa; paging = p' }))

  unfoldable pub kheap_expand : ℕ → Heap → Kasa → P → Outcome (Expanded P)
  kheap_expand size heap asa p = do
    let pages_required = div_round_up size page_size
    let bitset_size =
        mul32 (div_round_up (mul32 pages_required page_size) (section_size_default * 32)) 4
    pages ← pages_for (pages_required + 2) page_size size pages_required bitset_size
    (location, asa') ← asa_alloc pages asa
    if location == 0
        then ok (record { code = k_oom; heap = heap; asa = asa'; paging = p })
        else map_block heap asa' location pages p

  -- The walk over the blocks. At their end the heap is expanded and the walk starts again, with
  -- `fuel` bounding how often; the walk over an empty heap expands it at once.
  unfoldable pub malloc_loop : ℕ → ℕ → ℕ → Bool → Heap → Kasa → P → Outcome (Malloced P)
  malloc_loop zero size align manual_align heap asa p = out_of_fuel
  malloc_loop (suc fuel) size align manual_align heap asa p = try_blocks size heap.blocks >>= λ r.
      elim r [
        | some s ↦ ok (record {
          code = k_success;
          out = some (place s align manual_align);
          heap = record heap {
            blocks = s.blocks;
            total_free_sections = sub32 heap.total_free_sections s.n_sec;
          };
          asa = asa;
          paging = p;
        })
        | none ↦ kheap_expand (max32 heap.min_block_size size) heap asa p >>= λ e.
            elim (k_failed e.code) [
              | true ↦ ok (record {
                code = e.code;
                out = none;
                heap = e.heap;
                asa = e.asa;
                paging = e.paging;
              })
              | false ↦ malloc_loop fuel size align manual_align e.heap e.asa e.paging
            ]
      ]

  unfoldable pub kheap_malloc : ℕ → ℕ → ℕ → Heap → Kasa → P → Outcome (Malloced P)
  kheap_malloc fuel size align heap asa p =
      let manual_align = ltb 0 align && not (heap.default_section_size == align) in
      malloc_loop fuel (if manual_align then add32 size align else size) align manual_align heap asa
        p

  -- `__kheap_kalloc_malloc_real`: a request that fails is a `PANIC`. With `wants_phys` it also
  -- looks up the physical address.
  unfoldable pub kalloc_malloc_real :
      ℕ → ℕ → Bool → ℕ → Heap → Kasa → P → Outcome (Malloced P × Option ℕ)
  kalloc_malloc_real fuel size wants_phys flags heap asa p = do
    let align = if bit_and flags 4 == 0 then 0 else page_size
    r ← kheap_malloc fuel size align heap asa p
    assert (not (k_failed r.code))
    elim r.out [
      | none ↦ ok (r, none)
      | some res ↦ elim wants_phys [
        | true ↦
            kpage_get_phys interface res r.paging >>= λ g. ok (record r { paging = g.1 }, some g.0)
        | false ↦ ok (r, none)
      ]
    ]
