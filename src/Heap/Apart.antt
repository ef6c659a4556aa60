-- ===== src/Heap/Apart.antt =====
-- Two calls of `kheap_malloc` in kernel/mm/heap.c: what they hand out is apart.
use shawn_os.Prelude.{
  ℕ, suc, ◌+◌, ◌-◌, ◌*◌, ◌/◌, ◌^◌, ◌≤◌, ◌<◌, ◌≡◌, arith, List, [], ◌∷◌, ◌++◌, All, ap, ◌∙◌, sym,
  none, some, Outcome, ok, ◌⊎◌, inl, inr,
}
use mathlib.Core.Path.{subst}
use native.Mathlib.Decide.{dec_lt}
use shawn_os.Kernel.{max32}
use shawn_os.Asa.{Kasa}
use shawn_os.Paging.{PagingInterface}
use shawn_os.Bitset.Laws.{member}
use shawn_os.Heap.{Block, Heap}
use shawn_os.Heap.Sections.Take.{Taken}
use shawn_os.Heap.Malloc.{Malloced, kheap_malloc}
use shawn_os.Heap.Build.{IsMemory}
use shawn_os.Heap.Pages.{pages_needed}
use shawn_os.Heap.Mapping.{PagingLaws}
use shawn_os.Heap.Blocks.{InHeap, InHeap-at, extents, Apart, Apart-at, Disjoint}
use shawn_os.Heap.Place.{Placed, request}
use shawn_os.Heap.Sound.{Sound}
use shawn_os.Heap.Allotted.{Allotted, allotted, out_of_memory}
use shawn_os.Heap.Allocate.{kheap_malloc-Allotted}

-- An address in a block.
abbrev In : Block → ℕ → Type 0
In b x = (b.start ≤ x) × (x < b.start + b.block_size)

-- Blocks of one heap that hold the same address are one block.
same_block :
    (before after before' after' : List Block) (b c : Block) (x : ℕ)
    → before ++ b ∷ after ≡ before' ++ c ∷ after'
    → Disjoint (extents (before ++ b ∷ after))
    → In b x
    → In c x
    → c ≡ b
same_block [] after [] after' b c x e d hb hc = cc
same_block [] after (p ∷ before') after' b c x e (far, d) hb hc =
    let tail : after ≡ before' ++ c ∷ after' = cc in
    absurd (
      Apart-at (b.start, b.block_size) before' after' c
        (subst (λ bs. All (Apart (b.start, b.block_size)) (extents bs)) tail far) x hb.0 hb.1 hc.0
        hc.1)
same_block (p ∷ before) after [] after' b c x e (far, d) hb hc =
    let head : c ≡ p = cc in
    let hp : In p x = subst (λ d. In d x) head hc in
    absurd (Apart-at (p.start, p.block_size) before after b far x hp.0 hp.1 hb.0 hb.1)
same_block (p ∷ before) after (q ∷ before') after' b c x e (far, d) hb hc =
    same_block before after before' after' b c x (cc) d hb hc

module _ {P : Type 0} (interface : PagingInterface P) (laws : PagingLaws interface)
    (contents : ℕ → ℕ → List ℕ) where
  -- What a call that succeeded has done.
  record Got (size align : ℕ) (heap : Heap) (m : Malloced P) (out : ℕ) : Type 0 where
    before : List Block
    after : List Block
    old : Block
    new : Block
    n : ℕ
    f : ℕ
    taken : Taken old n f new
    placed : Placed old n f size align out
    from : (heap.blocks ≡ before ++ old ∷ after) ⊎ ((before ≡ []) × (heap.blocks ≡ after))
    blocks : m.heap.blocks ≡ before ++ new ∷ after
    sound : Sound interface laws m.heap m.asa m.paging

  got :
      (size align : ℕ) (heap : Heap) (asa : Kasa) (p : P) (m : Malloced P) (out : ℕ)
      {r : Outcome (Malloced P)}
      → Allotted interface laws contents size align heap asa p r
      → r ≡ ok m
      → m.out ≡ some out
      → Got size align heap m out
  got size align heap asa p m out
        (allotted m0 before after b b' n f out0 code at t placed from blocks sound) e is =
      let same : m0 ≡ m = cc in
      let here : out0 ≡ out = cc (ap (λ (q : Malloced P). q.out) same) in
      subst (λ q. Got size align heap q out) same
        (subst (Got size align heap m0) here (record {
          before = before;
          after = after;
          old = b;
          new = b';
          n = n;
          f = f;
          taken = t;
          placed = placed;
          from = from;
          blocks = blocks;
          sound = sound;
        }))
  got size align heap asa p m out (out_of_memory x all expands oom same sound) e is =
      let nothing : none ≡ m.out =
        ap (λ (r : Outcome (Malloced P)). elim r [ ok q ↦ q.out | _ ↦ none ]) e in
      absurd (cc)

  module _ (size align : ℕ) (heap : Heap) (m : Malloced P) (out : ℕ)
      (g : Got size align heap m out) where
    new-InHeap : InHeap g.new
    new-InHeap =
        InHeap-at g.before g.after g.new (subst (All InHeap) g.blocks g.sound.is_heap.blocks_in)

    -- A byte handed out lies in the block, in one of the sections that were taken.
    new-In : (x : ℕ) → out ≤ x → x < out + size → In g.new x
    new-In x lo hi = omega (
      arith, g.placed.above, g.placed.below, g.taken.inside, g.taken.same_start,
      g.taken.same_sections, new-InHeap.whole,
    )

    sections_of :
        (x : ℕ)
        → out ≤ x
        → x < out + size
        → (g.f ≤ (x - g.new.start) / 16) × ((x - g.new.start) / 16 < g.f + g.n)
    sections_of x lo hi = omega (arith, g.placed.above, g.placed.below, g.taken.same_start)

  module _ (size align size' align' : ℕ) (heap : Heap) (m m' : Malloced P) (out out' : ℕ)
      (g : Got size align heap m out) (g' : Got size' align' m.heap m' out') where
    -- The second call took sections of a block that the heap had before it.
    not_shared :
        (x : ℕ)
        → m.heap.blocks ≡ g'.before ++ g'.old ∷ g'.after
        → out ≤ x
        → x < out + size
        → out' ≤ x
        → x < out' + size'
        → ⊥
    not_shared x at lo hi lo' hi' =
        let there = new-In size' align' m.heap m' out' g' x lo' hi' in
        let held : In g'.old x =
          omega (arith, there, g'.taken.same_start, g'.taken.same_block_size) in
        let same =
          same_block g.before g.after g'.before g'.after g.new g'.old x (sym g.blocks ∙ at)
            (subst (λ bs. Disjoint (extents bs)) g.blocks g.sound.is_heap.disjoint)
            (new-In size align heap m out g x lo hi) held in
        let k = (x - g.new.start) / 16 in
        let (from, below) = sections_of size align heap m out g x lo hi in
        let (from', below') = sections_of size' align' m.heap m' out' g' x lo' hi' in
        let starts : g'.new.start ≡ g.new.start =
          g'.taken.same_start ∙ ap (λ (b : Block). b.start) same in
        let k' : (x - g'.new.start) / 16 ≡ k = ap (λ (t : ℕ). (x - t) / 16) starts in
        let was_free : member g'.old.used_sections k ≡ 0 =
          g'.taken.was_free k (omega arith) (omega arith) in
        let is_used : member g.new.used_sections k ≡ 1 = ground (arith, g.taken.used k) in
        let one : member g'.old.used_sections k ≡ member g.new.used_sections k =
          ap (λ (b : Block). member b.used_sections k) same in
        omega arith

    -- The second call took sections of a block that is new.
    not_in_new :
        (x : ℕ)
        → g'.before ≡ []
        → m.heap.blocks ≡ g'.after
        → out ≤ x
        → x < out + size
        → out' ≤ x
        → x < out' + size'
        → ⊥
    not_in_new x none_before at lo hi lo' hi' =
        let there = new-In size' align' m.heap m' out' g' x lo' hi' in
        let here = new-In size align heap m out g x lo hi in
        let front : m'.heap.blocks ≡ g'.new ∷ (g.before ++ g.new ∷ g.after) =
          g'.blocks
          ∙ ap (λ bs. bs ++ g'.new ∷ g'.after) none_before
          ∙ ap (λ bs. g'.new ∷ bs) (sym at ∙ g.blocks) in
        let apart = subst (λ bs. Disjoint (extents bs)) front g'.sound.is_heap.disjoint in
        Apart-at (g'.new.start, g'.new.block_size) g.before g.after g.new apart.0 x there.0 there.1
          here.0 here.1

    -- Memory that two calls in a row have handed out has no byte in common.
    no_common : (x : ℕ) → out ≤ x → x < out + size → out' ≤ x → x < out' + size' → ⊥
    no_common x lo hi lo' hi' = elim g'.from [
      | inl at ↦ not_shared x at lo hi lo' hi'
      | inr (none_before, at) ↦ not_in_new x none_before at lo hi lo' hi'
    ]

  -- Two calls of `kheap_malloc` in a row, over any paging system that keeps what `PagingLaws` says,
  -- for 1 byte or more, with size and alignment together at most 1 GiB, the first on a sound heap
  -- and the second where it has left off; at each the smallest block size is at most 1 GiB, and a
  -- new block of the size that `kheap_expand` chooses has room for the request. If both succeed,
  -- the memory that one hands out ends before the memory of the other begins, whichever blocks they
  -- are taken from.
  pub kheap_malloc_disjoint :
      (memory : IsMemory contents) (size align size' align' fuel fuel' : ℕ) (heap : Heap)
      (asa : Kasa) (p : P) (m m' : Malloced P) (out out' : ℕ)
      → 0 < size
      → size + align ≤ 2 ^ 30
      → 0 < size'
      → size' + align' ≤ 2 ^ 30
      → Sound interface laws heap asa p
      → heap.min_block_size ≤ 2 ^ 30
      → request size align + 48
        ≤ 4032 * pages_needed (max32 heap.min_block_size (request size align))
      → m.heap.min_block_size ≤ 2 ^ 30
      → request size' align' + 48
        ≤ 4032 * pages_needed (max32 m.heap.min_block_size (request size' align'))
      → kheap_malloc interface 4096 contents (suc (suc fuel)) size align heap asa p ≡ ok m
      → m.out ≡ some out
      → kheap_malloc interface 4096 contents (suc (suc fuel')) size' align' m.heap m.asa m.paging
        ≡ ok m'
      → m'.out ≡ some out'
      → (out + size ≤ out') ⊎ (out' + size' ≤ out)
  kheap_malloc_disjoint memory size align size' align' fuel fuel' heap asa p m m' out out' pos small
        pos' small' v min fits min' fits' runs is runs' is' =
      let g =
        got size align heap asa p m out
          (kheap_malloc-Allotted interface laws contents memory size align pos small fuel heap asa p
            v min fits)
          runs is in
      let g' =
        got size' align' m.heap m.asa m.paging m' out'
          (kheap_malloc-Allotted interface laws contents memory size' align' pos' small' fuel'
            m.heap m.asa m.paging g.sound min' fits')
          runs' is' in
      let no_byte = no_common size align size' align' heap m m' out out' g g' in
      elim (dec_lt out' (out + size)) [
        | no apart ↦ inl (omega arith)
        | yes meets ↦ elim (dec_lt out (out' + size')) [
          | no apart ↦ inr (omega arith)
          | yes meets' ↦ elim (dec_lt out out') [
            | yes lt ↦ absurd (no_byte out' (omega arith) meets (omega arith) (omega arith))
            | no ge ↦ absurd (no_byte out (omega arith) (omega arith) (omega arith) meets')
          ]
        ]
      ]
