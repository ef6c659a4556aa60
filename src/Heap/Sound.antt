-- ===== src/Heap/Sound.antt =====
-- The heap, the address space and the paging system together, and a heap that has grown.
use shawn_os.Prelude.{
  ℕ, ◌+◌, ◌*◌, ◌/◌, ◌^◌, ◌≤◌, ◌<◌, ◌≡◌, arith, List, [], ◌∷◌, ◌++◌, All, ap, ◌∙◌, sym,
}
use mathlib.Core.Path.{subst}
use shawn_os.Kernel.{u32, add32, sub32}
use shawn_os.Bitset.Laws.{member}
use shawn_os.Asa.{Kasa}
use shawn_os.Asa.Alloc.{Granted}
use shawn_os.Paging.{PagingInterface}
use shawn_os.Heap.{Block, Heap}
use shawn_os.Heap.Sections.Take.{Taken}
use shawn_os.Heap.Build.{IsFresh, Built}
use shawn_os.Heap.Mapping.{PagingLaws}
use shawn_os.Heap.Expand.{IsSpace, Granted-in_space}
use shawn_os.Heap.Blocks.{
  InHeap, Taken-InHeap, IsHeap, extents, extents-swap, swap-IsHeap, Apart, Disjoint, free_total,
}

-- The pages that an extent covers are taken in the address space.
abbrev pub Owned : Kasa → ℕ × ℕ → Type 0
Owned asa (a, n) = (x : ℕ) → a ≤ x → x < a + n → member asa.pages (x / 4096) ≡ 1

module _ {P : Type 0} (interface : PagingInterface P) (laws : PagingLaws interface) where
  -- A sound heap, on pages that are its own, in an address space that agrees with the paging system.
  pub record Sound (heap : Heap) (asa : Kasa) (p : P) : Type 0 where
    pub is_heap : IsHeap heap
    pub space : IsSpace interface laws asa p
    pub owned : All (Owned asa) (extents heap.blocks)

  -- The heap with sections taken of one block.
  pub swap-Sound :
      (b b' : Block) (n f : ℕ) (t : Taken b n f b') (before after : List Block) (heap : Heap)
      (asa : Kasa) (p : P)
      → heap.blocks ≡ before ++ b ∷ after
      → InHeap b
      → Sound heap asa p
      → Sound
          (record heap {
            blocks = before ++ b' ∷ after;
            total_free_sections = sub32 heap.total_free_sections n;
          })
          asa
          p
  swap-Sound b b' n f t before after heap asa p at h v = record {
    is_heap =
        swap-IsHeap b b' after heap before (sub32 heap.total_free_sections n) at
          (Taken-InHeap b b' n f h t) t.same_start t.same_block_size
          (λ others e. omega (arith, e, t.fewer, t.enough, t.inside, h.whole, h.in_memory))
          v.is_heap;
    space = v.space;
    owned =
        subst (All (Owned asa))
          (ap extents at ∙ sym (extents-swap b b' after before t.same_start t.same_block_size))
          v.owned;
  }

-- Pages that stay taken stay the heap's.
pub Owned-keeps :
    (asa asa' : Kasa) (es : List (ℕ × ℕ))
    → ((h : ℕ) → member asa.pages h ≡ 1 → member asa'.pages h ≡ 1)
    → All (Owned asa) es
    → All (Owned asa') es
Owned-keeps asa asa' [] keep all = tt
Owned-keeps asa asa' (e ∷ es) keep (o, all) =
    (λ x lo hi. keep (x / 4096) (o x lo hi), Owned-keeps asa asa' es keep all)

module _ (asa asa' : Kasa) (pages f : ℕ) (g : Granted asa pages f asa') where
  Apart-new : (es : List (ℕ × ℕ)) → All (Owned asa) es → All (Apart (f * 4096, 4096 * pages)) es
  Apart-new [] all = tt
  Apart-new (e ∷ es) (o, all) = (
    λ x lo hi from to.
        omega (arith, o x from to, g.was_free (x / 4096) (omega arith) (omega arith)),
    Apart-new es all,
  )

  keeps : (h : ℕ) → member asa.pages h ≡ 1 → member asa'.pages h ≡ 1
  keeps h e = ground (arith, g.members h)

  new-Owned : Owned asa' (f * 4096, 4096 * pages)
  new-Owned x lo hi = ground (arith, g.members (x / 4096))

  module _ (b : Block) (fresh : IsFresh (f * 4096) (4096 * pages) b) (pos : 0 < pages)
      (in_space : (f + pages) * 4096 < 2 ^ 32) where
    fresh-InHeap : InHeap b
    fresh-InHeap = record {
      valid = fresh.valid;
      header = ground (arith, fresh.used 0);
      section = fresh.section;
      at_page = omega (arith, fresh.at);
      whole = omega (arith, fresh.same_size, fresh.all_sections);
      in_memory = omega (arith, fresh.at, fresh.same_size);
    }

    extent_lem : ◌≡◌ {A = ℕ × ℕ} (b.start, b.block_size) (f * 4096, 4096 * pages)
    extent_lem = cc (fresh.at, fresh.same_size)

    module _ (heap heap' : Heap) (v : IsHeap heap) (own : All (Owned asa) (extents heap.blocks))
        (built : Built heap (f * 4096) (4096 * pages) b heap') where
      built-IsHeap : IsHeap heap'
      built-IsHeap = record {
        section = built.same_section;
        blocks_in = subst (All InHeap) (sym built.in_front) (fresh-InHeap, v.blocks_in);
        disjoint =
            subst (λ bs. Disjoint (extents bs)) (sym built.in_front)
              (
                subst (λ e. All (Apart e) (extents heap.blocks)) (sym extent_lem)
                    (Apart-new (extents heap.blocks) own),
                v.disjoint,
              );
        counted =
            built.counted
            ∙ adds heap.total_free_sections b.free_sections (free_total heap.blocks) v.counted
            ∙ ap (λ bs. u32 (free_total bs)) (sym built.in_front);
      }
        where
          adds : (t n s : ℕ) → t ≡ u32 s → add32 t n ≡ u32 (n + s)
          adds t n s e = omega arith

      built-Owned : All (Owned asa') (extents heap'.blocks)
      built-Owned =
          subst (λ bs. All (Owned asa') (extents bs)) (sym built.in_front)
            (
              subst (Owned asa') (sym extent_lem) new-Owned,
              Owned-keeps asa asa' (extents heap.blocks) keeps own,
            )

module _ {P : Type 0} (interface : PagingInterface P) (laws : PagingLaws interface)
    (heap heap' : Heap) (asa asa' : Kasa) (p q : P) (pages f : ℕ) (b : Block)
    (v : Sound interface laws heap asa p) (g : Granted asa pages f asa') (pos : 0 < pages)
    (built : Built heap (f * 4096) (4096 * pages) b heap') where
  in_space : (f + pages) * 4096 < 2 ^ 32
  in_space = Granted-in_space interface laws asa asa' p pages f v.space g

  pub built-InHeap : InHeap b
  built-InHeap = fresh-InHeap asa asa' pages f g b built.fresh pos in_space

  -- A heap that has grown is sound.
  pub built-Sound : IsSpace interface laws asa' q → Sound interface laws heap' asa' q
  built-Sound space = record {
    is_heap =
        built-IsHeap asa asa' pages f g b built.fresh pos in_space heap heap' v.is_heap v.owned
          built;
    space = space;
    owned =
        built-Owned asa asa' pages f g b built.fresh pos in_space heap heap' v.is_heap v.owned
          built;
  }
