-- ===== src/Heap/Place.antt =====
-- The address that `kheap_malloc` hands out lies in the sections that it took, and is aligned.
use shawn_os.Prelude.{
  ℕ, ◌+◌, ◌-◌, ◌*◌, ◌/◌, ◌%◌, ◌^◌, ◌≤◌, ◌<◌, ◌≡◌, arith, ltb, ◌==◌, ◌&&◌, not, Bool, if◌then◌else◌,
  if_true, if_false, List, ap, ◌∙◌, inl, inr, Bool-cases,
}
use mathlib.Core.Path.{subst}
use native.Mathlib.Nat.{mod-lt, div-add-mod, mul-mod_right, mul-add}
use shawn_os.Kernel.{add32, mul32, div_round_up}
use shawn_os.Heap.{Block}
use shawn_os.Heap.Sections.{sections_for}
use shawn_os.Heap.Sections.Take.{Taken}
use shawn_os.Heap.Malloc.{Served, place}
use shawn_os.Heap.Blocks.{InHeap}

-- `size` bytes from `out` on lie in the sections `f` to `f + n`; a wanted alignment is met.
pub record Placed (b : Block) (n f size align out : ℕ) : Type 0 where
  pub above : b.start + 16 * f ≤ out
  pub below : out + size ≤ b.start + 16 * (f + n)
  pub aligned : 0 < align → out % align ≡ 0

-- Whether the code moves the address up, and the bytes that it asks a block for.
abbrev pub manual : ℕ → Bool
manual align = ltb 0 align && not (16 == align)

abbrev pub request : ℕ → ℕ → ℕ
request size align = if manual align then size + align else size

up_to : (x align : ℕ) → 0 < align → (x + (align - x % align)) % align ≡ 0
up_to x align pos = ap (λ (y : ℕ). y % align) whole ∙ mul-mod_right align (x / align + 1)
  where
    whole : x + (align - x % align) ≡ align * (x / align + 1)
    whole = omega (arith, div-add-mod x align, mod-lt x pos, mul-add align (x / align) 1)

module _ (b b' : Block) (n f size align : ℕ) (h : InHeap b) (t : Taken b n f b') (pos : 0 < size)
    (small : size + align ≤ 2 ^ 30) (count : n ≡ sections_for b (request size align)) where
  abbrev taken : List Block → Served
  taken blocks = record {
    start = b.start;
    section_size = b.section_size;
    first_free = f;
    n_sec = sections_for b (request size align);
    blocks = blocks;
  }

  abbrev first : ℕ
  first = b.start + 16 * f

  request-le : (0 < request size align) × (request size align ≤ 2 ^ 30)
  request-le = ground arith

  enough : request size align ≤ 16 * n
  enough =
      holds (request size align) request-le.0 request-le.1
        (count ∙ ap (λ (s : ℕ). div_round_up (request size align) s) h.section)
    where
      holds : (r : ℕ) → 0 < r → r ≤ 2 ^ 30 → n ≡ div_round_up r 16 → r ≤ 16 * n
      holds r p le e = omega arith

  first_lem : add32 b.start (mul32 f b.section_size) ≡ first
  first_lem = rw h.section (omega (arith, t.inside, h.whole, h.in_memory))

  pub place-Placed :
      (blocks : List Block) → Placed b n f size align (place (taken blocks) align (manual align))
  unfolding place
  place-Placed blocks = elim (Bool-cases (manual align)) [
    | inr automatic ↦
        let plain : size ≤ 16 * n =
          subst (λ r. r ≤ 16 * n) (if_false (manual align) (size + align) size automatic) enough in
        rw (first_lem, automatic)
          (record {
            above = omega arith;
            below = omega arith;
            aligned = λ pa. let e : align ≡ 16 = ground arith in rw e (omega (arith, h.at_page));
          })
    | inl by_hand ↦
        let more : size + align ≤ 16 * n =
          subst (λ r. r ≤ 16 * n) (if_true (manual align) (size + align) size by_hand) enough in
        let pa : 0 < align = ground arith in
        let low = mod-lt first pa in
        elim (Bool-cases (ltb 0 (first % align))) [
          | inl off ↦
              let fits : add32 first (align - first % align) ≡ first + (align - first % align) =
                omega (arith, t.inside, h.whole, h.in_memory) in
              rw (first_lem, by_hand, off, fits)
                (record {
                  above = omega arith;
                  below = omega arith;
                  aligned = λ _. up_to first align pa;
                })
          | inr on ↦
              rw (first_lem, by_hand, on)
                (record { above = omega arith; below = omega arith; aligned = λ _. ground arith })
        ]
  ]
