-- ===== src/Heap/Sections/Release.antt =====
-- `kheap_free` in the block that holds the allocation.
use shawn_os.Prelude.{
  ℕ, zero, suc, ◌+◌, ◌-◌, ◌/◌, ◌^◌, ◌≤◌, ◌<◌, ◌≡◌, ◌≢◌, refl, arith, true, false, ◌==◌, ◌&&◌, leb,
  ltb, if◌then◌else◌, Outcome, ok, ap, ◌∙◌,
}
use native.Mathlib.Decide.{ℕ_discrete}
use shawn_os.Kernel.{add32, sub32}
use shawn_os.Bitset.{Bitset, without_bit, test_bit}
use shawn_os.Bitset.Laws.{
  member, test_bit-member, member-without_bit, without_bit-IsValid, clear_bit-ok,
}
use shawn_os.Bitset.Range.{
  Filled, clear_bits, without_bits, clear_bits-Filled, length-without_bit, length-without_bits,
}
use shawn_os.Heap.{Block}
use shawn_os.Heap.Sections.{find_delimiter, release}
use shawn_os.Heap.Sections.Take.{IsValid, Taken}

-- The loop stops at the first delimiter.
find_delimiter_lem :
    (left i last : ℕ) (d : Bitset)
    → i ≤ last
    → last < i + left
    → i + left ≤ d.length
    → ((j : ℕ) → i ≤ j → j < last → member d j ≡ 0)
    → member d last ≡ 1
    → find_delimiter left i d ≡ ok last
unfolding find_delimiter
find_delimiter_lem zero i last d le lt fits clear set = absurd (omega arith)
find_delimiter_lem (suc left) i last d le lt fits clear set = elim (ℕ_discrete i last) [
  | yes e ↦
      let reads : test_bit d i ≡ ok true =
        ground (arith, test_bit-member d i (omega arith), ap (member d) e) in
      rw reads (ap ok e)
  | no ne ↦
      let reads : test_bit d i ≡ ok false =
        ground (arith, test_bit-member d i (omega arith), clear i (omega arith) (omega arith)) in
      rw reads (
        find_delimiter_lem left (i + 1) last d (omega arith) (omega arith) (omega arith)
          (λ j lo hi. clear j (omega arith) hi) set)
]

-- The sections `f` to `f + n` are one allocation: they are used, and the first delimiter from `f`
-- on is in the last of them. The header is another section.
pub record Held (c : Block) (n f : ℕ) : Type 0 where
  pub some_sections : 0 < n
  pub inside : f + n ≤ c.used_sections.length
  pub not_first : f ≢ 0
  pub used : (m : ℕ) → f ≤ m → m < f + n → member c.used_sections m ≡ 1
  pub undelimited : (m : ℕ) → f ≤ m → m < f + n - 1 → member c.delimiters m ≡ 0
  pub delimited : member c.delimiters (f + n - 1) ≡ 1
  pub counted : c.free_sections + n ≤ c.used_sections.length

-- What has just been taken is held.
pub Held-of_taken :
    (b c : Block) (n f : ℕ) → IsValid b → member b.used_sections 0 ≡ 1 → Taken b n f c → Held c n f
Held-of_taken b c n f v header t = record {
  some_sections = t.some_sections;
  inside = omega (arith, t.inside, t.same_sections);
  not_first =
      λ e. omega (arith, header, t.was_free 0 (omega arith) (omega (arith, t.some_sections)));
  used = λ m lo hi. ground (arith, t.used m);
  undelimited =
      λ m lo hi. ground (arith, t.delimited m, v.delimits_used m, t.was_free m lo (omega arith));
  delimited = ground (arith, t.delimited (f + n - 1));
  counted = omega (arith, t.fewer, t.enough, v.counted, t.same_sections);
}

-- The release of `c` at section `g` gives back the sections from `g` up to `f + n` and leaves `d`.
pub record GivenBack (c : Block) (n f g : ℕ) (r : Outcome (ℕ × Block)) (d : Block) : Type 0 where
  pub returns : r ≡ ok (f + n - g, d)
  pub used :
      (m : ℕ)
      → member d.used_sections m
        ≡ (if leb g m && ltb m (f + n) then 0 else member c.used_sections m)
  pub delimited :
      (m : ℕ) → member d.delimiters m ≡ (if f + n - 1 == m then 0 else member c.delimiters m)
  pub counted : d.free_sections ≡ c.free_sections + (f + n - g)
  pub valid : IsValid d
  pub same_start : d.start ≡ c.start
  pub same_section_size : d.section_size ≡ c.section_size
  pub same_block_size : d.block_size ≡ c.block_size
  pub same_sections : d.used_sections.length ≡ c.used_sections.length

module _ (c : Block) (n f g : ℕ) (v : IsValid c) (t : Held c n f) (from : f ≤ g)
    (below : g < f + n) where
  abbrev last : ℕ
  last = f + n - 1

  abbrev count : ℕ
  count = f + n - g

  in_delimiters : f + n ≤ c.delimiters.length
  in_delimiters = omega (arith, t.inside, v.same_length)

  reads_used : test_bit c.used_sections g ≡ ok true
  reads_used =
      ground
        (arith, test_bit-member c.used_sections g (omega (arith, t.inside)), t.used g from below)

  finds_last : find_delimiter (c.delimiters.length - g) g c.delimiters ≡ ok last
  finds_last =
      find_delimiter_lem (c.delimiters.length - g) g last c.delimiters (omega arith)
        (omega (arith, in_delimiters)) (omega (arith, in_delimiters))
        (λ j lo hi. t.undelimited j (omega arith) hi) t.delimited

  clears :
      Filled c.used_sections 0 count g
        (clear_bits count g c.used_sections)
        (without_bits count g c.used_sections)
  clears =
      clear_bits-Filled count g c.used_sections v.searchable.used_valid (omega (arith, t.inside))

  last_in : last < c.delimiters.length
  last_in = omega (arith, in_delimiters)

  abbrev after : Block
  after = record c {
    used_sections = without_bits count g c.used_sections;
    delimiters = without_bit c.delimiters last;
    first_free_section = g;
    free_sections = c.free_sections + count;
  }

  used_after :
      (m : ℕ)
      → member after.used_sections m
        ≡ (if leb g m && ltb m (f + n) then 0 else member c.used_sections m)
  used_after m = ground (arith, clears.members m)

  delimited_after :
      (m : ℕ) → member after.delimiters m ≡ (if last == m then 0 else member c.delimiters m)
  delimited_after m =
      ground (arith, member-without_bit c.delimiters last v.delimiters_valid last_in m)

  after-IsValid : IsValid after
  after-IsValid = record {
    searchable = record {
      used_valid = clears.valid;
      some_sections = omega (arith, same, v.searchable.some_sections);
      few_sections = omega (arith, same, v.searchable.few_sections);
      starts_in = omega (arith, same, t.inside);
    };
    delimiters_valid = without_bit-IsValid c.delimiters last v.delimiters_valid last_in;
    same_length = omega (arith, same, length-without_bit c.delimiters last, v.same_length);
    delimits_used = λ m e.
        ground (arith, used_after m, delimited_after m, v.delimits_used m, t.undelimited m, from);
    counted = omega (arith, same, t.counted);
  }
    where
      same : (without_bits count g c.used_sections).length ≡ c.used_sections.length
      same = length-without_bits count g c.used_sections

  -- `kheap_free` at an address in section `g` of an allocation of the sections `f` to `f + n`.
  pub release-GivenBack :
      (addr : ℕ)
      → sub32 addr c.start / c.section_size ≡ g
      → (d : Block) × GivenBack c n f g (release c addr) d
  unfolding release
  release-GivenBack addr at = (
    after,
    record {
      returns =
          rw
            (
              at,
              reads_used,
              finds_last,
              last_ne,
              clear_bit-ok c.delimiters last v.delimiters_valid last_in,
              sections,
              clears.returns,
              counts,
              adds_up,
            )
            refl;
      used = used_after;
      delimited = delimited_after;
      counted = refl;
      valid = after-IsValid;
      same_start = refl;
      same_section_size = refl;
      same_block_size = refl;
      same_sections = length-without_bits count g c.used_sections;
    },
  )
    where
      small : f + n < 2 ^ 31
      small = omega (arith, t.inside, v.searchable.few_sections)

      last_ne : (last == 0) ≡ false
      last_ne = ground (arith, t.not_first, t.some_sections)

      sections : last + 1 - g ≡ count
      sections = omega arith

      counts : add32 (sub32 last g) 1 ≡ count
      counts = omega (arith, small)

      adds_up : add32 c.free_sections count ≡ c.free_sections + count
      adds_up = omega (arith, t.counted, v.searchable.few_sections)

-- The release of `c` gives back `n` sections and leaves `d`, which stands as `b` stood.
pub record Released (b : Block) (n : ℕ) (r : Outcome (ℕ × Block)) (d : Block) : Type 0 where
  pub returns : r ≡ ok (n, d)
  pub same_used : (m : ℕ) → member d.used_sections m ≡ member b.used_sections m
  pub same_delimiters : (m : ℕ) → member d.delimiters m ≡ member b.delimiters m
  pub same_count : d.free_sections ≡ b.free_sections
  pub valid : IsValid d

-- `kheap_free` at the address of a section allocation, as `kheap_malloc` left the block, gives
-- back exactly the sections of the allocation: used sections, delimiters and the count of free
-- sections are again as they were before the allocation, and the block is valid. The first
-- section of a block, its header, is in use.
pub release-Released :
    (b c : Block) (n f : ℕ)
    → IsValid b
    → member b.used_sections 0 ≡ 1
    → Taken b n f c
    → (addr : ℕ) → sub32 addr c.start / c.section_size ≡ f
    → (d : Block) × Released b n (release c addr) d
release-Released b c n f v header t addr at =
    let (d, back) =
      release-GivenBack c n f f t.valid (Held-of_taken b c n f v header t) (omega arith)
        (omega (arith, t.some_sections)) addr at in
    let all : f + n - f ≡ n = omega arith in
    (
      d,
      record {
        returns = back.returns ∙ ap (λ (k : ℕ). ok (k, d)) all;
        same_used = λ m. ground (arith, back.used m, t.used m, t.was_free m);
        same_delimiters = λ m. ground (
          arith,
          back.delimited m,
          t.delimited m,
          v.delimits_used m,
          t.was_free m,
          t.some_sections,
        );
        same_count = omega (arith, back.counted, t.fewer, t.enough);
        valid = back.valid;
      },
    )
