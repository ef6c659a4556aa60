-- ===== src/Heap/Sections/Take.antt =====
-- What a successful request does to its block.
use shawn_os.Prelude.{
  ℕ, ◌+◌, ◌-◌, ◌≤◌, ◌<◌, ◌≡◌, refl, arith, ◌&&◌, ◌||◌, Option, none, some, ltb, leb, ◌==◌,
  if◌then◌else◌, Outcome, ok, ◌>>=◌, inl, inr, Bool-cases,
}
use shawn_os.Kernel.{add32, sub32}
use shawn_os.Bitset.{with_bit}
use shawn_os.Bitset.Laws
use shawn_os.Bitset.Laws.{member, member-with_bit, with_bit-IsValid, set_bit-ok}
use shawn_os.Bitset.Range.{length-with_bit}
use shawn_os.Asa.Scan.{RunAt}
use shawn_os.Heap.{Block}
use shawn_os.Heap.Sections.{take_sections, max_free_space, sections_for, try_block}
use shawn_os.Heap.Sections.Mark.{mark_used-Marked}
use shawn_os.Heap.Sections.Search.{Searched, hit, miss, Searchable, search-Searched}

-- A block whose bitsets are sound; a delimiter stands only in a used section.
pub record IsValid (b : Block) : Type 0 where
  pub searchable : Searchable b
  pub delimiters_valid : Laws.IsValid b.delimiters
  pub same_length : b.delimiters.length ≡ b.used_sections.length
  pub delimits_used : (m : ℕ) → member b.used_sections m ≡ 0 → member b.delimiters m ≡ 0
  pub counted : b.free_sections ≤ b.used_sections.length

-- The sections `f` to `f + n` of `b` were free and are taken in `b'`, ending in a delimiter.
pub record Taken (b : Block) (n f : ℕ) (b' : Block) : Type 0 where
  pub some_sections : 0 < n
  pub inside : f + n ≤ b.used_sections.length
  pub was_free : RunAt b.used_sections n f
  pub enough : n ≤ b.free_sections
  pub valid : IsValid b'
  pub used :
      (m : ℕ)
      → member b'.used_sections m
        ≡ (if leb f m && ltb m (f + n) then 1 else member b.used_sections m)
  pub delimited :
      (m : ℕ) → member b'.delimiters m ≡ (if f + n - 1 == m then 1 else member b.delimiters m)
  pub fewer : b'.free_sections ≡ b.free_sections - n
  pub next_search : b'.first_free_section ≡ f + n
  pub same_start : b'.start ≡ b.start
  pub same_section_size : b'.section_size ≡ b.section_size
  pub same_block_size : b'.block_size ≡ b.block_size
  pub same_sections : b'.used_sections.length ≡ b.used_sections.length

pub take_sections-Taken :
    (b : Block) (f n : ℕ)
    → IsValid b
    → 0 < n
    → n ≤ b.free_sections
    → f + n ≤ b.used_sections.length
    → RunAt b.used_sections n f
    → (b' : Block) × (take_sections b f n ≡ ok b') × Taken b n f b'
unfolding take_sections
take_sections-Taken b f n v pos enough inside free =
    let (used, m) =
      mark_used-Marked (n + 1) f (f + n) b.used_sections (omega arith) inside
        v.searchable.used_valid in
    let end : add32 f n ≡ f + n = omega (arith, v.searchable.few_sections) in
    let last : sub32 (f + n) 1 ≡ f + n - 1 = omega (arith, v.searchable.few_sections) in
    let here : f + n - 1 < b.delimiters.length = omega (arith, v.same_length) in
    let left : sub32 b.free_sections n ≡ b.free_sections - n =
      omega (arith, v.searchable.few_sections, v.counted) in
    let marks = member-with_bit b.delimiters (f + n - 1) v.delimiters_valid here in
    (
      record b {
        used_sections = used;
        delimiters = with_bit b.delimiters (f + n - 1);
        free_sections = b.free_sections - n;
        first_free_section = f + n;
      },
      rw (end, m.returns, last, set_bit-ok b.delimiters (f + n - 1) v.delimiters_valid here, left),
      record {
        some_sections = pos;
        inside = inside;
        was_free = free;
        enough = enough;
        valid = record {
          searchable = record {
            used_valid = m.valid;
            some_sections = omega (arith, m.same_length, v.searchable.some_sections);
            few_sections = omega (arith, m.same_length, v.searchable.few_sections);
            starts_in = omega (arith, m.same_length);
          };
          delimiters_valid = with_bit-IsValid b.delimiters (f + n - 1) v.delimiters_valid here;
          same_length =
              omega (arith, m.same_length, v.same_length, length-with_bit b.delimiters (f + n - 1));
          delimits_used = λ k e. ground (arith, m.members k, marks k, v.delimits_used k);
          counted = omega (arith, m.same_length, v.counted);
        };
        used = m.members;
        delimited = marks;
        fewer = refl;
        next_search = refl;
        same_start = refl;
        same_section_size = refl;
        same_block_size = refl;
        same_sections = m.same_length;
      },
    )

-- How one round of `kheap_malloc` may end in a block.
pub data Tried (b : Block) (n : ℕ) : Outcome (Option (ℕ × Block)) → Type 0 where
  served : (f : ℕ) (b' : Block) → Taken b n f b' → Tried b n (ok (some (f, b')))
  passed : Tried b n (ok none)

-- A request of at least one section, tried in a valid block, never fails an `ASSERT`. The block
-- either passes it on, or serves it: the sections of the allocation were all free, they alone
-- are marked as used, the last of them alone gets a new delimiter, the count of free sections
-- falls by their number, and the block stays valid.
pub try_block-Tried :
    (size : ℕ) (b : Block)
    → IsValid b
    → 0 < sections_for b size
    → Tried b (sections_for b size) (try_block size b)
unfolding try_block
try_block-Tried size b v pos =
    elim (Bool-cases (ltb (max_free_space b) size || ltb b.free_sections (sections_for b size))) [
      | inl skip ↦ rw skip passed
      | inr try ↦
          rw try
            (served_by (search-Searched b (sections_for b size) v.searchable pos) (ground arith))
    ]
  where
    n : ℕ
    n = sections_for b size

    served_by :
        {r : Outcome (Option ℕ)}
        → Searched b n r
        → n ≤ b.free_sections
        → Tried b n (
            r >>= λ found. elim found [
              | none ↦ ok none
              | some first_free ↦ take_sections b first_free n >>= λ b'. ok (some (first_free, b'))
            ])
    served_by miss enough = passed
    served_by (hit f inside free) enough =
        let (b', e, t) = take_sections-Taken b f n v pos enough inside free in rw e (served f b' t)
