-- ===== src/Heap/Build.antt =====
-- `kheap_add_block` of kernel/mm/heap.c: the block that it makes, for sections of the default size.
use shawn_os.Prelude.{
  ℕ, ◌+◌, ◌-◌, ◌*◌, ◌/◌, ◌%◌, ◌^◌, ◌≤◌, ◌<◌, ◌≡◌, refl, arith, List, ◌∷◌, ltb, ◌==◌, if◌then◌else◌,
  length, get_or, ok, true,
}
use shawn_os.Kernel.{add32, sub32, mul32, div_round_up}
use shawn_os.Bitset
use shawn_os.Bitset.{Bitset}
use shawn_os.Bitset.Laws
use shawn_os.Bitset.Laws.{member}
use shawn_os.Bitset.Access.{init-IsValid, member-init_everywhere}
use shawn_os.Bitset.Range.{Filled, set_bits, with_bits, set_bits-Filled, length-with_bits}
use shawn_os.Heap.{Block, Heap, header_size, kheap_add_block, bitset_bytes}
use shawn_os.Heap.Sections.Take.{IsValid}

-- What memory holds: the words asked for, each of 32 bits.
pub record IsMemory (contents : ℕ → ℕ → List ℕ) : Type 0 where
  pub words : (a n : ℕ) → length (contents a n) ≡ n
  pub fits : (a n i : ℕ) → get_or (contents a n) i 0 < 2 ^ 32

-- The bytes and the sections that a block of `block_size` bytes spends on itself.
abbrev pub metadata : ℕ → ℕ
metadata block_size = 40 + 8 * ((block_size + 511) / 512)

abbrev pub reserved : ℕ → ℕ
reserved block_size = (metadata block_size + 15) / 16

abbrev pub sections : ℕ → ℕ
sections block_size = (block_size + 15) / 16

-- A block as it is made.
pub record IsFresh (addr block_size : ℕ) (b : Block) : Type 0 where
  pub valid : IsValid b
  pub at : b.start ≡ addr
  pub same_size : b.block_size ≡ block_size
  pub section : b.section_size ≡ 16
  pub all_sections : b.used_sections.length ≡ sections block_size
  pub first : b.first_free_section ≡ reserved block_size
  pub free : b.free_sections + reserved block_size ≡ sections block_size
  pub used : (m : ℕ) → member b.used_sections m ≡ (if ltb m (reserved block_size) then 1 else 0)
  pub none_delimited : (m : ℕ) → member b.delimiters m ≡ 0

-- The heap once the block `b` is added to it.
pub record Built (heap : Heap) (addr block_size : ℕ) (b : Block) (heap' : Heap) : Type 0 where
  pub fresh : IsFresh addr block_size b
  pub in_front : heap'.blocks ≡ b ∷ heap.blocks
  pub same_section : heap'.default_section_size ≡ 16
  pub same_min : heap'.min_block_size ≡ heap.min_block_size
  pub counted : heap'.total_free_sections ≡ add32 heap.total_free_sections b.free_sections
  pub effective :
      heap'.effective_size
      ≡ add32 heap.effective_size (block_size - 40 + 8 * ((block_size + 511) / 512))

module _ (contents : ℕ → ℕ → List ℕ) (memory : IsMemory contents) (addr block_size : ℕ)
    (pos : 0 < block_size) (small : block_size < 2 ^ 31)
    (room : metadata block_size < block_size) where
  abbrev map_at : ℕ → Bitset
  map_at a = Bitset.init (contents a (bitset_bytes block_size 16 / 4)) (div_round_up block_size 16)

  covers :
      (a : ℕ)
      → div_round_up block_size 16 ≤ 32 * length (contents a (bitset_bytes block_size 16 / 4))
  covers a = omega (arith, memory.words a (bitset_bytes block_size 16 / 4))

  map_at-IsValid : (a : ℕ) → Laws.IsValid (map_at a)
  map_at-IsValid a =
      init-IsValid (contents a (bitset_bytes block_size 16 / 4)) (div_round_up block_size 16)
        (covers a) (memory.fits a (bitset_bytes block_size 16 / 4))

  map_at-empty : (a m : ℕ) → member (map_at a) m ≡ 0
  map_at-empty a m =
      member-init_everywhere (contents a (bitset_bytes block_size 16 / 4))
        (div_round_up block_size 16) m
        (omega (arith, memory.words a (bitset_bytes block_size 16 / 4)))

  abbrev used_map : Bitset
  used_map = map_at (add32 addr header_size)

  abbrev delimiter_map : Bitset
  delimiter_map = map_at (add32 (add32 addr header_size) (bitset_bytes block_size 16))

  abbrev fresh : Block
  fresh = record {
    block_size = block_size;
    section_size = 16;
    first_free_section = reserved block_size;
    free_sections = sections block_size - reserved block_size;
    start = addr;
    used_sections = with_bits (reserved block_size) 0 used_map;
    delimiters = delimiter_map;
  }

  reserved-lt : reserved block_size ≤ sections block_size
  reserved-lt = omega arith

  map_at-length : (a : ℕ) → (map_at a).length ≡ sections block_size
  unfolding Bitset.init
  map_at-length a = omega arith

  reserves :
      Filled used_map 1
        (reserved block_size)
        0
        (set_bits (reserved block_size) 0 used_map)
        (with_bits (reserved block_size) 0 used_map)
  reserves =
      set_bits-Filled (reserved block_size) 0 used_map (map_at-IsValid (add32 addr header_size))
        (omega (arith, map_at-length (add32 addr header_size)))

  fresh-length : fresh.used_sections.length ≡ sections block_size
  fresh-length = omega (
    arith,
    length-with_bits (reserved block_size) 0 used_map,
    map_at-length (add32 addr header_size),
  )

  fresh-IsFresh : IsFresh addr block_size fresh
  fresh-IsFresh = record {
    valid = record {
      searchable = record {
        used_valid = reserves.valid;
        some_sections = omega (arith, fresh-length);
        few_sections = omega (arith, fresh-length);
        starts_in = omega (arith, fresh-length);
      };
      delimiters_valid =
          map_at-IsValid (add32 (add32 addr header_size) (bitset_bytes block_size 16));
      same_length = omega (
        arith,
        fresh-length,
        map_at-length (add32 (add32 addr header_size) (bitset_bytes block_size 16)),
      );
      delimits_used =
          λ m e. map_at-empty (add32 (add32 addr header_size) (bitset_bytes block_size 16)) m;
      counted = omega (arith, fresh-length);
    };
    at = refl;
    same_size = refl;
    section = refl;
    all_sections = fresh-length;
    first = refl;
    free = omega arith;
    used = λ m. ground (arith, reserves.members m, map_at-empty (add32 addr header_size) m);
    none_delimited = map_at-empty (add32 (add32 addr header_size) (bitset_bytes block_size 16));
  }

  grown_heap : Heap → Heap
  grown_heap heap = record heap {
    blocks = fresh ∷ heap.blocks;
    total_free_sections = add32 heap.total_free_sections fresh.free_sections;
    effective_size = add32 heap.effective_size (block_size - 40 + 8 * ((block_size + 511) / 512));
  }

  -- `kheap_add_block`, with sections of 16 bytes, for page-aligned memory of less than 2 GiB that
  -- is larger than what the block needs for itself, makes a valid block of it: the sections of the
  -- header and of both bitsets, and no others, are used, no delimiter is set, and the search starts
  -- behind them. The block becomes the heap's first, in front of the others, its free sections are
  -- added to the heap's count, and the size of both bitsets to the effective size, from which the
  -- code means to leave it out.
  pub kheap_add_block-Built :
      (heap : Heap)
      → addr % 0x1000 ≡ 0
      → heap.default_section_size ≡ 16
      → (b : Block) × (heap' : Heap) × (kheap_add_block contents heap addr block_size
            heap.default_section_size
          ≡ ok heap')
        × Built heap addr block_size b heap'
  unfolding kheap_add_block grown_heap
  kheap_add_block-Built heap aligned section = (
    fresh,
    grown_heap heap,
    rw (section, page, fits, count, reserves.returns, free_count, overhead) refl,
    record {
      fresh = fresh-IsFresh;
      in_front = refl;
      same_section = section;
      same_min = refl;
      counted = refl;
      effective = refl;
    },
  )
    where
      page : (addr % 0x1000 == 0) ≡ true
      page = ground arith

      fits : ltb (add32 header_size (mul32 (bitset_bytes block_size 16) 2)) block_size ≡ true
      fits = ground arith

      count :
          div_round_up (add32 header_size (mul32 (bitset_bytes block_size 16) 2)) 16
          ≡ reserved block_size
      count = omega arith

      free_count :
          sub32 (div_round_up block_size 16) (reserved block_size)
          ≡ sections block_size - reserved block_size
      free_count = omega arith

      overhead :
          add32 (sub32 block_size header_size) (mul32 (bitset_bytes block_size 16) 2)
          ≡ block_size - 40 + 8 * ((block_size + 511) / 512)
      overhead = omega arith
