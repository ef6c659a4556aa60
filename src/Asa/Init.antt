-- ===== src/Asa/Init.antt =====
-- `asa_init`: the state that every later call starts from.
use shawn_os.Prelude.{
  ℕ, ◌*◌, ◌/◌, ◌^◌, ◌≤◌, ◌<◌, ◌≡◌, refl, arith, List, Option, none, some, ltb, if◌then◌else◌,
  length, get_or, ok,
}
use native.Mathlib.Nat.{mul-div-le, le-div_iff_mul-le, div-le_self, mul_comm}
use shawn_os.Kernel.{k_success, k_oom, kvirt_max, kvirt_reserved, mul32, div_round_up}
use shawn_os.Bitset
use shawn_os.Bitset.Laws.{member}
use shawn_os.Bitset.Access.{init-IsValid, member-init}
use shawn_os.Bitset.Range.{set_bits, with_bits, set_bits-Filled, Filled, length-with_bits}
use shawn_os.Asa.{Kasa, asa_init}
use shawn_os.Asa.Alloc.{IsValid}

-- The size that `asa_init` asks `kmalloc` for.
abbrev pub bitset_size : ℕ → ℕ
bitset_size page_size = mul32 (div_round_up (kvirt_max / page_size) 32) 4

reserved_fits : (p : ℕ) → 0 < p → kvirt_reserved / p ≤ kvirt_max / p
reserved_fits p pos =
    (le-div_iff_mul-le pos).1
      (omega (arith, mul-div-le kvirt_reserved p, mul_comm (kvirt_reserved / p) p))

-- Where `kmalloc` grants words enough for a bit per page, `asa_init` succeeds, and leaves a valid
-- state in which exactly the pages below `KVIRT_RESERVED` are taken, and every other page up to
-- `KVIRT_MAX` is free.
pub asa_init_lem :
    (kmalloc : ℕ → Option (List ℕ)) (page_size : ℕ) (s : Kasa) (ws : List ℕ)
    → 0 < page_size
    → page_size ≤ kvirt_max
    → kmalloc (bitset_size page_size) ≡ some ws
    → kvirt_max / page_size ≤ 32 * length ws
    → ((n : ℕ) → get_or ws n 0 < 2 ^ 32)
    → (s' : Kasa) × (asa_init kmalloc page_size s ≡ ok (k_success, s'))
      × IsValid s'
      × (s'.page_size ≡ page_size)
      × (s'.pages.length ≡ kvirt_max / page_size)
      × ((m : ℕ)
          → m < kvirt_max / page_size
          → member s'.pages m ≡ (if ltb m (kvirt_reserved / page_size) then 1 else 0))
unfolding asa_init Bitset.init
asa_init_lem kmalloc page_size s ws pos small grants covers words = (
  record { pages = with_bits reserved 0 empty; page_size = page_size },
  rw (grants, asa_init) (rw filled.returns refl),
  record {
    pages_valid = filled.valid;
    addressed =
        rw (length-with_bits reserved 0 empty) (
          omega
            (arith, mul-div-le kvirt_max page_size, mul_comm (kvirt_max / page_size) page_size));
  },
  refl,
  length-with_bits reserved 0 empty,
  λ m h. ground (
    arith,
    filled.members m,
    member-init ws (kvirt_max / page_size) m (omega arith)
        (omega (arith, div-le_self kvirt_max page_size)) h,
  ),
)
  where
    reserved : ℕ
    reserved = kvirt_reserved / page_size

    empty : Bitset.Bitset
    empty = Bitset.init ws (kvirt_max / page_size)

    filled :
        Filled empty 1 reserved 0
          (Bitset.Range.set_bits reserved 0 empty)
          (with_bits reserved 0 empty)
    filled =
        set_bits-Filled reserved 0 empty (init-IsValid ws (kvirt_max / page_size) covers words)
          (omega (arith, reserved_fits page_size pos))

-- Where `kmalloc` returns `NULL`, `asa_init` reports `K_OOM`, with the page size alone changed.
asa_init_oom :
    (kmalloc : ℕ → Option (List ℕ)) (page_size : ℕ) (s : Kasa)
    → kmalloc (bitset_size page_size) ≡ none
    → asa_init kmalloc page_size s ≡ ok (k_oom, record s { page_size = page_size })
unfolding asa_init
asa_init_oom kmalloc page_size s refuses = rw (refuses, asa_init)
