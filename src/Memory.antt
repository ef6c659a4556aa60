-- ===== src/Memory.antt =====
-- libsc/string/memmove.c and libsc/string/memcpy.c, over one memory of bytes by address. The ranges
-- end within the address space, so that no address wraps.
pub mod Laws
mod Tests
use shawn_os.Prelude.{ℕ, zero, suc, ◌+◌, ltb, ◌==◌, if◌then◌else◌}

abbrev pub put : ℕ → ℕ → (ℕ → ℕ) → ℕ → ℕ
put address value memory a = if a == address then value else memory a

-- `for ( size_t i = 0; i < size; i++ ) dst[i] = src[i];` from `i` on.
unfoldable pub copy_up : ℕ → ℕ → ℕ → ℕ → (ℕ → ℕ) → ℕ → ℕ
copy_up zero i dst src memory = memory
copy_up (suc left) i dst src memory =
    copy_up left (i + 1) dst src (put (dst + i) (memory (src + i)) memory)

-- `for ( size_t i = size; i != 0; i-- ) dst[i-1] = src[i-1];` from `i` on.
unfoldable pub copy_down : ℕ → ℕ → ℕ → (ℕ → ℕ) → ℕ → ℕ
copy_down zero dst src memory = memory
copy_down (suc i) dst src memory = copy_down i dst src (put (dst + i) (memory (src + i)) memory)

unfoldable pub memcpy : ℕ → ℕ → ℕ → (ℕ → ℕ) → ℕ → ℕ
memcpy dst src size memory = copy_up size 0 dst src memory

unfoldable pub memmove : ℕ → ℕ → ℕ → (ℕ → ℕ) → ℕ → ℕ
memmove dst src size memory =
    if ltb dst src then copy_up size 0 dst src memory else copy_down size dst src memory
