-- ===== src/Boot.antt =====
-- `kernel_early` of kernel/kernel/kernel.c, from `i386_mem_init` to `i386_paging_init`: the memory
-- subsystem is set up, each part with what the ones before it leave.
pub mod Laws
pub mod Messages
pub mod Early
mod Tests
use shawn_os.Prelude.{
  ℕ, ◌*◌, ◌/◌, ◌==◌, if◌then◌else◌, Option, none, some, List, [], Outcome, ok, ◌>>=◌, ◌>>◌, assert,
  false,
}
use shawn_os.Kernel.{page_size, k_success}
use shawn_os.EarlyHeap.{kmalloc}
use shawn_os.MemoryMap.{MmapEntry, ElfSection, MultibootInfo, MemInfo}
use shawn_os.MemoryMap.Start.{mem_init}
use shawn_os.Asa.{Kasa, asa_init}
use shawn_os.Asa.Init.{bitset_size}
use shawn_os.Mmu.{Mmu}
use shawn_os.Mmu.Init.{KpagingData, i386_paging_init}

pub record Booted : Type 0 where
  pub meminfo : MemInfo
  pub kasa : Kasa
  pub info : KpagingData
  pub routines : List ℕ
  pub mmu : Mmu

-- `kasa_data` before it is set up.
abbrev pub no_pages : Kasa
no_pages = record { pages = record { length = 0; start = [] }; page_size = 0 }

-- `words_at` and `memory` are what the physical memory holds. The bitset of the address space is
-- allocated from the early heap, as `kmalloc` is its allocator by then.
unfoldable pub boot :
    ℕ
    → (ℕ → MmapEntry)
    → (ℕ → ElfSection)
    → (ℕ → List ℕ)
    → (ℕ → ℕ → ℕ)
    → MultibootInfo
    → List ℕ
    → Outcome Booted
boot handler entry_at section_at words_at memory h routines =
    mem_init entry_at section_at words_at h >>= λ t.
    let a = kmalloc (bitset_size page_size) t.early in
    asa_init (λ size. if a.address == 0 then none else some (words_at a.address)) page_size no_pages
    >>= λ r.
        assert (r.0 == k_success)
        >> (i386_paging_init handler t.meminfo routines (record {
          memory = memory;
          frames = t.frames;
          early = a.heap;
          page_directory = 0;
          window_page = 0;
          early_init_done = false;
        })
            >>= λ p.
                ok (record {
                  meminfo = t.meminfo;
                  kasa = r.1;
                  info = p.0;
                  routines = p.1;
                  mmu = p.2;
                }))
