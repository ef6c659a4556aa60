-- ===== src/Heap/Tests/Machine.antt =====
-- A machine with 4 MiB of frames. Its directory is in frame 2; the first table, in frame 3, maps
-- nothing, and the second one, in frame 4, maps the window, page 1029.
use shawn_os.Prelude.{
  ℕ, ◌*◌, ◌/◌, ◌%◌, ◌≡◌, refl, arith, true, ltb, leb, ◌&&◌, ◌==◌, if◌then◌else◌, ◌∷◌, replicate,
}
use shawn_os.Bits.{bit}
use shawn_os.Bitset.Laws.{fits_of_all, member}
use shawn_os.Frames.Alloc
use shawn_os.Frames.Alloc.{searched}
use shawn_os.Mmu.{Mmu, window_table}
use shawn_os.Mmu.Pages.{i386_paging_interface}
use shawn_os.Mmu.Walk
use shawn_os.Mmu.Walk.{walk, leaf}
use shawn_os.Heap.Mapping.{PagingLaws}
use shawn_os.Heap.I386.{IsReady, present, i386_laws}

abbrev tables : ℕ → ℕ → ℕ
tables f i =
    if f == 2 && i == 0
    then 0x3003
    else if f == 2 && i == 1
    then 0x4003
    else if f == 4 && i == 5
    then 0x5003
    else 2

-- The frames 0 to 15 are in use.
abbrev pub machine : Mmu
machine = record {
  memory = tables;
  frames = record {
    bitset = record { length = 1024; start = 0xffff ∷ replicate 31 0 };
    highest_free_address = 0x40_0000;
  };
  early = record { start = 0x1_0000; curpos = 0x1_8000 };
  page_directory = 0x2000;
  window_page = 0x40_5000;
  early_init_done = true;
}

machine-IsValid : Walk.IsValid machine
unfolding window_table
machine-IsValid = record {
  ready = record {
    done = refl;
    aligned = refl;
    small = omega arith;
    apart = omega arith;
    own_table = omega arith;
    words = λ f i. ground arith;
  };
  window_present = refl;
  off_dir = λ i p. ground arith;
  separate = λ i j ne pi pj. ground arith;
}

machine_frames-IsValid : Alloc.IsValid machine.frames
unfolding member bit
machine_frames-IsValid = record {
  bits = record {
    covered = omega arith;
    fits = λ n. fits_of_all (0xffff ∷ replicate 31 0) (omega arith) (n / 32);
  };
  sized = refl;
  zero_taken = refl;
}

-- The table of the pages 1 to 1023 is there.
table_present : (g : ℕ) → (leb 1 g && ltb g 1024) ≡ true → tables 2 (g * 4096 / 4096 / 1024) % 2 ≡ 1
table_present g within = let first : g * 4096 / 4096 / 1024 ≡ 0 = ground arith in rw first refl

pub machine-IsReady : IsReady 1 1024 machine
unfolding walk leaf
machine-IsReady = record {
  tables_valid = machine-IsValid;
  frames_valid = machine_frames-IsValid;
  few_frames = omega arith;
  tables = table_present;
  off_window = λ g within. ground arith;
  named = λ g within. ground arith;
}

pub nothing_mapped : (h : ℕ) → present 1 1024 h machine ≡ 0
unfolding walk leaf
nothing_mapped h = ground arith

abbrev pub laws : PagingLaws i386_paging_interface
laws = i386_laws 1 1024
