-- ===== src/Vfs/Tests.antt =====
-- The theorems on the filesystem calls with a driver that fails each mount.
use shawn_os.Prelude.{ℕ, ◌+◌, ◌≡◌, refl, arith, none, some, [], ◌∷◌}
use shawn_os.Vfs.{FsDriver, Inode, InodeOps, Vfs, strcmp_equal, get_driver, find_driver}
use shawn_os.Vfs.Laws.{IsValid}

-- The state counts the calls; a mount ends in `K_OOM`.
abbrev failing : FsDriver ℕ
failing = record {
  name = 101 ∷ 120 ∷ 116 ∷ [];
  fs_mount = λ device point options s.
      (2, record { device = device; mount_point = point; root = 0 }, s + 1);
}

abbrev empty : Vfs ℕ
empty = record { drivers = []; superblocks = []; superblocks_size = 0 }

abbrev one_driver : Vfs ℕ
one_driver = record { drivers = failing ∷ []; superblocks = []; superblocks_size = 0 }

valid : IsValid one_driver
valid = record { counted = refl; capped = omega arith }

found : get_driver (101 ∷ 120 ∷ 116 ∷ []) one_driver ≡ some failing
unfolding get_driver find_driver strcmp_equal
found = refl

abbrev pass : Inode → ℕ → ℕ × Inode × ℕ
pass n s = (0, n, s + 1)

abbrev passing : InodeOps ℕ
passing = record {
  read = none;
  write = none;
  open_node = some pass;
  close_node = some pass;
  readdir = none;
  finddir = none;
}

abbrev node : Inode
node = record {
  ino = 2;
  device = 1;
  mask = 0;
  uid = 0;
  gid = 0;
  flags = 1;
  size = 0;
  refcount = 0xffff_ffff;
  redirect = 0;
}
