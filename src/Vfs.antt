-- ===== src/Vfs.antt =====
-- kernel/fs/vfs.c and kernel/include/fs/vfs.h: drivers, mounts and inodes.
-- A pointer to a function is an optional function; `S` is the state of the filesystem drivers behind
-- them. A string is the list of its characters in front of the terminating 0. `kmalloc` gives each
-- new structure a place of its own, so a structure is its value. The lock around the reference
-- count is that of Lock; here one call runs at a time.
pub mod Laws
pub mod Lock
mod Tests
use shawn_os.Prelude.{
  ℕ, zero, suc, ◌+◌, ◌^◌, Bool, true, false, Option, none, some, List, [], ◌∷◌, ◌++◌, ltb, leb,
  ◌==◌, if◌then◌else◌,
}
use shawn_os.Kernel.{add32, sub32, k_success, k_unimpl, k_oom, k_notsup}

abbrev pub max_superblocks : ℕ
max_superblocks = 24

pub record Dirent : Type 0 where
  pub name : List ℕ
  pub ino : ℕ

-- `struct fs_inode` without `ops`, which the calls take beside it; `redirect` is an address.
pub record Inode : Type 0 where
  pub ino : ℕ
  pub device : ℕ
  pub mask : ℕ
  pub uid : ℕ
  pub gid : ℕ
  pub flags : ℕ
  pub size : ℕ
  pub refcount : ℕ
  pub redirect : ℕ

-- Each function returns a result code, what it writes through its pointers, and the new state.
pub record InodeOps (S : Type 0) : Type 0 where
  pub read : Option (Inode → ℕ → ℕ → S → ℕ × List ℕ × S)
  pub write : Option (Inode → ℕ → ℕ → List ℕ → S → ℕ × S)
  pub open_node : Option (Inode → S → ℕ × Inode × S)
  pub close_node : Option (Inode → S → ℕ × Inode × S)
  pub readdir : Option (Inode → ℕ → S → ℕ × Option Dirent × S)
  pub finddir : Option (Inode → List ℕ → S → ℕ × Option Dirent × S)

-- `mount_point` and `root` are addresses of inodes, 0 for the root of the system.
pub record Superblock : Type 0 where
  pub device : ℕ
  pub mount_point : ℕ
  pub root : ℕ

pub record FsDriver (S : Type 0) : Type 0 where
  pub name : List ℕ
  pub fs_mount : ℕ → ℕ → List ℕ → S → ℕ × Superblock × S

-- The installed drivers, the newest first, and the superblocks in the order of mounting.
pub record Vfs (S : Type 0) : Type 0 where
  pub drivers : List (FsDriver S)
  pub superblocks : List Superblock
  pub superblocks_size : ℕ

-- libsc/string/strcmp.c, `strcmp(a, b) == 0`
unfoldable pub strcmp_equal : List ℕ → List ℕ → Bool
strcmp_equal [] [] = true
strcmp_equal [] (b ∷ b_rest) = false
strcmp_equal (a ∷ a_rest) [] = false
strcmp_equal (a ∷ a_rest) (b ∷ b_rest) =
    let rest = strcmp_equal a_rest b_rest in if a == b then rest else false

-- `res < 0` on a result code, a 32-bit pattern.
abbrev pub is_negative : ℕ → Bool
is_negative code = leb (2 ^ 31) code

module _ {S : Type 0} where
  unfoldable pub find_driver : List ℕ → List (FsDriver S) → Option (FsDriver S)
  find_driver name [] = none
  find_driver name (cur ∷ drivers) =
      let rest = find_driver name drivers in if strcmp_equal name cur.name then some cur else rest

  unfoldable pub get_driver : List ℕ → Vfs S → Option (FsDriver S)
  get_driver name v = find_driver name v.drivers

  unfoldable pub install_driver : FsDriver S → Vfs S → Vfs S
  install_driver driver v = record v { drivers = driver ∷ v.drivers }

  -- `vfs_mount` after the call of the driver.
  unfoldable pub add_superblock : ℕ → Superblock → Vfs S → ℕ × Vfs S
  add_superblock res newsuper v =
      if is_negative res
      then (res, v)
      else if ltb max_superblocks (add32 v.superblocks_size 1)
      then (k_oom, v)
      else (
        k_success,
        record v {
          superblocks = v.superblocks ++ (newsuper ∷ []);
          superblocks_size = add32 v.superblocks_size 1;
        },
      )

  -- The result code, the table and the drivers' state.
  unfoldable pub mount : List ℕ → ℕ → ℕ → List ℕ → Vfs S → S → ℕ × Vfs S × S
  mount driver device mount_point options v s = elim (get_driver driver v) [
    | none ↦ (k_notsup, v, s)
    | some info ↦
        let (res, newsuper, s') = info.fs_mount device mount_point options s in
        let (code, v') = add_superblock res newsuper v in (code, v', s')
  ]

  -- `ops && ops->f`
  unfoldable pub operation {ℓ} :
      {F : Type ℓ} → (InodeOps S → Option F) → Option (InodeOps S) → Option F
  operation f none = none
  operation f (some ops) = f ops

  unfoldable pub inode_read : Option (InodeOps S) → Inode → ℕ → ℕ → S → ℕ × List ℕ × S
  inode_read ops node offset size s = elim (operation (λ o. o.read) ops) [
    | none ↦ (k_unimpl, [], s)
    | some f ↦ f node offset size s
  ]

  unfoldable pub inode_write : Option (InodeOps S) → Inode → ℕ → ℕ → List ℕ → S → ℕ × S
  inode_write ops node offset size buf s = elim (operation (λ o. o.write) ops) [
    | none ↦ (k_unimpl, s)
    | some f ↦ f node offset size buf s
  ]

  unfoldable pub inode_open : Option (InodeOps S) → Inode → S → ℕ × Inode × S
  inode_open ops node s = elim (operation (λ o. o.open_node) ops) [
    | none ↦ (k_unimpl, node, s)
    | some f ↦ f (record node { refcount = add32 node.refcount 1 }) s
  ]

  unfoldable pub inode_close : Option (InodeOps S) → Inode → S → ℕ × Inode × S
  inode_close ops node s = elim (operation (λ o. o.close_node) ops) [
    | none ↦ (k_unimpl, node, s)
    | some f ↦ f (record node { refcount = sub32 node.refcount 1 }) s
  ]

  unfoldable pub inode_readdir : Option (InodeOps S) → Inode → ℕ → S → ℕ × Option Dirent × S
  inode_readdir ops node num s = elim (operation (λ o. o.readdir) ops) [
    | none ↦ (k_unimpl, none, s)
    | some f ↦ f node num s
  ]

  unfoldable pub inode_finddir : Option (InodeOps S) → Inode → List ℕ → S → ℕ × Option Dirent × S
  inode_finddir ops node name s = elim (operation (λ o. o.finddir) ops) [
    | none ↦ (k_unimpl, none, s)
    | some f ↦ f node name s
  ]
