-- ===== src/Vfs/Laws.antt =====
-- Drivers, mounts and reference counts.
use shawn_os.Prelude.{
  ℕ, ◌+◌, ◌%◌, ◌^◌, ◌≤◌, ◌<◌, ◌≡◌, refl, arith, true, false, Option, none, some, List, [], ◌∷◌,
  ◌++◌, ltb, leb, ◌==◌, length, length-append, Bool-cases, inl, inr,
}
use shawn_os.Kernel.{add32, sub32, k_success}
use shawn_os.Vfs.{
  FsDriver, Inode, InodeOps, Superblock, Vfs, strcmp_equal, find_driver, get_driver, install_driver,
  add_superblock, mount, operation, inode_open, inode_close,
}

-- The table counts its superblocks, and holds 24 at most.
pub record IsValid {S : Type 0} (v : Vfs S) : Type 0 where
  pub counted : length v.superblocks ≡ v.superblocks_size
  pub capped : v.superblocks_size ≤ 24

strcmp_equal_refl : (a : List ℕ) → strcmp_equal a a ≡ true
unfolding strcmp_equal
strcmp_equal_refl [] = refl
strcmp_equal_refl (a ∷ a_rest) =
    let same : (a == a) ≡ true = ground arith in rw same (strcmp_equal_refl a_rest)

module _ {S : Type 0} where
  -- A driver is found under its name once it is installed, in front of an older one of the same
  -- name; the drivers of other names are found as before.
  get_driver-install_driver :
      (d : FsDriver S) (name : List ℕ) (v : Vfs S)
      → (get_driver d.name (install_driver d v) ≡ some d)
        × (strcmp_equal name d.name ≡ false
            → get_driver name (install_driver d v) ≡ get_driver name v)
  unfolding get_driver install_driver find_driver
  get_driver-install_driver d name v = (rw (strcmp_equal_refl d.name) refl, λ other. rw other refl)

  add_superblock-IsValid :
      (res : ℕ) (newsuper : Superblock) (v : Vfs S)
      → IsValid v
      → IsValid (add_superblock res newsuper v).1
  unfolding add_superblock
  add_superblock-IsValid res newsuper v valid = elim (Bool-cases (leb (2 ^ 31) res)) [
    | inl e ↦ rw e valid
    | inr e ↦ elim (Bool-cases (ltb 24 ((v.superblocks_size + 1) % 2 ^ 32))) [
      | inl f ↦ rw (e, f) valid
      | inr f ↦
          rw (e, f)
            (record {
              counted =
                  omega (
                    arith,
                    length-append v.superblocks (newsuper ∷ []),
                    valid.counted,
                    valid.capped,
                  );
              capped = ground (arith, f);
            })
    ]
  ]

  -- However `vfs_mount` ends, the table stays valid: it never holds more than 24 superblocks.
  mount-IsValid :
      (name : List ℕ) (device point : ℕ) (options : List ℕ) (v : Vfs S) (s : S)
      → IsValid v
      → IsValid (mount name device point options v s).1
  unfolding mount
  mount-IsValid name device point options v s valid = by_driver (get_driver name v) refl
    where
      by_driver :
          (found : Option (FsDriver S))
          → get_driver name v ≡ found
          → IsValid (mount name device point options v s).1
      by_driver none e = rw (e, mount) valid
      by_driver (some d) e = rw (e, mount) (add_superblock-IsValid _ _ v valid)

  -- With room in the table, a driver that reports any of the kernel's errors, which are positive,
  -- has its superblock added and the mount called a success.
  pub mount_ignores_result :
      (name : List ℕ) (device point : ℕ) (options : List ℕ) (v : Vfs S) (s : S) (d : FsDriver S)
      → get_driver name v ≡ some d
      → (d.fs_mount device point options s).0 < 2 ^ 31
      → v.superblocks_size < 24
      → ((mount name device point options v s).0 ≡ k_success)
        × ((mount name device point options v s).1.superblocks
            ≡ v.superblocks ++ ((d.fs_mount device point options s).1 ∷ []))
  unfolding mount add_superblock
  mount_ignores_result name device point options v s d found code room =
      let positive : leb (2 ^ 31) (d.fs_mount device point options s).0 ≡ false = ground arith in
      let fits : ltb 24 (add32 v.superblocks_size 1) ≡ false = ground arith in
      rw (found, mount) (rw (positive, fits) (refl, refl))

  -- Of an inode whose operations leave the count alone, opening and then closing it restores the
  -- reference count, at any value that the field can hold.
  inode_close-inode_open :
      (ops : InodeOps S) (node : Inode) (s : S)
      → (opened closed : Inode → S → ℕ × Inode × S) → ops.open_node ≡ some opened
      → ops.close_node ≡ some closed
      → ((n : Inode) (t : S) → (opened n t).1.refcount ≡ n.refcount)
      → ((n : Inode) (t : S) → (closed n t).1.refcount ≡ n.refcount)
      → node.refcount < 2 ^ 32
      → let (code, node', s') = inode_open (some ops) node s in
        (node'.refcount ≡ add32 node.refcount 1)
        × ((inode_close (some ops) node' s').1.refcount ≡ node.refcount)
  unfolding inode_open inode_close operation
  inode_close-inode_open ops node s opened closed open_is close_is open_keeps close_keeps small =
      rw (open_is, close_is) (open_keeps _ s, closed_count)
    where
      up : Inode
      up = record node { refcount = add32 node.refcount 1 }

      closed_count :
          (closed
            (record (opened up s).1 { refcount = sub32 (opened up s).1.refcount 1 })
            (opened up s).2).1.refcount
          ≡ node.refcount
      closed_count = omega (
        arith,
        close_keeps (record (opened up s).1 { refcount = sub32 (opened up s).1.refcount 1 })
            (opened up s).2,
        open_keeps up s,
      )
