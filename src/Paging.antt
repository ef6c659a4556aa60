-- ===== src/Paging.antt =====
-- kernel/include/mm/paging.h and kernel/mm/paging.c: the paging system that is installed, behind
-- function pointers, and the calls that go through them.
-- `P` is the state of the installed system. An operation returns its result code and a new state;
-- `none` is a `NULL` pointer.
use shawn_os.Prelude.{ℕ, Option, none, some, Outcome, ok, abort, ◌>>=◌}

pub record PagingInterface (P : Type 0) : Type 0 where
  pub kpage_allocate : Option (ℕ → ℕ → P → Outcome (ℕ × P))
  pub kpage_free : Option (ℕ → P → Outcome (ℕ × P))
  pub kpage_identity_map : Option (ℕ → ℕ → P → Outcome (ℕ × P))
  pub kpage_get_phys : Option (ℕ → P → Outcome (ℕ × P))

-- `ASSERT` on a function pointer.
abbrev pub installed {ℓ} : {A : Type ℓ} → Option A → Outcome A
installed none = abort
installed (some f) = ok f

module _ {P : Type 0} (interface : PagingInterface P) where
  unfoldable pub kpage_allocate : ℕ → ℕ → P → Outcome (ℕ × P)
  kpage_allocate addr flags p = do f ← installed interface.kpage_allocate; f addr flags p

  unfoldable pub kpage_free : ℕ → P → Outcome (ℕ × P)
  kpage_free addr p = do f ← installed interface.kpage_free; f addr p

  unfoldable pub kpage_identity_map : ℕ → ℕ → P → Outcome (ℕ × P)
  kpage_identity_map addr flags p = do f ← installed interface.kpage_identity_map; f addr flags p

  unfoldable pub kpage_get_phys : ℕ → P → Outcome (ℕ × P)
  kpage_get_phys addr p = do f ← installed interface.kpage_get_phys; f addr p
