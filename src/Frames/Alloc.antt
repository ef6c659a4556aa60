-- ===== src/Frames/Alloc.antt =====
-- The frame allocator: the lowest free frame, what failure means, and giving a frame back.
use shawn_os.Prelude.{
  ℕ, ◌*◌, ◌/◌, ◌<◌, ◌≡◌, ◌≢◌, refl, arith, false, ◌==◌, if◌then◌else◌, Outcome, ok, ◌>>=◌, ap,
}
use native.Mathlib.Decide.{dec_lt}
use mathlib.Core.Path.{subst₂}
use shawn_os.Kernel.{page_size}
use shawn_os.Bitset.{set_bit, with_bit, without_bit, index_from_bit}
use shawn_os.Bitset.Laws
use shawn_os.Bitset.Laws.{
  member, member-with_bit, member-without_bit, with_bit-IsValid, without_bit-IsValid, set_bit-ok,
  clear_bit-ok,
}
use shawn_os.Bitset.Range.{length-with_bit, length-without_bit}
use shawn_os.Frames.{Frames, get_next_free_frame, allocate_frame, free_frame}
use shawn_os.Frames.Scan.{Lowest, found, full, next_free-Lowest}

-- As `i386_mem_init` leaves the state: a bit for each frame, and frame 0 in use.
pub record IsValid (s : Frames) : Type 0 where
  pub bits : Laws.IsValid s.bitset
  pub sized : s.bitset.length ≡ s.highest_free_address / page_size
  pub zero_taken : member s.bitset 0 ≡ 1

-- The frames that the search reads: those of the whole words of the bitset.
abbrev pub searched : Frames → ℕ
searched s = 32 * index_from_bit (s.highest_free_address / page_size)

-- How an allocation in `s` may end.
pub data Allocated (s : Frames) : Outcome (ℕ × Frames) → Type 0 where
  granted :
      (f : ℕ) (s' : Frames)
      → f ≢ 0
      → f < searched s
      → member s.bitset f ≡ 0
      → ((g : ℕ) → g < f → member s.bitset g ≡ 1)
      → ((m : ℕ) → member s'.bitset m ≡ (if f == m then 1 else member s.bitset m))
      → IsValid s'
      → searched s' ≡ searched s
      → Allocated s (ok (f, s'))
  exhausted : ((g : ℕ) → g < searched s → member s.bitset g ≡ 1) → Allocated s (ok (0, s))

abbrev take_frame : Frames → ℕ → Outcome (ℕ × Frames)
take_frame s frame =
    if frame == 0
    then ok (frame, s)
    else (set_bit s.bitset frame >>= λ b. ok (frame, record s { bitset = b }))

take_frame-Allocated :
    (s : Frames) {f : ℕ} → IsValid s → Lowest s.bitset (searched s) f → Allocated s (take_frame s f)
take_frame-Allocated s v (full all) = exhausted all
take_frame-Allocated s v (found f inside free lowest) =
    let nonzero : f ≢ 0 = λ e. omega (arith, v.zero_taken, ap (member s.bitset) e) in
    let here : f < s.bitset.length = omega (arith, v.sized) in
    let test : (f == 0) ≡ false = ground arith in
    rw (test, set_bit-ok s.bitset f v.bits here)
      (granted f (record s { bitset = with_bit s.bitset f }) nonzero inside free lowest
        (member-with_bit s.bitset f v.bits here)
        (record {
          bits = with_bit-IsValid s.bitset f v.bits here;
          sized = rw (length-with_bit s.bitset f) v.sized;
          zero_taken = ground (arith, member-with_bit s.bitset f v.bits here 0, v.zero_taken);
        })
        refl)

-- `i386_mem_allocate_frame` in a valid state always returns. Either it returns the lowest free
-- frame, which is not frame 0, and marks that frame alone; or it returns 0, changes nothing, and
-- every frame of the words that it searches is in use.
pub allocate_frame-Allocated : (s : Frames) → IsValid s → Allocated s (allocate_frame s)
unfolding allocate_frame get_next_free_frame
allocate_frame-Allocated s v = take_frame-Allocated s v (
    next_free-Lowest s.bitset (index_from_bit (s.highest_free_address / page_size)) 0
      (index_from_bit (s.highest_free_address / page_size)) (omega arith)
      (λ g h. absurd (omega arith)))

-- Freeing a frame of the bitset, other than frame 0, in a valid state returns a valid state in
-- which that frame is free and every other frame is as it was.
free_frame_lem :
    (s : Frames) (f : ℕ)
    → IsValid s
    → f ≢ 0
    → f < s.bitset.length
    → (s' : Frames) × (free_frame f s ≡ ok s')
      × IsValid s'
      × ((m : ℕ) → member s'.bitset m ≡ (if f == m then 0 else member s.bitset m))
unfolding free_frame
free_frame_lem s f v ne here = (
  record s { bitset = without_bit s.bitset f },
  rw (clear_bit-ok s.bitset f v.bits here) refl,
  record {
    bits = without_bit-IsValid s.bitset f v.bits here;
    sized = rw (length-without_bit s.bitset f) v.sized;
    zero_taken = ground (arith, member-without_bit s.bitset f v.bits here 0, v.zero_taken);
  },
  member-without_bit s.bitset f v.bits here,
)

-- What a successful allocation of frame `f` says.
pub record Grant (s : Frames) (f : ℕ) (s' : Frames) : Type 0 where
  pub inside : f < searched s
  pub free : member s.bitset f ≡ 0
  pub lowest : (g : ℕ) → g < f → member s.bitset g ≡ 1
  pub members : (m : ℕ) → member s'.bitset m ≡ (if f == m then 1 else member s.bitset m)
  pub valid : IsValid s'
  pub same : searched s' ≡ searched s

pub Grant-of_answer :
    {s : Frames} {r : Outcome (ℕ × Frames)} (f : ℕ) (s' : Frames)
    → Allocated s r
    → r ≡ ok (f, s')
    → f ≢ 0
    → Grant s f s'
Grant-of_answer {s} f s' (granted f' t n i fr lo ms v sm) e ne =
    subst₂ (Grant s) (cc) (cc)
      (record { inside = i; free = fr; lowest = lo; members = ms; valid = v; same = sm })
Grant-of_answer f s' (exhausted all) e ne = absurd (ne (cc))

-- Two successful allocations in a row return different frames, the second above the first.
allocate_frame_twice :
    (s t u : Frames) (f g : ℕ)
    → IsValid s
    → allocate_frame s ≡ ok (f, t)
    → f ≢ 0
    → allocate_frame t ≡ ok (g, u)
    → g ≢ 0
    → f < g
allocate_frame_twice s t u f g v ef nf eg ng =
    let first = Grant-of_answer f t (allocate_frame-Allocated s v) ef nf in
    let second = Grant-of_answer g u (allocate_frame-Allocated t first.valid) eg ng in
    elim (dec_lt f g) [
      | yes lt ↦ lt
      | no ge ↦ absurd (ground (arith, second.free, first.members g, first.lowest g))
    ]

-- An allocated frame can be given back: the bitset then says of every frame what it said before.
pub free_frame-allocate_frame :
    (s t : Frames) (f : ℕ)
    → IsValid s
    → allocate_frame s ≡ ok (f, t)
    → f ≢ 0
    → (u : Frames) × (free_frame f t ≡ ok u) × ((m : ℕ) → member u.bitset m ≡ member s.bitset m)
free_frame-allocate_frame s t f v e ne =
    let g = Grant-of_answer f t (allocate_frame-Allocated s v) e ne in
    let (u, eu, vu, ms) =
      free_frame_lem t f g.valid ne (omega (arith, g.valid.sized, g.same, g.inside)) in
    (u, eu, λ m. ground (arith, ms m, g.members m, g.free, same_member f m))
  where
    same_member : (x m : ℕ) → x ≡ m → member s.bitset x ≡ member s.bitset m
    same_member x m h = ap (member s.bitset) h
