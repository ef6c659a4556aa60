-- ===== src/Stdio/Laws.antt =====
-- What is written to standard output is what is read from it.
use shawn_os.Prelude.{
  ℕ, zero, suc, ◌+◌, ◌≤◌, ◌<◌, ◌≡◌, refl, arith, List, [], ◌∷◌, leb, ltb, false, if◌then◌else◌,
  length, set, get_or, length-set, get_or-set_self, get_or-set_ne, ap, ◌∙◌,
}
use native.Mathlib.Decide.{ℕ_discrete}
use shawn_os.Stdio.{Stdio, stdout_flush, stdout_get, stdout_writechar, stdout_writestring, strncpy}

pub record IsValid (s : Stdio) : Type 0 where
  pub places : length s.stdout ≡ 256
  pub length_in : s.stdout_length ≤ 256

-- One character written with room left.
record Appended (c : ℕ) (s t : Stdio) : Type 0 where
  valid : IsValid t
  longer : t.stdout_length ≡ s.stdout_length + 1
  last : get_or t.stdout s.stdout_length 0 ≡ c
  kept : (k : ℕ) → k < s.stdout_length → get_or t.stdout k 0 ≡ get_or s.stdout k 0

stdout_writechar-Appended :
    (c : ℕ) (s : Stdio) → IsValid s → s.stdout_length < 256 → Appended c s (stdout_writechar c s)
unfolding stdout_writechar
stdout_writechar-Appended c s v room =
    let test : leb 256 s.stdout_length ≡ false = ground arith in
    rw test (record {
      valid = record {
        places = length-set s.stdout s.stdout_length c ∙ v.places;
        length_in = omega arith;
      };
      longer = omega arith;
      last = get_or-set_self s.stdout s.stdout_length c 0 (omega (arith, v.places));
      kept = λ k h. get_or-set_ne s.stdout s.stdout_length k c 0 (omega arith);
    })

-- A string written with room left.
pub record Written (str : List ℕ) (s t : Stdio) : Type 0 where
  pub valid : IsValid t
  pub longer : t.stdout_length ≡ s.stdout_length + length str
  pub text : (k : ℕ) → k < length str → get_or t.stdout (s.stdout_length + k) 0 ≡ get_or str k 0
  pub kept : (k : ℕ) → k < s.stdout_length → get_or t.stdout k 0 ≡ get_or s.stdout k 0

Written-after :
    (c : ℕ) (str : List ℕ) (s t u : Stdio)
    → Appended c s t
    → Written str t u
    → Written (c ∷ str) s u
Written-after c str s t u one rest = record {
  valid = rest.valid;
  longer = omega (arith, one.longer, rest.longer);
  text = text;
  kept = λ k h. rest.kept k (omega (arith, one.longer)) ∙ one.kept k h;
}
  where
    text :
        (k : ℕ)
        → k < suc (length str)
        → get_or u.stdout (s.stdout_length + k) 0 ≡ get_or (c ∷ str) k 0
    text zero h =
        ap (λ (n : ℕ). get_or u.stdout n 0) (omega arith)
        ∙ rest.kept s.stdout_length (omega (arith, one.longer))
        ∙ one.last
    text (suc k) h =
        ap (λ (n : ℕ). get_or u.stdout n 0) (omega (arith, one.longer)) ∙ rest.text k (omega arith)

-- A string that fits behind what is held is appended to it, and nothing is lost.
stdout_writestring-Written :
    (str : List ℕ) (s : Stdio)
    → IsValid s
    → s.stdout_length + length str ≤ 256
    → Written str s (stdout_writestring str s)
unfolding stdout_writestring
stdout_writestring-Written [] s v fits = record {
  valid = v;
  longer = omega arith;
  text = λ k h. absurd (omega arith);
  kept = λ k h. refl;
}
stdout_writestring-Written (c ∷ str) s v fits =
    let one = stdout_writechar-Appended c s v (omega arith) in
    Written-after c str s (stdout_writechar c s) _ one
      (stdout_writestring-Written str (stdout_writechar c s) one.valid (omega (arith, one.longer)))

get_or-strncpy :
    (n i k : ℕ) (dest src : List ℕ)
    → i + n ≤ length dest
    → get_or (strncpy n i dest src) k 0 ≡ (
        if ltb k i
        then get_or dest k 0
        else (if ltb k (i + n) then get_or src k 0 else get_or dest k 0))
unfolding strncpy
get_or-strncpy zero i k dest src fits = ground arith
get_or-strncpy (suc n) i k dest src fits =
    let rest =
      get_or-strncpy n (i + 1) k (set dest i (get_or src i 0)) src
        (omega (arith, length-set {0} dest i (get_or src i 0))) in
    elim (ℕ_discrete i k) [
      | yes e ↦ ground (
        arith,
        rest,
        get_or-set_self dest i (get_or src i 0) 0 (omega arith),
        ap (λ (t : ℕ). get_or (set dest i (get_or src i 0)) t 0) e,
        ap (λ (t : ℕ). get_or src t 0) e,
      )
      | no ne ↦ ground (arith, rest, get_or-set_ne dest i k (get_or src i 0) 0 ne)
    ]

-- What a terminal reads: the state is flushed, and the caller's buffer starts with what was held.
stdout_get_lem :
    (buffer : List ℕ) (s : Stdio)
    → s.stdout_length ≤ length buffer
    → let (out, n, t) = stdout_get buffer s in
      (n ≡ s.stdout_length)
      × (t.stdout_length ≡ 0)
      × ((k : ℕ) → k < n → get_or out k 0 ≡ get_or s.stdout k 0)
unfolding stdout_get stdout_flush
stdout_get_lem buffer s fits = (
  refl,
  refl,
  λ k h. ground (arith, get_or-strncpy s.stdout_length 0 k buffer s.stdout (omega arith)),
)

-- A string of at most 256 characters, written to an empty standard output, is read back whole.
pub stdout_get-stdout_writestring :
    (str buffer : List ℕ) (s : Stdio)
    → IsValid s
    → s.stdout_length ≡ 0
    → length str ≤ 256
    → length buffer ≡ 256
    → let (out, n, t) = stdout_get buffer (stdout_writestring str s) in
      (n ≡ length str) × (t.stdout_length ≡ 0) × ((k : ℕ) → k < n → get_or out k 0 ≡ get_or str k 0)
stdout_get-stdout_writestring str buffer s v empty fits room =
    let w = stdout_writestring-Written str s v (omega arith) in
    let (same, flushed, copied) =
      stdout_get_lem buffer (stdout_writestring str s) (omega (arith, w.longer)) in
    (
      omega (arith, w.longer, same),
      flushed,
      λ k h.
          copied k h
          ∙ ap (λ (n : ℕ). get_or (stdout_writestring str s).stdout n 0) (omega arith)
          ∙ w.text k (omega (arith, w.longer, same)),
    )
