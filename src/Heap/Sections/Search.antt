-- ===== src/Heap/Sections/Search.antt =====
-- The search within a block answers only with sections that are free and in a row.
use shawn_os.Prelude.{
  ℕ, zero, suc, ◌+◌, ◌-◌, ◌%◌, ◌^◌, ◌≤◌, ◌<◌, ◌≡◌, ◌≢◌, refl, arith, true, false, not, ◌&&◌, Option,
  none, some, ltb, ◌==◌, ==_iff, if◌then◌else◌, Outcome, ok, ◌⊎◌, inl, inr, Bool-cases, ap, ◌∙◌,
}
use native.Mathlib.Decide.{dec_lt}
use native.Mathlib.Nat.{mod-eq_of_lt, mod-eq-sub-mod, mod_self, mod-lt}
use shawn_os.Kernel.{add32}
use shawn_os.Bitset.{test_bit}
use shawn_os.Bitset.Laws
use shawn_os.Bitset.Laws.{member, test_bit-cases}
use shawn_os.Asa.Scan.{RunAt, one_more, run_start}
use shawn_os.Heap.{Block}
use shawn_os.Heap.Sections.{search}

-- What the search may answer.
pub data Searched (b : Block) (n : ℕ) : Outcome (Option ℕ) → Type 0 where
  hit :
      (f : ℕ)
      → f + n ≤ b.used_sections.length
      → RunAt b.used_sections n f
      → Searched b n (ok (some f))
  miss : Searched b n (ok none)

-- What the search reads stays in range, and its index does not wrap at 32 bits.
pub record Searchable (b : Block) : Type 0 where
  pub used_valid : Laws.IsValid b.used_sections
  pub some_sections : 0 < b.used_sections.length
  pub few_sections : b.used_sections.length < 2 ^ 31
  pub starts_in : b.first_free_section ≤ b.used_sections.length

module _ (b : Block) (n : ℕ) (v : Searchable b) (pos : 0 < n) where
  abbrev total : ℕ
  total = b.used_sections.length

  -- the section that the search starts at
  abbrev origin : ℕ
  origin = b.first_free_section % total

  abbrev index : ℕ → ℕ
  index k = add32 b.first_free_section k % total

  -- A round at a taken section, and one at a free section.
  round_taken :
      (left k first cont : ℕ)
      → test_bit b.used_sections (index k) ≡ ok true
      → search b n (suc left) k first cont ≡ search b n left (k + 1) first 0
  unfolding search
  round_taken left k first cont e = rw e refl

  abbrev count_up : ℕ → ℕ → ℕ → ℕ
  count_up i first cont = add32 (if ltb i first then 0 else cont) 1

  abbrev first_of_run : ℕ → ℕ → ℕ → ℕ
  first_of_run i first cont = if not (ltb i first) && cont == 0 then i else first

  pub round_free :
      (left k first cont : ℕ)
      → test_bit b.used_sections (index k) ≡ ok false
      → search b n (suc left) k first cont ≡ (
          if count_up (index k) first cont == n
          then ok (some (first_of_run (index k) first cont))
          else search b n left
              (k + 1)
              (first_of_run (index k) first cont)
              (count_up (index k) first cont))
  unfolding search
  round_free left k first cont e = rw e refl

  origin-lt : origin < total
  origin-lt = mod-lt b.first_free_section v.some_sections

  unwrapped : (k : ℕ) → k < total → index k ≡ (b.first_free_section + k) % total
  unwrapped k lt =
      ap (λ (t : ℕ). t % total) (mod-eq_of_lt (omega (arith, v.few_sections, v.starts_in)))

  origin_cases :
      ((b.first_free_section < total) × (origin ≡ b.first_free_section))
      ⊎ ((b.first_free_section ≡ total) × (origin ≡ 0))
  origin_cases = elim (dec_lt b.first_free_section total) [
    | yes lt ↦ inl (lt, mod-eq_of_lt lt)
    | no ge ↦
        let e : b.first_free_section ≡ total = omega (arith, v.starts_in) in
        inr (e, ap (λ (t : ℕ). t % total) e ∙ mod_self total)
  ]

  low_mod : (x : ℕ) → x < total → x % total ≡ x
  low_mod x h = mod-eq_of_lt h

  high_mod : (x : ℕ) → total ≤ x → x < total + total → x % total ≡ x - total
  high_mod x lo hi = mod-eq-sub-mod lo ∙ mod-eq_of_lt (omega arith)

  index_before : (k : ℕ) → origin + k < total → index k ≡ origin + k
  index_before k h = elim origin_cases [
    | inl (lt, e) ↦
        omega (arith, unwrapped k (omega arith), low_mod (b.first_free_section + k) (omega arith))
    | inr (top, e) ↦ omega (
      arith,
      unwrapped k (omega arith),
      high_mod (b.first_free_section + k) (omega arith) (omega arith),
    )
  ]

  index_behind : (k : ℕ) → total ≤ origin + k → k < total → index k ≡ origin + k - total
  index_behind k h lt = elim origin_cases [
    | inl (low, e) ↦
        omega
          (arith, unwrapped k lt, high_mod (b.first_free_section + k) (omega arith) (omega arith))
    | inr (top, e) ↦ absurd (omega arith)
  ]

  -- Behind the wrap, with a run seen before it, two sections are never counted in a row.
  stale :
      (left k first cont : ℕ)
      → 2 ≤ n
      → k + left ≡ total
      → total ≤ origin + k
      → origin ≤ first
      → first < total
      → Searched b n (search b n left k first cont)
  unfolding search
  stale zero k first cont two e behind le lt = miss
  stale (suc left) k first cont two e behind le lt =
      let at = index_behind k behind (omega arith) in
      elim (test_bit-cases b.used_sections (index k) (omega (arith, at, origin-lt))) [
        | inl (reads, taken) ↦
            rw (round_taken left k first cont reads)
              (stale left (k + 1) first 0 two (omega arith) (omega arith) le lt)
        | inr (reads, isfree) ↦
            let back : ltb (index k) first ≡ true = ground (arith, at, origin-lt) in
            let more : (1 == n) ≡ false = ground arith in
            rw (round_free left k first cont reads, back, more)
              (stale left (k + 1) first 1 two (omega arith) (omega arith) le lt)
      ]

  -- The current run of `cont` free sections ends in front of section `i`.
  record Lin (i first cont s : ℕ) : Type 0 where
    ends : s + cont ≡ i
    short : cont < n
    named : cont ≢ 0 → first ≡ s
    run : RunAt b.used_sections cont s
    back : first ≤ i

  Lin-taken : (i first cont s : ℕ) → Lin i first cont s → Lin (i + 1) first 0 (i + 1)
  Lin-taken i first cont s l = record {
    ends = omega arith;
    short = pos;
    named = λ ne. absurd (ne refl);
    run = λ k lo hi. absurd (omega arith);
    back = omega (arith, l.back);
  }

  -- A free section extends the run: it ends the search, or the search goes on.
  free_step :
      (left k i first cont s : ℕ)
      → index k ≡ i
      → i < total
      → test_bit b.used_sections (index k) ≡ ok false
      → member b.used_sections (index k) ≡ 0
      → Lin i first cont s
      → ((2 ≤ n) → Lin (i + 1) s (cont + 1) s → Searched b n (search b n left (k + 1) s (cont + 1)))
      → Searched b n (search b n (suc left) k first cont)
  free_step left k i first cont s at lt reads isfree l go_on =
      let not_back : ltb (index k) first ≡ false = ground (arith, at, l.back) in
      let up : add32 cont 1 ≡ cont + 1 = omega (arith, v.few_sections, l.ends) in
      let begins : (if cont == 0 then index k else first) ≡ s =
        run_start cont (index k) first s (omega (arith, at, l.ends)) l.named in
      let longer : (j : ℕ) → s ≤ j → j < i + 1 → member b.used_sections j ≡ 0 =
        one_more b.used_sections s i (λ j lo hi. l.run j lo (omega (arith, l.ends)))
          (rw at at isfree) in
      rw (round_free left k first cont reads, not_back, up, begins)
        (elim (Bool-cases (cont + 1 == n)) [
          | inl done ↦
              let full : cont + 1 ≡ n = (==_iff (cont + 1) n).0 done in
              rw done
                (hit s (omega (arith, l.ends)) (λ j lo hi. longer j lo (omega (arith, l.ends))))
          | inr more ↦
              let short : cont + 1 < n = ground (arith, l.short) in
              rw more (
                go_on (omega arith) (record {
                  ends = omega (arith, l.ends);
                  short = short;
                  named = λ _. refl;
                  run = λ j lo hi. longer j lo (omega (arith, l.ends));
                  back = omega (arith, l.ends);
                }))
        ])

  -- The rounds behind the wrap, with no run seen before it.
  behind_wrap :
      (left k i first cont s : ℕ)
      → k + left ≡ total
      → origin + k ≡ i + total
      → Lin i first cont s
      → Searched b n (search b n left k first cont)
  unfolding search
  behind_wrap zero k i first cont s e at l = miss
  behind_wrap (suc left) k i first cont s e at l =
      let here : index k ≡ i = omega (arith, index_behind k (omega arith) (omega arith)) in
      let lt : i < total = omega (arith, origin-lt) in
      elim (test_bit-cases b.used_sections (index k) (omega arith)) [
        | inl (reads, taken) ↦ rw (round_taken left k first cont reads) (
            behind_wrap left (k + 1) (i + 1) first 0 (i + 1) (omega arith) (omega arith)
              (Lin-taken i first cont s l))
        | inr (reads, isfree) ↦ free_step left k i first cont s here lt reads isfree l (λ two l'.
            behind_wrap left (k + 1) (i + 1) s (cont + 1) s (omega arith) (omega arith) l')
      ]

  -- Nothing was seen yet, or a run of two sections or more is wanted and one was seen.
  abbrev Seen : ℕ → ℕ → ℕ → Type 0
  Seen i first cont = ((first ≡ 0) × (cont ≡ 0)) ⊎ ((origin ≤ first) × (first < i) × (2 ≤ n))

  -- The rounds in front of the wrap.
  before_wrap :
      (left k first cont s : ℕ)
      → k + left ≡ total
      → origin + k ≤ total
      → Lin (origin + k) first cont s
      → Seen (origin + k) first cont
      → origin ≤ s
      → Searched b n (search b n left k first cont)
  unfolding search
  before_wrap zero k first cont s e le l seen os = miss
  before_wrap (suc left) k first cont s e le l seen os = elim (dec_lt (origin + k) total) [
    | yes lt ↦
        let here : index k ≡ origin + k = index_before k lt in
        let step : origin + k + 1 ≡ origin + (k + 1) = omega arith in
        elim (test_bit-cases b.used_sections (index k) (omega arith)) [
          | inl (reads, taken) ↦ rw (round_taken left k first cont reads) (
              before_wrap left (k + 1) first 0 (origin + (k + 1)) (omega arith) (omega arith)
                (rw step at (Lin-taken (origin + k) first cont s l)) (keep_seen k first cont seen)
                (omega arith))
          | inr (reads, isfree) ↦
              free_step left k (origin + k) first cont s here lt reads isfree l (λ two l'.
                before_wrap left (k + 1) s (cont + 1) s (omega arith) (omega arith) (rw step at l')
                  (inr (os, omega (arith, l.ends), two)) os)
        ]
    | no ge ↦ elim seen [
      | inl (fz, cz) ↦ behind_wrap (suc left) k 0 first cont 0 e (omega arith) (record {
        ends = omega arith;
        short = l.short;
        named = λ ne. absurd (ne cz);
        run = λ j lo hi. absurd (omega arith);
        back = omega arith;
      })
      | inr (of, fi, two) ↦ stale (suc left) k first cont two e (omega arith) of (omega arith)
    ]
  ]
    where
      keep_seen :
          (k first cont : ℕ) → Seen (origin + k) first cont → Seen (origin + (k + 1)) first 0
      keep_seen k first cont seen = elim seen [
        | inl (fz, cz) ↦ inl (fz, refl)
        | inr (of, fi, two) ↦ inr (of, omega arith, two)
      ]

  -- The search of `kheap_malloc` in a block always ends without a failed `ASSERT`. If it answers
  -- with a section, then that many sections from there on lie in the block and are all free.
  pub search-Searched : Searched b n (search b n b.used_sections.length 0 0 0)
  search-Searched =
      before_wrap total 0 0 0 origin (omega arith) (omega (arith, origin-lt))
        (record {
          ends = refl;
          short = pos;
          named = λ ne. absurd (ne refl);
          run = λ j lo hi. absurd (omega arith);
          back = omega arith;
        })
        (inl (refl, refl)) (omega arith)
