-- ===== src/Bootmem/Handing.antt =====
-- The loops of `free_all_bootmem_core_bs` in mm/bootmem.c.
use biscuit_os_memory.Common.{
  ℕ, zero, suc, ◌+◌, ◌-◌, ◌*◌, ◌%◌, ◌^◌, ◌<◌, ◌≤◌, ◌≡◌, sym, ap, refl, ◌∙◌, inl, inr, ◌⊎◌, arith,
  Bool, true, false, leb, ltb, not, ◌&&◌, ltb-cases, Bool-cases, if◌then◌else◌, ok, ◌>>=◌, Returns,
  returns, Returns-bind, Returns-mono,
}
use biscuit_os_memory.Buddy.{Mm}
use biscuit_os_memory.Buddy.Cover.{hit, hit-cases}
use biscuit_os_memory.Pcp.{nr_cpus}
use biscuit_os_memory.Pcp.Held.{Inv, held}
use biscuit_os_memory.Bootmem.Handover.{
  free_one, free_word, all_free, any_free, bits_per_long, free_bits, free_bits_of_word, free_words,
}
use biscuit_os_memory.Bootmem.Handed.{Waiting, Taken, free_one-Taken, free_word-Taken}
use biscuit_os_memory.Bootmem.Sums.{
  free_sum, free_sum-add, free_sum-zero, free_sum-hit, free_sum-ones, all_free-false, any_free-true,
}

module _ (map : ℕ → Bool) (base : ℕ) where
  -- How often a page is among the free ones of `rounds` pages from `i` on
  abbrev pub handed : ℕ → ℕ → ℕ → ℕ
  handed rounds i q = free_sum map (λ j. hit (base + j) 0 q) rounds i

  -- The zone has got the free pages among `rounds` pages from `i` on, and they are counted.
  pub record Gain (s : Mm) (count rounds i : ℕ) (r : ℕ × Mm) : Type 0 where
    pub inv : Inv (r.1)
    pub counted : r.0 ≡ count + free_sum map (λ _. 1) rounds i
    pub held : (q : ℕ) → held (r.1) q ≡ held s q + handed rounds i q
    pub waits : (q : ℕ) → handed rounds i q ≡ 0 → Waiting s q → Waiting (r.1) q

  -- The free pages from `i` on wait.
  abbrev pub AllWait : Mm → ℕ → Type 0
  AllWait s i = (j : ℕ) → i ≤ j → map j ≡ false → Waiting s (base + j)

  pub Gain-none :
      (s : Mm) (count rounds i : ℕ)
      → Inv s
      → ((j : ℕ) → i ≤ j → j < i + rounds → map j ≡ true)
      → Gain s count rounds i (count, s)
  Gain-none s count rounds i v taken = record {
    inv = v;
    counted = omega (arith, nothing (λ _. 1));
    held = λ q. omega (arith, nothing (λ j. hit (base + j) 0 q));
    waits = λ q _ w. w;
  }
    where
      nothing : (f : ℕ → ℕ) → free_sum map f rounds i ≡ 0
      nothing f =
          free_sum-zero map f rounds i (λ j lo hi e. absurd (ground (arith, taken j lo hi, e)))

  pub Gain-trans :
      {s : Mm} {r r' : ℕ × Mm} (count a b i n k : ℕ)
      → n ≡ a + b
      → k ≡ i + a
      → Gain s count a i r
      → Gain (r.1) (r.0) b k r'
      → Gain s count n i r'
  Gain-trans count a b i n k en ek g h = record {
    inv = h.inv;
    counted = omega (arith, g.counted, h.counted, sums (λ _. 1));
    held = λ q. omega (arith, g.held q, h.held q, sums (λ j. hit (base + j) 0 q));
    waits = λ q none_handed w.
        h.waits q (omega (arith, none_handed, sums (λ j. hit (base + j) 0 q)))
          (g.waits q (omega (arith, none_handed, sums (λ j. hit (base + j) 0 q))) w);
  }
    where
      sums : (f : ℕ → ℕ) → free_sum map f n i ≡ free_sum map f a i + free_sum map f b k
      sums f = free_sum-add map f a b i n k en ek

  -- What comes later waits after a step.
  pub Gain-AllWait :
      {s : Mm} {r : ℕ × Mm} (count rounds i k : ℕ)
      → k ≡ i + rounds
      → Gain s count rounds i r
      → AllWait s i
      → AllWait (r.1) k
  Gain-AllWait count rounds i k ek g w j ge e =
      g.waits (base + j) (free_sum-hit map base rounds i (base + j) ∙ ground (arith, ek, ge))
        (w j (omega (arith, ek, ge)) e)

  -- One page
  pub Gain-one :
      {s t : Mm} (count i : ℕ)
      → map i ≡ false
      → Taken s (base + i) 0 t
      → Gain s count 1 i (count + 1, t)
  unfolding free_sum
  Gain-one {s} {t} count i e k = record {
    inv = k.inv;
    counted = rw e (omega arith);
    held = λ q. rw e (omega (arith, k.held q));
    waits = λ q none_handed w. k.waits q (omega (arith, rw e at none_handed)) w;
  }

  module _ (idx cpu : ℕ) (c : cpu < nr_cpus) (guard : (j : ℕ) → idx ≤ j → map j ≡ true) where
    pub free_bits-Gain :
        (rounds : ℕ) (s : Mm) (i count : ℕ)
        → Inv s
        → AllWait s i
        → Returns (Gain s count rounds i) (free_bits map idx base cpu rounds s i count)
    unfolding free_bits
    free_bits-Gain zero s i count v w =
        returns (Gain-none s count 0 i v (λ j lo hi. absurd (omega arith)))
    free_bits-Gain (suc rounds) s i count v w = elim (ltb-cases i idx) [
      | inr (t, ge) ↦ rw t (
          returns (Gain-none s count (suc rounds) i v (λ j lo hi. guard j (omega (arith, ge, lo)))))
      | inl (t, lt) ↦ rw t (
          Returns-bind one (λ r g.
            Returns-mono
              (free_bits-Gain rounds (r.1) (i + 1) (r.0) g.inv
                (Gain-AllWait count 1 i (i + 1) (omega arith) g w))
              (λ r' h.
                Gain-trans count 1 rounds i (suc rounds) (i + 1) (omega arith) (omega arith) g h)))
    ]
      where
        one : Returns (Gain s count 1 i) (
            if map i then ok (count, s) else (free_one s cpu (base + i) >>= λ t. ok (count + 1, t)))
        one = elim (Bool-cases (map i)) [
          | inl e ↦ rw e (
              returns (
                Gain-none s count 1 i v
                  (λ j lo hi. let here : i ≡ j = omega (arith, lo, hi) in ap map (sym here) ∙ e)))
          | inr e ↦ rw e (
              Returns-bind (free_one-Taken s cpu (base + i) c v (w i (omega arith) e))
                (λ t k. returns (Gain-one count i e k)))
        ]

    -- A word whose pages are all free
    word-Gain :
        (s : Mm) (i count : ℕ)
        → (base + i) % bits_per_long ≡ 0
        → all_free bits_per_long map i ≡ true
        → Inv s
        → AllWait s i
        → Returns
            (Gain s count bits_per_long i)
            (free_word s cpu (base + i) 5 >>= λ t. ok (count + bits_per_long, t))
    word-Gain s i count aligned e v w =
        Returns-bind (free_word-Taken s cpu (base + i) c aligned v waits) (λ t k. returns (record {
          inv = k.inv;
          counted = omega (arith, free_sum-ones map bits_per_long i free);
          held = λ q. k.held q ∙ ap (λ n. held s q + n) (sym (block q));
          waits = λ q none_handed x. k.waits q (sym (block q) ∙ none_handed) x;
        }))
      where
        free : (j : ℕ) → i ≤ j → j < i + bits_per_long → map j ≡ false
        free j lo hi = all_free-false bits_per_long map i j e lo hi

        waits : (q : ℕ) → base + i ≤ q → q < base + i + bits_per_long → Waiting s q
        waits q lo hi =
            let there : base + (q - base) ≡ q = omega (arith, lo) in
            rw there at (
              w (q - base) (omega (arith, lo))
                (free (q - base) (omega (arith, lo)) (omega (arith, lo, hi))))

        block : (q : ℕ) → handed bits_per_long i q ≡ hit (base + i) 5 q
        block q = free_sum-hit map base bits_per_long i q ∙ whole q (hit-cases (base + i) 5 q)
          where
            whole :
                (q : ℕ)
                → ((hit (base + i) 5 q ≡ 1) × (base + i ≤ q) × (q < base + i + 2 ^ 5))
                  ⊎ ((hit (base + i) 5 q ≡ 0) × (base + i ≤ q → base + i + 2 ^ 5 ≤ q))
                → (if leb (base + i) q && ltb q (base + i + bits_per_long) && not (map (q - base))
                    then 1
                    else 0)
                  ≡ hit (base + i) 5 q
            whole q (inl (h, lo, hi)) =
                let e' = free (q - base) (omega (arith, lo)) (omega (arith, lo, hi)) in
                rw (h, e') (ground (arith, lo, hi))
            whole q (inr (h, past)) = rw h (ground (arith, past))

    free_bits_of_word-Gain :
        (gofast : Bool) (s : Mm) (i count : ℕ)
        → (gofast ≡ true → base % bits_per_long ≡ 0)
        → i % bits_per_long ≡ 0
        → Inv s
        → AllWait s i
        → Returns
            (Gain s count bits_per_long i)
            (free_bits_of_word map idx base cpu gofast 5 s i count)
    unfolding free_bits_of_word
    free_bits_of_word-Gain gofast s i count fast whole v w =
        elim (Bool-cases (gofast && all_free bits_per_long map i)) [
          | inl e ↦ rw e (
              word-Gain s i count (omega (arith, fast (ground (arith, e)), whole))
                (ground (arith, e)) v w)
          | inr e ↦ elim (Bool-cases (any_free bits_per_long map i)) [
            | inl e' ↦ rw (e, e') (free_bits-Gain bits_per_long s i count v w)
            | inr e' ↦
                rw (e, e')
                  (returns (
                    Gain-none s count bits_per_long i v
                      (λ j lo hi. any_free-true bits_per_long map i j e' lo hi)))
          ]
        ]

    -- The words of the map
    pub free_words-Gain :
        (rounds : ℕ) (gofast : Bool) (s : Mm) (i count : ℕ)
        → (gofast ≡ true → base % bits_per_long ≡ 0)
        → i % bits_per_long ≡ 0
        → Inv s
        → AllWait s i
        → Returns
            (Gain s count (rounds * bits_per_long) i)
            (free_words map idx base cpu rounds gofast 5 s i count)
    unfolding free_words
    free_words-Gain zero gofast s i count fast whole v w =
        returns (Gain-none s count (zero * bits_per_long) i v (λ j lo hi. absurd (omega arith)))
    free_words-Gain (suc rounds) gofast s i count fast whole v w = elim (ltb-cases i idx) [
      | inr (t, ge) ↦ rw t (
          returns (
            Gain-none s count (suc rounds * bits_per_long) i v
              (λ j lo hi. guard j (omega (arith, ge, lo)))))
      | inl (t, lt) ↦ rw t (
          Returns-bind one (λ r g.
            Returns-mono
              (free_words-Gain rounds gofast (r.1) (i + bits_per_long) (r.0) fast
                (omega (arith, whole)) g.inv
                (Gain-AllWait count bits_per_long i (i + bits_per_long) refl g w))
              (λ r' h.
                Gain-trans count bits_per_long (rounds * bits_per_long) i
                  (suc rounds * bits_per_long) (i + bits_per_long) (omega arith) refl g h)))
    ]
      where
        one :
            Returns
              (Gain s count bits_per_long i)
              (free_bits_of_word map idx base cpu gofast 5 s i count)
        one = free_bits_of_word-Gain gofast s i count fast whole v w
