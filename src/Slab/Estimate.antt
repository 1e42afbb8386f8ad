-- ===== src/Slab/Estimate.antt =====
-- What the layout of a cache in mm/slab.c comes to.
use biscuit_os_memory.Common.{
  ℕ, zero, suc, ◌+◌, ◌-◌, ◌*◌, ◌/◌, ◌^◌, ◌≤◌, ◌<◌, ◌≡◌, refl, ap, ◌⊎◌, inl, inr, false, ltb,
  if◌then◌else◌, leb-cases, ==-cases, arith,
}
use biscuit_os_memory.Vmalloc.{page_size}
use biscuit_os_memory.Slab.{slab_limit, cflgs_off_slab, has}
use biscuit_os_memory.Slab.Sizing.{
  Estimate, slab_need, count_fits, estimate_with, cache_estimate, order_loop, halve_align,
  max_gfp_order,
}
use native.Mathlib.Nat.{le-mul_of_pos_right}

module _ (align_up : ℕ → ℕ → ℕ) (size align flags : ℕ) where
  -- The loop stops at the first number of objects that does not fit, or when its rounds are used up.
  pub record Stops (rounds wastage i r : ℕ) : Type 0 where
    pub start : i ≤ r
    pub before : (k : ℕ) → i ≤ k → k < r → slab_need align_up size align flags k ≤ wastage
    pub stop : (wastage < slab_need align_up size align flags r) ⊎ (r ≡ i + rounds)

  count_fits-Stops :
      (rounds wastage i : ℕ)
      → Stops rounds wastage i (count_fits align_up rounds wastage size align flags i)
  unfolding count_fits
  count_fits-Stops zero wastage i = record {
    start = omega arith;
    before = λ k le lt. absurd (omega arith);
    stop = inr (omega arith);
  }
  count_fits-Stops (suc rounds) wastage i =
      let ih = count_fits-Stops rounds wastage (i + 1) in
      elim (leb-cases (slab_need align_up size align flags i) wastage) [
        | inl (e, le) ↦ rw e (record {
          start = omega (arith, ih.start);
          before = λ k l lt. elim (==-cases i k) [
            | inl (_, same) ↦ subst_le same le
            | inr (_, differ) ↦ ih.before k (omega arith) lt
          ];
          stop = elim ih.stop [ inl over ↦ inl over | inr out ↦ inr (omega arith) ];
        })
        | inr (e, lt) ↦ rw e (record {
          start = omega arith;
          before = λ k l lt'. absurd (omega arith);
          stop = inl lt;
        })
      ]
    where
      subst_le :
          {i k : ℕ}
          → i ≡ k
          → slab_need align_up size align flags i ≤ wastage
          → slab_need align_up size align flags k ≤ wastage
      subst_le {i} {k} same le = omega (arith, ap (slab_need align_up size align flags) same)

  -- An object takes at least a byte.
  need_ge : (k : ℕ) → 0 < size → k ≤ slab_need align_up size align flags k
  unfolding slab_need
  need_ge k pos = omega (arith, le-mul_of_pos_right k pos)

  -- The rounds of `cache_estimate_bs` are enough: the loop ends at the first number that does not fit.
  pub count_fits-first :
      (wastage : ℕ)
      → 0 < size
      → ((k : ℕ)
          → k < count_fits align_up (wastage + 1) wastage size align flags 0
          → slab_need align_up size align flags k ≤ wastage)
        × (wastage
            < slab_need align_up size align flags
                (count_fits align_up (wastage + 1) wastage size align flags 0))
  count_fits-first wastage pos =
      let s = count_fits-Stops (wastage + 1) wastage 0 in
      (
        (λ k lt. s.before k (omega arith) lt),
        elim s.stop [
          | inl over ↦ over
          | inr out ↦ omega (
            arith,
            out,
            need_ge (count_fits align_up (wastage + 1) wastage size align flags 0) pos,
          )
        ],
      )

  -- What `cache_estimate_bs` finds for a slab of `wastage` bytes.
  pub record Fills (wastage : ℕ) (e : Estimate) : Type 0 where
    pub whole : slab_need align_up size align flags e.num + e.left_over ≡ wastage
    pub most : wastage < slab_need align_up size align flags (e.num + 1)

  -- The subtractions of `cache_estimate_bs` do not wrap where the objects fit.
  estimate_with-whole :
      (wastage num : ℕ)
      → slab_need align_up size align flags num ≤ wastage
      → slab_need align_up size align flags num
          + (estimate_with align_up wastage size align flags num).left_over
        ≡ wastage
  unfolding estimate_with slab_need
  estimate_with-whole wastage num fits = ground arith

  -- With the number that the loop has stopped at.
  estimate_with-Fills :
      (wastage i : ℕ)
      → 0 < size
      → wastage ≤ slab_limit
      → slab_need align_up size align flags 0 ≤ wastage
      → ((k : ℕ) → k < i → slab_need align_up size align flags k ≤ wastage)
      → wastage < slab_need align_up size align flags i
      → Fills wastage (
          estimate_with align_up wastage size align flags
            (if ltb slab_limit (i - 1) then slab_limit else i - 1))
  unfolding estimate_with
  estimate_with-Fills wastage zero pos small room before stop = absurd (omega (arith, room, stop))
  estimate_with-Fills wastage (suc n) pos small room before stop =
      rw (same, under)
        (record {
          whole = estimate_with-whole wastage n (before n (omega arith));
          most = at_next stop;
        })
    where
      same : suc n - 1 ≡ n
      same = omega arith

      under : ltb slab_limit n ≡ false
      under = ground (arith, before n (omega arith), need_ge n pos)

      one_more : (n : ℕ) → n + 1 ≡ suc n
      one_more n = omega arith

      at_next :
          wastage < slab_need align_up size align flags (suc n)
          → wastage < slab_need align_up size align flags (n + 1)
      at_next h = rw (one_more n) h

  -- Where an empty slab has room for its descriptor, `cache_estimate_bs` finds the number of objects
  -- after which there is no room for one more, and the bytes that are left then.
  pub cache_estimate-Fills :
      (gfporder : ℕ)
      → 0 < size
      → page_size * 2 ^ gfporder ≤ slab_limit
      → slab_need align_up size align flags 0 ≤ page_size * 2 ^ gfporder
      → Fills (page_size * 2 ^ gfporder) (cache_estimate align_up gfporder size align flags)
  unfolding cache_estimate
  cache_estimate-Fills gfporder pos small room =
      let first = count_fits-first (page_size * 2 ^ gfporder) pos in
      estimate_with-Fills (page_size * 2 ^ gfporder)
        (count_fits align_up (page_size * 2 ^ gfporder + 1) (page_size * 2 ^ gfporder) size align
          flags 0)
        pos small room (first.0) (first.1)

  -- What the loop of `kmem_cache_create_bs` settles on when it starts at `from`: an order with an object
  -- and little left over, or the largest order; each lower order had no object or too much left over.
  pub record Settles (break_order from : ℕ) (r : ℕ × Estimate) : Type 0 where
    pub estimate : r.1 ≡ cache_estimate align_up (r.0) size align flags
    pub most : r.0 ≤ max_gfp_order
    pub good :
        (r.0 ≡ max_gfp_order)
        ⊎ ((0 < (r.1).num) × ((break_order ≤ r.0) ⊎ ((r.1).left_over * 8 ≤ page_size * 2 ^ (r.0))))
    pub passed :
        (k : ℕ)
        → from ≤ k
        → k < r.0
        → ((cache_estimate align_up k size align flags).num ≡ 0)
          ⊎ ((k < break_order)
              × (page_size * 2 ^ k < (cache_estimate align_up k size align flags).left_over * 8))

  Settles-here :
      (break_order gfporder : ℕ)
      → gfporder ≤ max_gfp_order
      → (gfporder ≡ max_gfp_order)
        ⊎ ((0 < (cache_estimate align_up gfporder size align flags).num)
            × ((break_order ≤ gfporder)
                ⊎ ((cache_estimate align_up gfporder size align flags).left_over * 8
                    ≤ page_size * 2 ^ gfporder)))
      → Settles break_order gfporder (gfporder, cache_estimate align_up gfporder size align flags)
  Settles-here break_order gfporder le good = record {
    estimate = refl;
    most = le;
    good = good;
    passed = λ k from lt. absurd (omega arith);
  }

  Settles-next :
      (break_order gfporder : ℕ) (r : ℕ × Estimate)
      → ((cache_estimate align_up gfporder size align flags).num ≡ 0)
        ⊎ ((gfporder < break_order)
            × (page_size * 2 ^ gfporder
                < (cache_estimate align_up gfporder size align flags).left_over * 8))
      → Settles break_order (gfporder + 1) r
      → Settles break_order gfporder r
  Settles-next break_order gfporder r here later = record {
    estimate = later.estimate;
    most = later.most;
    good = later.good;
    passed = λ k from lt. elim (==-cases gfporder k) [
      | inl (_, same) ↦ rw⁻¹ same here
      | inr (_, differ) ↦ later.passed k (omega arith) lt
    ];
  }

  -- For a cache with its descriptors in the slabs, from any order up to the largest one, the loop
  -- over the orders ends within the rounds up to it: with the estimate for the order it ends
  -- with, which is the largest one or has an object and is at the break order or leaves at most
  -- an eighth over, while each order that was passed has no object, or is below the break order
  -- and leaves more than an eighth over.
  pub order_loop-Settles :
      (rounds gfporder offslab_limit break_order : ℕ)
      → gfporder + rounds ≡ max_gfp_order + 1
      → 0 < rounds
      → has flags cflgs_off_slab ≡ false
      → Settles break_order gfporder
          (order_loop align_up rounds gfporder size align flags offslab_limit break_order)
  unfolding order_loop
  order_loop-Settles zero gfporder offslab_limit break_order sum pos on = absurd (omega arith)
  order_loop-Settles (suc rounds) gfporder offslab_limit break_order sum pos on =
      let e = cache_estimate align_up gfporder size align flags in
      let next = λ (lt : gfporder < max_gfp_order).
        order_loop-Settles rounds (gfporder + 1) offslab_limit break_order (omega arith)
          (omega arith) on in
      elim (leb-cases max_gfp_order gfporder) [
        | inl (t, le) ↦ rw t (Settles-here break_order gfporder (omega arith) (inl (omega arith)))
        | inr (t, lt) ↦ rw t (elim (==-cases e.num 0) [
          | inl (z, zero_num) ↦ rw z (Settles-next break_order gfporder _ (inl zero_num) (next lt))
          | inr (z, some_num) ↦
              rw (z, on)
                (elim (leb-cases break_order gfporder) [
                  | inl (b, at_break) ↦ rw b (
                      Settles-here break_order gfporder (omega arith)
                        (inr (omega arith, inl at_break)))
                  | inr (b, below) ↦
                      rw b (elim (leb-cases (e.left_over * 8) (page_size * 2 ^ gfporder)) [
                        | inl (w, little) ↦ rw w (
                            Settles-here break_order gfporder (omega arith)
                              (inr (omega arith, inr little)))
                        | inr (w, much) ↦
                            rw w (Settles-next break_order gfporder _ (inr (below, much)) (next lt))
                      ])
                ])
        ])
      ]

-- For objects of one byte or more, as many rounds as the alignment are enough for the loop that
-- halves it: half of the result is smaller than an object, and the result is the whole alignment
-- or at least as large as an object.
pub halve_align-least :
    (rounds size ralign : ℕ)
    → ralign ≤ rounds
    → 0 < size
    → (halve_align rounds size ralign / 2 < size)
      × ((halve_align rounds size ralign ≡ ralign) ⊎ (size ≤ halve_align rounds size ralign))
unfolding halve_align
halve_align-least zero size ralign le pos = (omega arith, inl refl)
halve_align-least (suc rounds) size ralign le pos = elim (leb-cases size (ralign / 2)) [
  | inl (e, small) ↦
      let ih = halve_align-least rounds size (ralign / 2) (omega arith) pos in
      rw e (ih.0, inr (elim (ih.1) [ inl same ↦ omega arith | inr large ↦ large ]))
  | inr (e, lt) ↦ rw e (lt, inl refl)
]
