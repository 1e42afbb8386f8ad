-- ===== src/Slab/Pages.antt =====
-- The pages of the slabs of mm/slab.c, and the end of a slab.
use biscuit_os_memory.Common.{
  ℕ, zero, suc, ◌+◌, ◌^◌, ◌<◌, ◌≡◌, ◌≢◌, refl, ap, ◌∙◌, inl, inr, Bool, true, false, ◌==◌, ==-cases,
  Bool-cases, update, Returns, returns, Returns-bind, Returns-mono, arith,
}
use biscuit_os_memory.Slab.{
  Slab, Cache, Memory, World, slab_destroy_by_rcu, has, off_slab, minus, virt_to_page,
}
use biscuit_os_memory.Slab.Grow.{clear_pages, kmem_freepages, free_slabp, slab_destroy}

-- Pages that carry the flag lose it, and no other page changes.
pub clear_pages-Returns :
    (count page : ℕ) (slab_page : ℕ → Bool)
    → ((k : ℕ) → k < count → slab_page (page + k) ≡ true)
    → Returns
        (λ after. (j : ℕ) → ((k : ℕ) → k < count → j ≢ page + k) → after j ≡ slab_page j)
        (clear_pages count page slab_page)
unfolding clear_pages
clear_pages-Returns zero page slab_page set = returns (λ j out. refl)
clear_pages-Returns (suc count) page slab_page set = rw first (
    Returns-mono
      (clear_pages-Returns count (page + 1) (update slab_page page false) (λ k lt. rest k lt))
      (λ after same j out.
        same j (λ k lt e. out (suc k) (omega arith) (omega (arith, e)))
        ∙ ground (arith, out 0 (omega arith))))
  where
    first : slab_page page ≡ true
    first = ap slab_page (omega arith) ∙ set 0 (omega arith)

    rest : (k : ℕ) → k < count → update slab_page page false (page + 1 + k) ≡ true
    rest k lt = elim (==-cases page (page + 1 + k)) [
      | inl (e, e') ↦ absurd (omega arith)
      | inr (e, e') ↦ rw e (ap slab_page (omega arith) ∙ set (suc k) (omega arith))
    ]

module _ {ℓ} {S : Type ℓ} where
  -- The first page of a slab.
  abbrev pub slab_base_page : Memory S → ℕ → ℕ
  slab_base_page m p = virt_to_page (minus (m.slabs p).s_mem (m.slabs p).colouroff)

  -- The pages of a slab carry the flag and name the slab.
  pub record Owns (order : ℕ) (m : Memory S) (p : ℕ) : Type 0 where
    pub flagged : (k : ℕ) → k < 2 ^ order → m.slab_page (slab_base_page m p + k) ≡ true
    pub named : (k : ℕ) → k < 2 ^ order → m.page_slab (slab_base_page m p + k) ≡ p

  -- What the end of a slab leaves alone.
  pub record Spares (p : ℕ) (m m' : Memory S) : Type ℓ where
    pub slabs : m'.slabs ≡ m.slabs
    pub page_slab : m'.page_slab ≡ m.page_slab
    pub slab_page : (j : ℕ) → m.page_slab j ≢ p → m'.slab_page j ≡ m.slab_page j

  kmem_freepages-Returns :
      (w : World S) (cachep : Cache) (p addr : ℕ) (m : Memory S)
      → ((k : ℕ) → k < 2 ^ cachep.gfporder → m.slab_page (virt_to_page addr + k) ≡ true)
      → ((k : ℕ) → k < 2 ^ cachep.gfporder → m.page_slab (virt_to_page addr + k) ≡ p)
      → Returns (Spares p m) (kmem_freepages w cachep addr m)
  unfolding kmem_freepages
  kmem_freepages-Returns w cachep p addr m flagged named =
      Returns-bind
        (clear_pages-Returns (2 ^ cachep.gfporder) (virt_to_page addr) m.slab_page flagged)
        (λ after same. returns (record {
          slabs = refl;
          page_slab = refl;
          slab_page = λ j out. same j (λ k lt e. out (ap m.page_slab e ∙ named k lt));
        }))

  free_slabp-Spares :
      (w : World S) (cachep : Cache) (p : ℕ) (m m' : Memory S)
      → Spares p m m'
      → Spares p m (free_slabp w cachep p m')
  unfolding free_slabp
  free_slabp-Spares w cachep p m m' s = elim (Bool-cases (off_slab cachep)) [
    | inl e ↦ rw e (record { slabs = s.slabs; page_slab = s.page_slab; slab_page = s.slab_page })
    | inr e ↦ rw e s
  ]

  -- The destruction of a slab whose pages are its own does not panic, and leaves the other slabs, and
  -- the flags of their pages, alone.
  pub slab_destroy-Returns :
      (w : World S) (cachep : Cache) (p : ℕ) (m : Memory S)
      → Owns cachep.gfporder m p
      → Returns (Spares p m) (slab_destroy w cachep p m)
  unfolding slab_destroy
  slab_destroy-Returns w cachep p m own = elim (Bool-cases (has cachep.flags slab_destroy_by_rcu)) [
    | inl e ↦ rw e (returns (record { slabs = refl; page_slab = refl; slab_page = λ j out. refl }))
    | inr e ↦ rw e (
        Returns-bind
          (kmem_freepages-Returns w cachep p (minus (m.slabs p).s_mem (m.slabs p).colouroff) _
            own.flagged own.named)
          (λ m' s. returns (
            free_slabp-Spares w cachep p m m'
              (record { slabs = s.slabs; page_slab = s.page_slab; slab_page = s.slab_page }))))
  ]

  pub Owns-Spares :
      (order p q : ℕ) (m m' : Memory S)
      → Spares p m m'
      → (p == q) ≡ false
      → Owns order m q
      → Owns order m' q
  Owns-Spares order p q m m' s differ own = record {
    flagged = λ k lt. rw s.slabs (
        s.slab_page _ (λ e. absurd (ground (arith, e, own.named k lt, differ))) ∙ own.flagged k lt);
    named = λ k lt. rw (s.slabs, s.page_slab) (own.named k lt);
  }

  pub Owns-base :
      (order q : ℕ) (m : Memory S) (slabs : ℕ → Slab)
      → minus (slabs q).s_mem (slabs q).colouroff ≡ minus (m.slabs q).s_mem (m.slabs q).colouroff
      → Owns order m q
      → Owns order (record m { slabs = slabs }) q
  Owns-base order q m slabs e own = record {
    flagged = λ k lt. rw e (own.flagged k lt);
    named = λ k lt. rw e (own.named k lt);
  }
