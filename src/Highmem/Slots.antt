-- ===== src/Highmem/Slots.antt =====
-- A new mapping in a kmap slot of mm/highmem.c.
use biscuit_os_memory.Common.{
  ℕ, ◌+◌, ◌-◌, ◌*◌, ◌<◌, ◌≡◌, refl, sym, ap, ◌∙◌, inl, inr, Bool, true, false, ◌==◌, ==-cases,
  ==_self, ltb, update, some, List, [], ◌∷◌, ◌++◌, Returns, returns, arith,
}
use biscuit_os_memory.Vmalloc.{page_size}
use biscuit_os_memory.Highmem.{
  last_pkmap, Highmem, find_page, set_page_address, pkmap_addr, map_slot,
}
use biscuit_os_memory.Highmem.Table.{
  entries_of, entries_of-append, find_page-append, find_page-append_ne,
}
use biscuit_os_memory.Highmem.Mapped.{spares-use, spares-some, none-some, some-eq, Mapped, at_slot}
use biscuit_os_memory.Highmem.Flush.{Lacks}

module _ (hash_ptr : ℕ → ℕ) (is_highmem : ℕ → Bool) (lowmem_page_address : ℕ → ℕ)
    (pkmap_base : ℕ) where
  -- A page in a slot that had none.
  abbrev pub with_page : ℕ → ℕ → Highmem → Highmem
  with_page page nr st = record st {
    pkmap_page_table = update st.pkmap_page_table nr (some page);
    pkmap_count = update st.pkmap_count nr 1;
    pool = st.pool - 1;
    htable =
        update st.htable (hash_ptr page)
          (st.htable (hash_ptr page) ++ ((page, pkmap_base + nr * page_size) ∷ []));
  }

  differs :
      (page j q : ℕ) (st : Highmem)
      → Lacks hash_ptr is_highmem lowmem_page_address pkmap_base page st
      → j < last_pkmap
      → st.pkmap_page_table j ≡ some q
      → (page == q) ≡ false
  differs page j q st l lj e = elim (==-cases page q) [
    | inl (_, same) ↦ absurd (
        omega (
          arith,
          l.absent,
          l.mapped.once j q lj e,
          ap (λ k. entries_of k (st.htable (hash_ptr k))) same,
        ))
    | inr (t, _) ↦ t
  ]

  with_page-Mapped :
      (page nr : ℕ) (st : Highmem)
      → is_highmem page ≡ true
      → Lacks hash_ptr is_highmem lowmem_page_address pkmap_base page st
      → nr < last_pkmap
      → st.pkmap_count nr ≡ 0
      → Mapped hash_ptr is_highmem lowmem_page_address pkmap_base (with_page page nr st)
  with_page-Mapped page nr st high l ln idle = record {
    clear = λ j lj e. elim (==-cases nr j) [
      | inl (t, _) ↦ absurd (ground (arith, t, e))
      | inr (t, _) ↦ rw t (l.mapped.clear j lj (rw t at e))
    ];
    used = λ j lj pos. elim (==-cases nr j) [
      | inl (t, _) ↦ (page, rw t refl)
      | inr (t, _) ↦ rw t (l.mapped.used j lj (ground (arith, t, pos)))
    ];
    counted = λ j q lj e. elim (==-cases nr j) [
      | inl (t, _) ↦ rw t (omega arith)
      | inr (t, _) ↦ rw t (l.mapped.counted j q lj (rw t at e))
    ];
    high = λ j q lj e. elim (==-cases nr j) [
      | inl (t, _) ↦ ap is_highmem (sym (some-eq (rw t at e))) ∙ high
      | inr (t, _) ↦ l.mapped.high j q lj (rw t at e)
    ];
    found = λ j q lj e. elim (==-cases nr j) [
      | inl (t, same) ↦
          ap (λ k. find_page k (new.htable (hash_ptr k))) (sym (some-eq (rw t at e)))
          ∙ rw (==_self (hash_ptr page)) (find_page-append page _ slot l.absent)
          ∙ ap (λ (k : ℕ). pkmap_base + k * page_size) same
      | inr (t, _) ↦
          at_slot hash_ptr is_highmem lowmem_page_address pkmap_base (find_page q) st.htable _ page
            q (find_page-append_ne q page _ slot (differs page j q st l lj (rw t at e)))
          ∙ l.mapped.found j q lj (rw t at e)
    ];
    once = λ j q lj e. elim (==-cases nr j) [
      | inl (t, _) ↦
          ap (λ k. entries_of k (new.htable (hash_ptr k))) (sym (some-eq (rw t at e)))
          ∙ rw (==_self (hash_ptr page))
              (entries_of-append page page _ slot ∙ ground (arith, l.absent, ==_self page))
      | inr (t, _) ↦
          at_other q (differs page j q st l lj (rw t at e)) ∙ l.mapped.once j q lj (rw t at e)
    ];
    slot = λ q there. elim (==-cases page q) [
      | inl (_, same) ↦ (nr, ln, rw (==_self nr) (ap some same))
      | inr (t, _) ↦
          let old = l.mapped.slot q (omega (arith, there, at_other q t)) in
          (old.0, old.1, rw (not_here (old.0) q (old.2)) (old.2))
    ];
    spare = omega (
      arith,
      l.mapped.spare,
      spares-use last_pkmap nr st.pkmap_count ln idle,
      spares-some last_pkmap nr st.pkmap_count ln idle,
    );
  }
    where
      new : Highmem
      new = with_page page nr st

      slot : List (ℕ × ℕ)
      slot = st.htable (hash_ptr page)

      at_other :
          (q : ℕ)
          → (page == q) ≡ false
          → entries_of q (new.htable (hash_ptr q)) ≡ entries_of q (st.htable (hash_ptr q))
      at_other q t =
          at_slot hash_ptr is_highmem lowmem_page_address pkmap_base (entries_of q) st.htable _ page
            q (entries_of-append q page _ slot ∙ ground (arith, t))

      not_here : (j q : ℕ) → st.pkmap_page_table j ≡ some q → (nr == j) ≡ false
      not_here j q e = elim (==-cases nr j) [
        | inl (_, same) ↦
            absurd (none-some (sym (l.mapped.clear nr ln idle) ∙ ap st.pkmap_page_table same ∙ e))
        | inr (t, _) ↦ t
      ]

  -- A page with a new mapping in a slot that had none.
  pub map_slot-Mapped :
      (page nr : ℕ) (st : Highmem)
      → 0 < pkmap_base
      → is_highmem page ≡ true
      → Lacks hash_ptr is_highmem lowmem_page_address pkmap_base page st
      → nr < last_pkmap
      → st.pkmap_count nr ≡ 0
      → Returns
          (λ after.
            Mapped hash_ptr is_highmem lowmem_page_address pkmap_base after
            × (after.pkmap_page_table nr ≡ some page))
          (map_slot hash_ptr is_highmem lowmem_page_address pkmap_base page nr st)
  unfolding map_slot set_page_address pkmap_addr
  map_slot-Mapped page nr st base high l ln idle =
      rw (high, nonnull, pool_left)
        (returns (with_page-Mapped page nr st high l ln idle, ground (arith, ==_self nr)))
    where
      nonnull : ltb 0 (pkmap_base + nr * page_size) ≡ true
      nonnull = ground (arith, base)

      pool_left : (st.pool == 0) ≡ false
      pool_left = ground (arith, l.mapped.spare, spares-some last_pkmap nr st.pkmap_count ln idle)
