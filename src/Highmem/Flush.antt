-- ===== src/Highmem/Flush.antt =====
-- The flush of the kmap slots of mm/highmem.c, and the search for a slot.
use biscuit_os_memory.Common.{
  ℕ, zero, suc, ◌+◌, ◌-◌, ◌≤◌, ◌<◌, ◌≡◌, ◌≢◌, refl, sym, ap, ◌∙◌, inl, inr, Bool, false, ◌==◌,
  if◌then◌else◌, ==-cases, ==_self, Bool-cases, ltb-cases, update, Option, none, some, bit_and, ok,
  Returns, returns, Returns-bind, arith,
}
use biscuit_os_memory.Common.Bits.{bit_and-mask}
use biscuit_os_memory.Highmem.{
  last_pkmap, Highmem, find_page, remove_page, set_page_address, flush_slot, flush_loop,
  flush_all_zero_pkmaps, find_slot,
}
use biscuit_os_memory.Highmem.Table.{
  entries_of, remove_page-found, entries_of-remove_page, entries_of-remove_page_ne,
  find_page-remove_page_ne,
}
use biscuit_os_memory.Highmem.Mapped.{spares-free, none-some, some-eq, Mapped, one_slot, at_slot}

module _ (hash_ptr : ℕ → ℕ) (is_highmem : ℕ → Bool) (lowmem_page_address : ℕ → ℕ)
    (pkmap_base : ℕ) where
  -- A slot without its mapping.
  abbrev pub unmapped : ℕ → ℕ → Highmem → Highmem
  unmapped i page st = record st {
    pkmap_count = update st.pkmap_count i 0;
    pkmap_page_table = update st.pkmap_page_table i none;
    pool = st.pool + 1;
    htable = update st.htable (hash_ptr page) ((remove_page page (st.htable (hash_ptr page))).1);
  }

  unmapped-Mapped :
      (i page : ℕ) (st : Highmem)
      → Mapped hash_ptr is_highmem lowmem_page_address pkmap_base st
      → i < last_pkmap
      → 0 < st.pkmap_count i
      → st.pkmap_page_table i ≡ some page
      → Mapped hash_ptr is_highmem lowmem_page_address pkmap_base (unmapped i page st)
  unmapped-Mapped i page st m li in_use here = record {
    clear = λ j lj e. elim (==-cases i j) [
      | inl (t, _) ↦ rw t refl
      | inr (t, _) ↦ rw t (m.clear j lj (rw t at e))
    ];
    used = λ j lj pos. elim (==-cases i j) [
      | inl (t, _) ↦ absurd (ground (arith, t, pos))
      | inr (t, _) ↦ rw t (m.used j lj (ground (arith, t, pos)))
    ];
    counted = λ j q lj e. let o = other j q lj e in rw (o.0) (m.counted j q lj (o.2));
    high = λ j q lj e. let o = other j q lj e in m.high j q lj (o.2);
    found = λ j q lj e.
        let o = other j q lj e in
        at_slot hash_ptr is_highmem lowmem_page_address pkmap_base (find_page q) st.htable _ page q
          (find_page-remove_page_ne q page (st.htable (hash_ptr page)) (o.1))
        ∙ m.found j q lj (o.2);
    once = λ j q lj e.
        let o = other j q lj e in
        at_slot hash_ptr is_highmem lowmem_page_address pkmap_base (entries_of q) st.htable _ page q
          (entries_of-remove_page_ne q page (st.htable (hash_ptr page)) (o.1))
        ∙ m.once j q lj (o.2);
    slot = λ q some_there. slot_of q some_there;
    spare = omega (arith, m.spare, spares-free last_pkmap i st.pkmap_count li in_use);
  }
    where
      apart :
          (j q : ℕ) → i ≢ j → j < last_pkmap → st.pkmap_page_table j ≡ some q → (page == q) ≡ false
      apart j q differ lj e = elim (==-cases page q) [
        | inl (_, same) ↦ absurd (
            differ (
              one_slot hash_ptr is_highmem lowmem_page_address pkmap_base st i j page m li lj here
                (e ∙ ap some (sym same))))
        | inr (t, _) ↦ t
      ]

      other :
          (j q : ℕ)
          → j < last_pkmap
          → update st.pkmap_page_table i none j ≡ some q
          → ((i == j) ≡ false) × ((page == q) ≡ false) × (st.pkmap_page_table j ≡ some q)
      other j q lj e = elim (==-cases i j) [
        | inl (t, _) ↦ absurd (none-some (rw t at e))
        | inr (t, differ) ↦ (t, apart j q differ lj (rw t at e), rw t at e)
      ]

      kept : (j q : ℕ) → (page == q) ≡ false → st.pkmap_page_table j ≡ some q → (i == j) ≡ false
      kept j q differ e = elim (==-cases i j) [
        | inl (_, same) ↦
            absurd (ground (arith, differ, some-eq (sym here ∙ ap st.pkmap_page_table same ∙ e)))
        | inr (t, _) ↦ t
      ]

      gone :
          (q : ℕ)
          → page ≡ q
          → ¬ (
              0
              < entries_of q (
                  update st.htable
                    (hash_ptr page)
                    ((remove_page page (st.htable (hash_ptr page))).1)
                    (hash_ptr q)))
      gone q same some_there = absurd (
          ground (
            arith,
            ==_self (hash_ptr page),
            rw (sym same) at some_there,
            entries_of-remove_page page (st.htable (hash_ptr page)),
            m.once i page li here,
          ))

      slot_of :
          (q : ℕ)
          → 0
            < entries_of q (
                update st.htable
                  (hash_ptr page)
                  ((remove_page page (st.htable (hash_ptr page))).1)
                  (hash_ptr q))
          → (j : ℕ) × (j < last_pkmap) × (update st.pkmap_page_table i none j ≡ some q)
      slot_of q some_there = elim (==-cases page q) [
        | inl (t, same) ↦ absurd (gone q same some_there)
        | inr (t, differ) ↦
            let old = m.slot q (
              omega (
                arith,
                some_there,
                at_slot hash_ptr is_highmem lowmem_page_address pkmap_base (entries_of q) st.htable
                    _ page q (entries_of-remove_page_ne q page (st.htable (hash_ptr page)) t),
              )) in
            (old.0, old.1, rw (kept (old.0) q t (old.2)) (old.2))
      ]

  -- The table and the slots agree, and a page has no mapping.
  pub record Lacks (page : ℕ) (st : Highmem) : Type 0 where
    pub mapped : Mapped hash_ptr is_highmem lowmem_page_address pkmap_base st
    pub absent : entries_of page (st.htable (hash_ptr page)) ≡ 0

  unmapped-Lacks :
      (i page q : ℕ) (st : Highmem)
      → Lacks q st
      → i < last_pkmap
      → 0 < st.pkmap_count i
      → st.pkmap_page_table i ≡ some page
      → Lacks q (unmapped i page st)
  unmapped-Lacks i page q st l li in_use here = record {
    mapped = unmapped-Mapped i page st l.mapped li in_use here;
    absent = elim (==-cases page q) [
      | inl (t, same) ↦ absurd (
          omega (
            arith,
            l.mapped.once i page li here,
            l.absent,
            ap (λ k. entries_of k (st.htable (hash_ptr k))) same,
          ))
      | inr (t, _) ↦
          at_slot hash_ptr is_highmem lowmem_page_address pkmap_base (entries_of q) st.htable _ page
            q (entries_of-remove_page_ne q page (st.htable (hash_ptr page)) t)
          ∙ l.absent
    ];
  }

  -- A flush of a slot that nobody uses ends its mapping.
  flush_slot-Lacks :
      (i page q : ℕ) (st : Highmem)
      → Lacks q st
      → i < last_pkmap
      → st.pkmap_count i ≡ 1
      → st.pkmap_page_table i ≡ some page
      → Returns (Lacks q) (flush_slot hash_ptr is_highmem lowmem_page_address i st (some page))
  unfolding flush_slot set_page_address
  flush_slot-Lacks i page q st l li one here =
      rw (l.mapped.high i page li here, remove_page-found page (st.htable (hash_ptr page)) there)
        (returns (unmapped-Lacks i page q st l li (omega (arith, one)) here))
    where
      there : 0 < entries_of page (st.htable (hash_ptr page))
      there = omega (arith, l.mapped.once i page li here)

  flush_loop-Lacks :
      (rounds i q : ℕ) (st : Highmem)
      → Lacks q st
      → i + rounds ≤ last_pkmap
      → Returns (Lacks q) (flush_loop hash_ptr is_highmem lowmem_page_address rounds i st)
  unfolding flush_loop
  flush_loop-Lacks zero i q st l le = returns l
  flush_loop-Lacks (suc rounds) i q st l le =
      Returns-bind step (λ st' m'. flush_loop-Lacks rounds (i + 1) q st' m' (omega arith))
    where
      step : Returns (Lacks q) (
          if st.pkmap_count i == 1
          then flush_slot hash_ptr is_highmem lowmem_page_address i st (st.pkmap_page_table i)
          else ok st)
      step = elim (==-cases (st.pkmap_count i) 1) [
        | inl (e, one) ↦
            let u = l.mapped.used i (omega arith) (omega (arith, one)) in
            rw (e, u.1) (flush_slot-Lacks i (u.0) q st l (omega arith) one (u.1))
        | inr (e, _) ↦ rw e (returns l)
      ]

  -- What the search for a slot comes to.
  pub record Searched (page : ℕ) (r : Option ℕ × Highmem) : Type 0 where
    pub lacks : Lacks page (r.1)
    pub idle : (nr : ℕ) → r.0 ≡ some nr → (nr < last_pkmap) × ((r.1).pkmap_count nr ≡ 0)

  Lacks-last :
      {page : ℕ} {st : Highmem} (nr : ℕ)
      → Lacks page st
      → Lacks page (record st { last_pkmap_nr = nr })
  Lacks-last nr l = record {
    mapped = record {
      clear = l.mapped.clear;
      used = l.mapped.used;
      counted = l.mapped.counted;
      high = l.mapped.high;
      found = l.mapped.found;
      once = l.mapped.once;
      slot = l.mapped.slot;
      spare = l.mapped.spare;
    };
    absent = l.absent;
  }

  pub find_slot-Searched :
      (rounds count page : ℕ) (st : Highmem)
      → Lacks page st
      → Returns (Searched page) (find_slot hash_ptr is_highmem lowmem_page_address rounds count st)
  unfolding find_slot flush_all_zero_pkmaps
  find_slot-Searched zero count page st l =
      returns (record { lacks = l; idle = λ nr e. absurd (none-some e) })
  find_slot-Searched (suc rounds) count page st l = Returns-bind flushed (λ t l'.
      elim (==-cases (t.pkmap_count nr) 0) [
        | inl (e, idle) ↦ rw e (
            returns (record {
              lacks = l';
              idle = λ k k_is. (
                omega (arith, in_range, some-eq k_is),
                ap t.pkmap_count (sym (some-eq k_is)) ∙ idle,
              );
            }))
        | inr (e, _) ↦ rw e (elim (ltb-cases 0 count') [
          | inl (e', _) ↦ rw e' (find_slot-Searched rounds count' page t l')
          | inr (e', _) ↦
              rw e' (returns (record { lacks = l'; idle = λ k k_is. absurd (none-some k_is) }))
        ])
      ])
    where
      nr : ℕ
      nr = bit_and (st.last_pkmap_nr + 1) (last_pkmap - 1)

      count' : ℕ
      count' = (if nr == 0 then last_pkmap else count) - 1

      in_range : nr < last_pkmap
      in_range = omega (arith, bit_and-mask 9 (st.last_pkmap_nr + 1))

      flushed : Returns (Lacks page) (
          if nr == 0
          then flush_loop hash_ptr is_highmem lowmem_page_address last_pkmap 0
              (record st { last_pkmap_nr = nr })
          else ok (record st { last_pkmap_nr = nr }))
      flushed = elim (Bool-cases (nr == 0)) [
        | inl e ↦ rw e (
            flush_loop-Lacks last_pkmap 0 page (record st { last_pkmap_nr = nr }) (Lacks-last nr l)
              (omega arith))
        | inr e ↦ rw e (returns (Lacks-last nr l))
      ]
