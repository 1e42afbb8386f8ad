-- ===== src/Highmem/Kmap.antt =====
-- What kmap and kunmap of mm/highmem.c do to the mappings.
use biscuit_os_memory.Common.{
  ℕ, zero, suc, ◌+◌, ◌-◌, ◌*◌, ◌≤◌, ◌<◌, ◌≡◌, refl, sym, ap, ◌∙◌, inl, inr, Bool, true, false, not,
  ◌==◌, if◌then◌else◌, nonzero, ltb, ltb-cases, ==-cases, ==_self, update, Option, none, some, Run,
  ok, Returns, returns, Returns-bind, arith,
}
use biscuit_os_memory.Vmalloc.{page_size}
use biscuit_os_memory.Slab.{minus}
use biscuit_os_memory.Highmem.{
  last_pkmap, Highmem, find_page, page_address, pkmap_addr, pkmap_nr, after_search, map_new_virtual,
  count_up_slot, kmap_high, kunmap_high,
}
use biscuit_os_memory.Highmem.Table.{entries_of, find_page-absent}
use biscuit_os_memory.Highmem.Mapped.{spares-more, Mapped, none-some, some-eq}
use biscuit_os_memory.Highmem.Flush.{Lacks, Searched, find_slot-Searched}
use biscuit_os_memory.Highmem.Slots.{map_slot-Mapped}

module _ (hash_ptr : ℕ → ℕ) (is_highmem : ℕ → Bool) (lowmem_page_address : ℕ → ℕ)
    (pkmap_base : ℕ) where
  -- An address is that of a slot with a page.
  pub record Located (page v : ℕ) (st : Highmem) : Type 0 where
    pub nr : ℕ
    pub in_range : nr < last_pkmap
    pub address : v ≡ pkmap_base + nr * page_size
    pub entry : st.pkmap_page_table nr ≡ some page

  -- The table of page addresses has the address of the slot of a page, or 0.
  find_page-Located :
      (page : ℕ) (st : Highmem)
      → Mapped hash_ptr is_highmem lowmem_page_address pkmap_base st
      → 0 < find_page page (st.htable (hash_ptr page))
      → Located page (find_page page (st.htable (hash_ptr page))) st
  find_page-Located page st m pos =
      let s = m.slot page there in
      record { nr = s.0; in_range = s.1; address = m.found (s.0) page (s.1) (s.2); entry = s.2 }
    where
      there : 0 < entries_of page (st.htable (hash_ptr page))
      there = elim (ltb-cases 0 (entries_of page (st.htable (hash_ptr page)))) [
        | inl (_, lt) ↦ lt
        | inr (_, le) ↦ absurd (
            omega
              (arith, pos, find_page-absent page (st.htable (hash_ptr page)) (omega (arith, le))))
      ]

  Located-same :
      (page v v' : ℕ) (st : Highmem) → some v ≡ some v' → Located page v st → Located page v' st
  Located-same page v v' st same l = record {
    nr = l.nr;
    in_range = l.in_range;
    address = sym (some-eq same) ∙ l.address;
    entry = l.entry;
  }

  Lacks-zero :
      (page : ℕ) (st : Highmem)
      → 0 < pkmap_base
      → Mapped hash_ptr is_highmem lowmem_page_address pkmap_base st
      → find_page page (st.htable (hash_ptr page)) ≤ 0
      → Lacks hash_ptr is_highmem lowmem_page_address pkmap_base page st
  Lacks-zero page st base m none_found = record {
    mapped = m;
    absent = elim (ltb-cases 0 (entries_of page (st.htable (hash_ptr page)))) [
      | inl (_, lt) ↦
          let s = m.slot page lt in
          absurd (omega (arith, none_found, base, m.found (s.0) page (s.1) (s.2)))
      | inr (_, le) ↦ omega (arith, le)
    ];
  }

  -- What a search for a mapping leaves.
  pub record Gets (page : ℕ) (r : Option ℕ × Highmem) : Type 0 where
    pub mapped : Mapped hash_ptr is_highmem lowmem_page_address pkmap_base (r.1)
    pub located : (v : ℕ) → r.0 ≡ some v → Located page v (r.1)

  after_search-Gets :
      (others : Highmem → Highmem) (again : Highmem → Run (Option ℕ × Highmem)) (page : ℕ)
      (r : Option ℕ × Highmem)
      → 0 < pkmap_base
      → is_highmem page ≡ true
      → ((s : Highmem)
          → Mapped hash_ptr is_highmem lowmem_page_address pkmap_base s
          → Mapped hash_ptr is_highmem lowmem_page_address pkmap_base (others s))
      → ((s : Highmem)
          → Lacks hash_ptr is_highmem lowmem_page_address pkmap_base page s
          → Returns (Gets page) (again s))
      → Searched hash_ptr is_highmem lowmem_page_address pkmap_base page r
      → Returns
          (Gets page)
          (after_search hash_ptr is_highmem lowmem_page_address pkmap_base others again page r)
  unfolding after_search page_address pkmap_addr
  after_search-Gets others again page (some nr, st) base high keep rest s =
      let i = s.idle nr refl in
      Returns-bind
        (map_slot-Mapped hash_ptr is_highmem lowmem_page_address pkmap_base page nr st base high
          s.lacks (i.0) (i.1))
        (λ t m. returns (record {
          mapped = m.0;
          located =
              λ v e. record { nr = nr; in_range = i.0; address = sym (some-eq e); entry = m.1 };
        }))
  after_search-Gets others again page (none, st) base high keep rest s =
      let m = keep st s.lacks.mapped in
      rw high (elim (ltb-cases 0 (find_page page ((others st).htable (hash_ptr page)))) [
        | inl (e, pos) ↦ rw e (
            returns (record {
              mapped = m;
              located = λ v same.
                  Located-same page _ v (others st) same (find_page-Located page (others st) m pos);
            }))
        | inr (e, zero_there) ↦
            rw e (rest (others st) (Lacks-zero page (others st) base m zero_there))
      ])

  map_new_virtual-Gets :
      (others : Highmem → Highmem) (tries page : ℕ) (st : Highmem)
      → 0 < pkmap_base
      → is_highmem page ≡ true
      → ((s : Highmem)
          → Mapped hash_ptr is_highmem lowmem_page_address pkmap_base s
          → Mapped hash_ptr is_highmem lowmem_page_address pkmap_base (others s))
      → Lacks hash_ptr is_highmem lowmem_page_address pkmap_base page st
      → Returns
          (Gets page)
          (map_new_virtual hash_ptr is_highmem lowmem_page_address pkmap_base others tries page st)
  unfolding map_new_virtual
  map_new_virtual-Gets others zero page st base high keep l =
      returns (record { mapped = l.mapped; located = λ v e. absurd (none-some e) })
  map_new_virtual-Gets others (suc tries) page st base high keep l =
      Returns-bind
        (find_slot-Searched hash_ptr is_highmem lowmem_page_address pkmap_base (2 * last_pkmap)
          last_pkmap page st l)
        (λ r s.
          after_search-Gets others _ page r base high keep
            (λ t l'. map_new_virtual-Gets others tries page t base high keep l') s)

  -- A page that is mapped, with the count of its slot after a kmap.
  pub record Kmapped (page : ℕ) (r : Option ℕ × Highmem) : Type 0 where
    pub mapped : Mapped hash_ptr is_highmem lowmem_page_address pkmap_base (r.1)
    pub located : (v : ℕ) → r.0 ≡ some v → Located page v (r.1)
    pub in_use :
        (v nr : ℕ)
        → r.0 ≡ some v
        → nr < last_pkmap
        → v ≡ pkmap_base + nr * page_size
        → 2 ≤ (r.1).pkmap_count nr

  Mapped-count :
      (nr v : ℕ) (st : Highmem)
      → Mapped hash_ptr is_highmem lowmem_page_address pkmap_base st
      → nr < last_pkmap
      → 0 < st.pkmap_count nr
      → 0 < v
      → Mapped hash_ptr is_highmem lowmem_page_address pkmap_base
          (record st { pkmap_count = update st.pkmap_count nr v })
  Mapped-count nr v st m lt used pos = record {
    clear = λ j lj e. elim (==-cases nr j) [
      | inl (t, _) ↦ absurd (ground (arith, t, e, pos))
      | inr (t, _) ↦ m.clear j lj (rw t at e)
    ];
    used = λ j lj e. elim (==-cases nr j) [
      | inl (t, same) ↦ m.used j lj (omega (arith, ap st.pkmap_count same, used))
      | inr (t, _) ↦ m.used j lj (rw t at e)
    ];
    counted = λ j page lj e. elim (==-cases nr j) [
      | inl (t, _) ↦ rw t pos
      | inr (t, _) ↦ rw t (m.counted j page lj e)
    ];
    high = m.high;
    found = m.found;
    once = m.once;
    slot = m.slot;
    spare = m.spare ∙ sym (spares-more last_pkmap nr v st.pkmap_count lt used pos);
  }

  pkmap_nr-address :
      (v nr : ℕ)
      → v ≡ pkmap_base + nr * page_size
      → pkmap_nr hash_ptr is_highmem lowmem_page_address pkmap_base v ≡ nr
  unfolding pkmap_nr
  pkmap_nr-address v nr e = ground (arith, e)

  counted-Kmapped :
      (page v : ℕ) (st : Highmem)
      → Mapped hash_ptr is_highmem lowmem_page_address pkmap_base st
      → (l : Located page v st)
      → Kmapped page
          (some v, record st { pkmap_count = update st.pkmap_count l.nr (st.pkmap_count l.nr + 1) })
  counted-Kmapped page v st m l = record {
    mapped = Mapped-count l.nr (st.pkmap_count l.nr + 1) st m l.in_range used (omega arith);
    located = λ v' e. record {
      nr = l.nr;
      in_range = l.in_range;
      address = sym (some-eq e) ∙ l.address;
      entry = l.entry;
    };
    in_use = λ v' nr e lt e'. elim (==-cases l.nr nr) [
      | inl (t, _) ↦ rw t (omega (arith, used))
      | inr (_, differ) ↦ absurd (differ (omega (arith, some-eq e, l.address, e')))
    ];
  }
    where
      used : 0 < st.pkmap_count l.nr
      used = m.counted l.nr page l.in_range l.entry

  count_up_slot-Kmapped :
      (page : ℕ) (r : Option ℕ × Highmem)
      → Gets page r
      → Returns (Kmapped page) (count_up_slot hash_ptr is_highmem lowmem_page_address pkmap_base r)
  unfolding count_up_slot
  count_up_slot-Kmapped page (none, st) g =
      returns
        (record { mapped = g.mapped; located = g.located; in_use = λ v nr e. absurd (none-some e) })
  count_up_slot-Kmapped page (some v, st) g =
      let l = g.located v refl in
      let used = g.mapped.counted l.nr page l.in_range l.entry in
      rw (pkmap_nr-address v l.nr l.address, two l.nr used)
        (returns (counted-Kmapped page v st g.mapped l))
    where
      two : (nr : ℕ) → 0 < st.pkmap_count nr → ltb (st.pkmap_count nr + 1) 2 ≡ false
      two nr used = ground arith

  -- Mapping a page of high memory, where the slots start above 0, the slots and the table of page
  -- addresses agree, and others keep them so while the caller sleeps: the call returns without a
  -- panic and they agree again; when it has an address, that is the address of a slot with the
  -- page, whose count is two at least.
  pub kmap_high-Kmapped :
      (others : Highmem → Highmem) (tries page : ℕ) (st : Highmem)
      → 0 < pkmap_base
      → is_highmem page ≡ true
      → ((s : Highmem)
          → Mapped hash_ptr is_highmem lowmem_page_address pkmap_base s
          → Mapped hash_ptr is_highmem lowmem_page_address pkmap_base (others s))
      → Mapped hash_ptr is_highmem lowmem_page_address pkmap_base st
      → Returns
          (Kmapped page)
          (kmap_high hash_ptr is_highmem lowmem_page_address pkmap_base others tries page st)
  unfolding kmap_high page_address
  kmap_high-Kmapped others tries page st base high keep m =
      Returns-bind got (λ r g. count_up_slot-Kmapped page r g)
    where
      virtual : ℕ
      virtual =
          if not (is_highmem page)
          then lowmem_page_address page
          else find_page page (st.htable (hash_ptr page))

      got : Returns (Gets page) (
          if nonzero virtual
          then ok (some virtual, st)
          else map_new_virtual hash_ptr is_highmem lowmem_page_address pkmap_base others tries page
              st)
      got = rw high (elim (ltb-cases 0 (find_page page (st.htable (hash_ptr page)))) [
        | inl (e, pos) ↦ rw e (
            returns (record {
              mapped = m;
              located = λ v same. Located-same page _ v st same (find_page-Located page st m pos);
            }))
        | inr (e, zero_there) ↦ rw e (
            map_new_virtual-Gets others tries page st base high keep
              (Lacks-zero page st base m zero_there))
      ])

  -- Unmapping a page that has a slot with a count of two at least, where the slots start above 0
  -- and agree with the table of page addresses: the call returns without a panic, they agree, the
  -- page keeps its slot, the slot's count is one less, and the call says whether it is now one.
  pub kunmap_high-Mapped :
      (page nr : ℕ) (st : Highmem)
      → 0 < pkmap_base
      → Mapped hash_ptr is_highmem lowmem_page_address pkmap_base st
      → nr < last_pkmap
      → st.pkmap_page_table nr ≡ some page
      → 2 ≤ st.pkmap_count nr
      → Returns
          (λ r.
            Mapped hash_ptr is_highmem lowmem_page_address pkmap_base (r.1)
            × ((r.1).pkmap_count nr + 1 ≡ st.pkmap_count nr)
            × ((r.1).pkmap_page_table nr ≡ some page)
            × (r.0 ≡ (st.pkmap_count nr == 2)))
          (kunmap_high hash_ptr is_highmem lowmem_page_address pkmap_base page st)
  unfolding kunmap_high page_address
  kunmap_high-Mapped page nr st base m lt here used =
      rw
        (
          m.high nr page lt here,
          m.found nr page lt here,
          nonnull,
          pkmap_nr-address _ nr refl,
          down,
          left,
        )
        (returns (
          Mapped-count nr (st.pkmap_count nr - 1) st m lt (omega (arith, used))
              (omega (arith, used)),
          ground (arith, ==_self nr, used),
          here,
          ground (arith, used),
        ))
    where
      down : minus (st.pkmap_count nr) 1 ≡ st.pkmap_count nr - 1
      down = ground (arith, used)

      nonnull : (pkmap_base + nr * page_size == 0) ≡ false
      nonnull = ground (arith, base)

      left : (st.pkmap_count nr - 1 == 0) ≡ false
      left = ground (arith, used)
