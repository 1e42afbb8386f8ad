-- ===== src/Highmem/Tests.antt =====
-- Concrete kmap slots of mm/highmem.c, and the theorems applied to them.
use biscuit_os_memory.Common.{
  ℕ, ◌+◌, ◌*◌, ◌≡◌, refl, sym, ap, inl, inr, Bool, true, ◌==◌, if◌then◌else◌, ==-cases, Option,
  none, some, [], ◌∷◌, Run, ok, Returns, arith, bug,
}
use biscuit_os_memory.Highmem.Rounds.{find_slot-rounds}
use biscuit_os_memory.Highmem.{
  last_pkmap, Highmem, find_page, page_address, set_page_address, find_slot, pkmap_addr, pkmap_nr,
  map_slot, after_search, map_new_virtual, count_up_slot, kmap_high, kunmap_high, kmap,
}
use biscuit_os_memory.Highmem.Mapped.{spares, Mapped, none-some, some-eq}
use biscuit_os_memory.Highmem.Kmap.{Kmapped, kmap_high-Kmapped, kunmap_high-Mapped}

abbrev one_list : ℕ → ℕ
one_list page = 0

abbrev all_high : ℕ → Bool
all_high page = true

abbrev no_low : ℕ → ℕ
no_low page = 0

abbrev slots_base : ℕ
slots_base = 0xbfe00000

-- Page 7 is mapped in slot 3, by one user.
abbrev one_mapping : Highmem
one_mapping = record {
  htable = λ _. (7, 0xbfe03000) ∷ [];
  pool = 511;
  pkmap_count = λ i. if i == 3 then 2 else 0;
  last_pkmap_nr = 3;
  pkmap_page_table = λ i. if i == 3 then some 7 else none;
}

-- Slot 4 is the next.
page_mapped : Option ℕ
page_mapped = answer (kmap one_list all_high no_low slots_base (λ s. s) 1 9 one_mapping)
  where
    answer : Run (Option ℕ × Highmem) → Option ℕ
    answer (ok r) = r.0
    answer bug = none

page_mapped_is : page_mapped ≡ some 0xbfe04000
unfolding page_mapped kmap kmap_high map_new_virtual after_search map_slot find_slot
    set_page_address page_address find_page pkmap_addr pkmap_nr count_up_slot
page_mapped_is = refl

only_mapping : (i page : ℕ) → one_mapping.pkmap_page_table i ≡ some page → (i ≡ 3) × (7 ≡ page)
only_mapping i page e = elim (==-cases i 3) [
  | inl (t, three) ↦ (three, some-eq (rw t at e))
  | inr (t, _) ↦ absurd (none-some (rw t at e))
]

counts_left : spares 512 one_mapping.pkmap_count ≡ 511
unfolding spares
counts_left = refl

one_mapping-Mapped : Mapped one_list all_high no_low slots_base one_mapping
unfolding find_page
one_mapping-Mapped = record {
  clear = λ i lt e. elim (==-cases i 3) [
    | inl (t, _) ↦ absurd (ground (arith, t, e))
    | inr (t, _) ↦ rw t refl
  ];
  used = λ i lt pos. elim (==-cases i 3) [
    | inl (t, _) ↦ (7, rw t refl)
    | inr (t, _) ↦ absurd (ground (arith, t, pos))
  ];
  counted = λ i page lt e. let o = only_mapping i page e in ground (arith, o.0);
  high = λ i page lt e. refl;
  found = λ i page lt e. let o = only_mapping i page e in ground (arith, o.0, o.1);
  once = λ i page lt e. let o = only_mapping i page e in ground (arith, o.1);
  slot = λ page there. elim (==-cases 7 page) [
    | inl (_, same) ↦ (3, omega arith, ap some same)
    | inr (t, _) ↦ absurd (ground (arith, t, there))
  ];
  spare = sym counts_left;
}

kmap_high-Kmapped_example :
    Returns
      (Kmapped one_list all_high no_low slots_base 9)
      (kmap_high one_list all_high no_low slots_base (λ s. s) 1 9 one_mapping)
kmap_high-Kmapped_example =
    kmap_high-Kmapped one_list all_high no_low slots_base (λ s. s) 1 9 one_mapping (omega arith)
      refl (λ s m. m) one_mapping-Mapped

kunmap_high-Mapped_example :
    Returns
      (λ r.
        Mapped one_list all_high no_low slots_base (r.1)
        × ((r.1).pkmap_count 3 + 1 ≡ one_mapping.pkmap_count 3)
        × ((r.1).pkmap_page_table 3 ≡ some 7)
        × (r.0 ≡ (one_mapping.pkmap_count 3 == 2)))
      (kunmap_high one_list all_high no_low slots_base 7 one_mapping)
kunmap_high-Mapped_example =
    kunmap_high-Mapped one_list all_high no_low slots_base 7 3 one_mapping (omega arith)
      one_mapping-Mapped (omega arith) refl (omega arith)

find_slot-rounds_example :
    find_slot one_list all_high no_low 3000 last_pkmap one_mapping
    ≡ find_slot one_list all_high no_low (2 * last_pkmap) last_pkmap one_mapping
find_slot-rounds_example =
    find_slot-rounds one_list all_high no_low 3000 one_mapping (omega arith) (omega arith)
