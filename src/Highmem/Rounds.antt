-- ===== src/Highmem/Rounds.antt =====
-- The rounds of the search for a kmap slot in mm/highmem.c.
use biscuit_os_memory.Common.{
  ℕ, zero, suc, ◌+◌, ◌-◌, ◌*◌, ◌%◌, ◌≤◌, ◌<◌, ◌≡◌, refl, sym, inl, inr, Bool, true, not, ◌==◌,
  if◌then◌else◌, Bool-cases, ltb, ltb-cases, Option, none, some, bit_and, Run, ok, bug, ◌>>=◌,
  arith,
}
use biscuit_os_memory.Common.Bits.{bit_and-mask}
use biscuit_os_memory.Highmem.{
  last_pkmap, Highmem, set_page_address, flush_slot, flush_loop, flush_all_zero_pkmaps, find_slot,
}

-- A flush ends with a panic, or leaves the place of the search as it is.
data Leaves (nr : ℕ) : Run Highmem → Type 0 where
  left : {t : Highmem} → t.last_pkmap_nr ≡ nr → Leaves nr (ok t)
  panics : Leaves nr bug

Leaves-bind :
    {n : ℕ} {m : Run Highmem} {f : Highmem → Run Highmem}
    → Leaves n m
    → ((t : Highmem) → t.last_pkmap_nr ≡ n → Leaves n (f t))
    → Leaves n (m >>= f)
Leaves-bind (left e) next = next _ e
Leaves-bind panics next = panics

same_after {ℓ} :
    {n : ℕ} {B : Type ℓ} {m : Run Highmem} {f g : Highmem → Run B}
    → Leaves n m
    → ((t : Highmem) → t.last_pkmap_nr ≡ n → f t ≡ g t)
    → (m >>= f) ≡ (m >>= g)
same_after (left e) same = same _ e
same_after panics same = refl

-- Rounds that are enough for a search that is at slot `last` and has `count` slots to look at.
abbrev pub is_enough : ℕ → ℕ → ℕ → Bool
is_enough rounds last count =
    if ltb (last + count) last_pkmap
    then not (ltb rounds count)
    else not (ltb (rounds + last) (2 * last_pkmap))

-- One round on, one round less is enough.
enough_next :
    (r last count nr : ℕ)
    → last < last_pkmap
    → 0 < count
    → count ≤ last_pkmap
    → nr ≡ (last + 1) % last_pkmap
    → 0 < (if nr == 0 then last_pkmap else count) - 1
    → is_enough (suc r) last count ≡ true
    → is_enough r nr ((if nr == 0 then last_pkmap else count) - 1) ≡ true
enough_next r last count nr at pos le e pos' enough = elim (ltb-cases (last + 1) last_pkmap) [
  | inl (_, lt) ↦ ground (arith, on lt, pos', enough)
  | inr (_, ge) ↦ ground (arith, around ge, pos', enough)
]
  where
    on : last + 1 < last_pkmap → nr ≡ last + 1
    on lt = omega (arith, e, lt)

    around : last_pkmap ≤ last + 1 → nr ≡ 0
    around ge = omega (arith, e, ge, at)

module _ (hash_ptr : ℕ → ℕ) (is_highmem : ℕ → Bool) (lowmem_page_address : ℕ → ℕ) where
  flush_slot-Leaves :
      (i : ℕ) (st : Highmem) (page : Option ℕ)
      → Leaves st.last_pkmap_nr (flush_slot hash_ptr is_highmem lowmem_page_address i st page)
  unfolding flush_slot set_page_address
  flush_slot-Leaves i st none = panics
  flush_slot-Leaves i st (some page) = elim (Bool-cases (is_highmem page)) [
    | inl e ↦ rw e (left refl)
    | inr e ↦ rw e panics
  ]

  flush_loop-Leaves :
      (rounds i n : ℕ) (st : Highmem)
      → st.last_pkmap_nr ≡ n
      → Leaves n (flush_loop hash_ptr is_highmem lowmem_page_address rounds i st)
  unfolding flush_loop
  flush_loop-Leaves zero i n st e = left e
  flush_loop-Leaves (suc rounds) i n st e =
      Leaves-bind step (λ t e'. flush_loop-Leaves rounds (i + 1) n t e')
    where
      step : Leaves n (
          if st.pkmap_count i == 1
          then flush_slot hash_ptr is_highmem lowmem_page_address i st (st.pkmap_page_table i)
          else ok st)
      step = elim (Bool-cases (st.pkmap_count i == 1)) [
        | inl t ↦ rw (t, sym e) (flush_slot-Leaves i st (st.pkmap_page_table i))
        | inr t ↦ rw t (left e)
      ]

  find_slot-enough :
      (more rounds count : ℕ) (st : Highmem)
      → st.last_pkmap_nr < last_pkmap
      → 0 < count
      → count ≤ last_pkmap
      → is_enough more st.last_pkmap_nr count ≡ true
      → is_enough rounds st.last_pkmap_nr count ≡ true
      → find_slot hash_ptr is_highmem lowmem_page_address more count st
        ≡ find_slot hash_ptr is_highmem lowmem_page_address rounds count st
  unfolding find_slot flush_all_zero_pkmaps
  find_slot-enough zero rounds count st at pos le em er = absurd (ground (arith, em))
  find_slot-enough (suc more) zero count st at pos le em er = absurd (ground (arith, er))
  find_slot-enough (suc more) (suc rounds) count st at pos le em er = same_after flushed (λ t e.
      elim (Bool-cases (t.pkmap_count nr == 0)) [
        | inl e' ↦ rw e' refl
        | inr e' ↦ rw e' (elim (ltb-cases 0 count') [
          | inl (e'', pos') ↦ rw e'' (
              find_slot-enough more rounds count' t (omega (arith, e, in_range)) pos'
                (ground (arith, le))
                (rw e (enough_next more st.last_pkmap_nr count nr at pos le at_next pos' em))
                (rw e (enough_next rounds st.last_pkmap_nr count nr at pos le at_next pos' er)))
          | inr (e'', _) ↦ rw e'' refl
        ])
      ])
    where
      nr : ℕ
      nr = bit_and (st.last_pkmap_nr + 1) (last_pkmap - 1)

      count' : ℕ
      count' = (if nr == 0 then last_pkmap else count) - 1

      at_next : nr ≡ (st.last_pkmap_nr + 1) % last_pkmap
      at_next = bit_and-mask 9 (st.last_pkmap_nr + 1)

      in_range : nr < last_pkmap
      in_range = omega (arith, at_next)

      flushed : Leaves nr (
          if nr == 0
          then flush_loop hash_ptr is_highmem lowmem_page_address last_pkmap 0
              (record st { last_pkmap_nr = nr })
          else ok (record st { last_pkmap_nr = nr }))
      flushed = elim (Bool-cases (nr == 0)) [
        | inl e ↦ rw e (flush_loop-Leaves last_pkmap 0 nr (record st { last_pkmap_nr = nr }) refl)
        | inr e ↦ rw e (left refl)
      ]

  -- From a place below the end of the slots, any number of rounds from 1024 on gives what the
  -- search for a slot of map_new_virtual_bs gives with 1024 rounds: its own count ends it by
  -- then, whatever it flushes on the way.
  pub find_slot-rounds :
      (rounds : ℕ) (st : Highmem)
      → st.last_pkmap_nr < last_pkmap
      → 2 * last_pkmap ≤ rounds
      → find_slot hash_ptr is_highmem lowmem_page_address rounds last_pkmap st
        ≡ find_slot hash_ptr is_highmem lowmem_page_address (2 * last_pkmap) last_pkmap st
  find_slot-rounds rounds st at le =
      find_slot-enough rounds (2 * last_pkmap) last_pkmap st at (omega arith) (omega arith)
        (ground (arith, at, le)) (ground (arith, at))
