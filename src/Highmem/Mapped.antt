-- ===== src/Highmem/Mapped.antt =====
-- The kmap slots of mm/highmem.c and the page address table agree.
use biscuit_os_memory.Common.{
  ℕ, ◌+◌, ◌*◌, ◌<◌, ◌≡◌, ◌≢◌, refl, ap, ◌∙◌, inl, inr, Bool, true, ◌==◌, if◌then◌else◌, ==-cases,
  ==_self, update, Option, none, some, List, sum_below, sum_below-change, sum_below-ge, arith,
}
use biscuit_os_memory.Vmalloc.{page_size}
use biscuit_os_memory.Highmem.{last_pkmap, Highmem, find_page}
use biscuit_os_memory.Highmem.Table.{entries_of}

-- 1 for a slot without a mapping.
abbrev pub unused : (ℕ → ℕ) → ℕ → ℕ
unused count i = if count i == 0 then 1 else 0

-- How many of the first `n` slots have no mapping.
unfoldable pub spares : ℕ → (ℕ → ℕ) → ℕ
spares n count = sum_below n (unused count)

pub spares-use :
    (n i : ℕ) (count : ℕ → ℕ)
    → i < n
    → count i ≡ 0
    → spares n (update count i 1) + 1 ≡ spares n count
unfolding spares
spares-use n i count lt idle = ground (
  arith,
  sum_below-change n i (unused (update count i 1)) (unused count) lt (λ j differ. ground arith),
  ==_self i,
)

pub spares-free :
    (n i : ℕ) (count : ℕ → ℕ)
    → i < n
    → 0 < count i
    → spares n (update count i 0) ≡ spares n count + 1
unfolding spares
spares-free n i count lt used = ground (
  arith,
  sum_below-change n i (unused (update count i 0)) (unused count) lt (λ j differ. ground arith),
  ==_self i,
)

-- A count that stays above 0 changes nothing.
pub spares-more :
    (n i v : ℕ) (count : ℕ → ℕ)
    → i < n
    → 0 < count i
    → 0 < v
    → spares n (update count i v) ≡ spares n count
unfolding spares
spares-more n i v count lt used pos = ground (
  arith,
  sum_below-change n i (unused (update count i v)) (unused count) lt (λ j differ. ground arith),
  ==_self i,
)

pub spares-some : (n i : ℕ) (count : ℕ → ℕ) → i < n → count i ≡ 0 → 0 < spares n count
unfolding spares
spares-some n i count lt idle = ground (arith, sum_below-ge n i (unused count) lt)

pub none-some : {a : ℕ} → none ≢ some a
none-some e = absurd (zero_one (ap size e))
  where
    size : Option ℕ → ℕ
    size none = 0
    size (some _) = 1

    zero_one : ◌≢◌ {A = ℕ} 0 1
    zero_one e' = absurd (omega (arith, e'))

pub some-eq : {a b : ℕ} → some a ≡ some b → a ≡ b
some-eq {a} {b} e = ap (λ (o : Option ℕ). elim o [ none ↦ a | some x ↦ x ]) e

module _ (hash_ptr : ℕ → ℕ) (is_highmem : ℕ → Bool) (lowmem_page_address : ℕ → ℕ)
    (pkmap_base : ℕ) where
  -- A slot with a count has a page of high memory, which has one entry in the table, with the slot's
  -- address; no other page has an entry, and there is a descriptor left for each slot without a count.
  pub record Mapped (st : Highmem) : Type 0 where
    pub clear : (i : ℕ) → i < last_pkmap → st.pkmap_count i ≡ 0 → st.pkmap_page_table i ≡ none
    pub used :
        (i : ℕ)
        → i < last_pkmap
        → 0 < st.pkmap_count i
        → (page : ℕ) × (st.pkmap_page_table i ≡ some page)
    pub counted :
        (i page : ℕ) → i < last_pkmap → st.pkmap_page_table i ≡ some page → 0 < st.pkmap_count i
    pub high :
        (i page : ℕ) → i < last_pkmap → st.pkmap_page_table i ≡ some page → is_highmem page ≡ true
    pub found :
        (i page : ℕ)
        → i < last_pkmap
        → st.pkmap_page_table i ≡ some page
        → find_page page (st.htable (hash_ptr page)) ≡ pkmap_base + i * page_size
    pub once :
        (i page : ℕ)
        → i < last_pkmap
        → st.pkmap_page_table i ≡ some page
        → entries_of page (st.htable (hash_ptr page)) ≡ 1
    pub slot :
        (page : ℕ)
        → 0 < entries_of page (st.htable (hash_ptr page))
        → (i : ℕ) × (i < last_pkmap) × (st.pkmap_page_table i ≡ some page)
    pub spare : st.pool ≡ spares last_pkmap st.pkmap_count

  -- Two slots do not have the same page.
  pub one_slot :
      (st : Highmem) (i j page : ℕ)
      → Mapped st
      → i < last_pkmap
      → j < last_pkmap
      → st.pkmap_page_table i ≡ some page
      → st.pkmap_page_table j ≡ some page
      → i ≡ j
  one_slot st i j page m li lj ei ej = omega (arith, m.found i page li ei, m.found j page lj ej)

  -- A list of the table changes; a page whose entries there are the same sees no difference.
  module _ {ℓ} {A : Type ℓ} (f : List (ℕ × ℕ) → A) where
    pub at_slot :
        (htable : ℕ → List (ℕ × ℕ)) (pams : List (ℕ × ℕ)) (page q : ℕ)
        → f pams ≡ f (htable (hash_ptr page))
        → f (update htable (hash_ptr page) pams (hash_ptr q)) ≡ f (htable (hash_ptr q))
    at_slot htable pams page q same = elim (==-cases (hash_ptr page) (hash_ptr q)) [
      | inl (e, e') ↦ rw e (same ∙ ap (λ h. f (htable h)) e')
      | inr (e, _) ↦ rw e refl
    ]
