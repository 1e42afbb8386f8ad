-- ===== src/Vmalloc/Areas.antt =====
-- The areas of the list never overlap: their order, and the search and the removal that keep it.
use biscuit_os_memory.Common.{
  ℕ, ◌+◌, ◌%◌, ◌<◌, ◌≤◌, ◌≡◌, refl, inl, inr, arith, false, ltb, leb-cases, ltb-cases, ==-cases,
  ==_self, List, [], ◌∷◌, none, some,
}
use biscuit_os_memory.Buddy.{word, add_word, sub_word}
use biscuit_os_memory.Vmalloc.{
  Area, Found, page_size, behind, find_place, get_vm_area, area_align, page_align, remove_vm_area,
}

-- Areas in the order of their addresses, apart, from `lo` on and below `hi`.
pub data Apart (hi : ℕ) : ℕ → List Area → Type 0 where
  last : {lo : ℕ} → Apart hi lo []
  more :
      {lo : ℕ} {a : Area} {rest : List Area}
      → lo ≤ a.addr
      → a.addr + a.size ≤ hi
      → 1 ≤ a.size
      → Apart hi (a.addr + a.size) rest
      → Apart hi lo (a ∷ rest)

-- The second list is the first one with an area put in.
pub data Inserted (a : Area) : List Area → List Area → Type 0 where
  here : {list : List Area} → Inserted a list (a ∷ list)
  there :
      {b : Area} {list list' : List Area}
      → Inserted a list list'
      → Inserted a (b ∷ list) (b ∷ list')

-- What a search from the address `from` on that ends with an area has found.
pub record Placed (hi lo from align size : ℕ) (list : List Area) (r : List Area × Area)
    : Type 0 where
  pub apart : Apart hi lo (r.0)
  pub inserted : Inserted (r.1) list (r.0)
  pub above : from ≤ (r.1).addr
  pub aligned : (r.1).addr % align ≡ 0
  pub fits : (r.1).size ≡ size

pub data Outcome (hi lo from align size : ℕ) (list : List Area) : Found → Type 0 where
  refused : Outcome hi lo from align size list none
  placed :
      {r : List Area × Area}
      → Placed hi lo from align size list r
      → Outcome hi lo from align size list (some r)

-- `ALIGN(x, a)` is the first multiple of `a` from `x` on.
abbrev pub RoundsUp : (ℕ → ℕ → ℕ) → ℕ → ℕ → Type 0
RoundsUp align_up align limit =
    (x : ℕ)
    → x ≤ limit
    → (x ≤ align_up x align) × (align_up x align < x + align) × (align_up x align % align ≡ 0)

weaken :
    {hi hi' lo lo' : ℕ} {list : List Area}
    → hi ≤ hi'
    → lo' ≤ lo
    → Apart hi lo list
    → Apart hi' lo' list
weaken h l last = last
weaken {hi} {hi'} h l (more {a} b c d x) =
    let rest = weaken {lo' = a.addr + a.size} h (omega arith) x in
    more (omega arith) (omega arith) d rest

-- An area before those that the search went through.
behind-Outcome :
    {hi lo from from' align size : ℕ} {list : List Area} {r : Found} (tmp : Area)
    → lo ≤ tmp.addr
    → tmp.addr + tmp.size ≤ hi
    → 1 ≤ tmp.size
    → from ≤ from'
    → Outcome hi (tmp.addr + tmp.size) from' align size list r
    → Outcome hi lo from align size (tmp ∷ list) (behind tmp r)
unfolding behind
behind-Outcome tmp a b c d refused = refused
behind-Outcome tmp a b c d (placed p) = placed (record {
  apart = more a b c p.apart;
  inserted = there p.inserted;
  aligned = p.aligned;
  above = omega (arith, p.above);
  fits = p.fits;
})

module _ (align_up : ℕ → ℕ → ℕ) (align size flags stop limit : ℕ)
    (a : RoundsUp align_up align limit) (small : limit + align + size < word)
    (some_size : 1 ≤ size) where
  find_place-Placed :
      (list : List Area) (lo from : ℕ)
      → lo ≤ from
      → from < limit + align
      → from % align ≡ 0
      → Apart limit lo list
      → Outcome
          (limit + align + size)
          lo
          from
          align
          size
          list
          (find_place align_up align size flags stop list from)
  unfolding find_place
  find_place-Placed [] lo from l f z last = placed (record {
    apart = more l (omega arith) some_size last;
    inserted = here;
    aligned = z;
    above = omega arith;
    fits = refl;
  })
  find_place-Placed (tmp ∷ rest) lo from l f z (more b c d x) =
      let later =
        find_place-Placed rest (tmp.addr + tmp.size) (align_up (tmp.addr + tmp.size) align) up.0
          (omega (arith, up.1)) up.2 x in
      rw (first_end, next_start, new_end)
        (elim (ltb-cases tmp.addr from) [
          | inl (e, l1) ↦ elim (leb-cases from (tmp.addr + tmp.size)) [
            | inl (g, l2) ↦ rw (e, g) (behind-Outcome tmp b wide d (omega (arith, up.0)) later)
            | inr (g, l2) ↦
                rw (e, g)
                  (behind-Outcome tmp b wide d (omega arith)
                    (find_place-Placed rest (tmp.addr + tmp.size) from (omega arith) f z x))
          ]
          | inr (e, l1) ↦ elim (leb-cases (from + size) tmp.addr) [
            | inl (g, l2) ↦
                rw (e, no_wrap, g)
                  (placed (record {
                    apart = more l (omega arith) some_size (
                        more l2 wide d
                          (weaken {lo' = tmp.addr + tmp.size} (omega arith) (omega arith) x));
                    inserted = here;
                    aligned = z;
                    above = omega arith;
                    fits = refl;
                  }))
            | inr (g, l2) ↦
                elim (ltb-cases (sub_word stop size) (align_up (tmp.addr + tmp.size) align)) [
                  | inl (k, _) ↦ rw (e, no_wrap, g, k) refused
                  | inr (k, _) ↦
                      rw (e, no_wrap, g, k)
                        (behind-Outcome tmp b wide d (omega (arith, up.0)) later)
                ]
          ]
        ])
    where
      first_end : add_word tmp.addr tmp.size ≡ tmp.addr + tmp.size
      first_end = omega arith

      next_start : add_word tmp.size tmp.addr ≡ tmp.addr + tmp.size
      next_start = omega arith

      new_end : add_word size from ≡ from + size
      new_end = omega arith

      no_wrap : ltb (from + size) from ≡ false
      no_wrap = ground arith

      wide : tmp.addr + tmp.size ≤ limit + align + size
      wide = omega arith

      up :
          (tmp.addr + tmp.size ≤ align_up (tmp.addr + tmp.size) align)
          × (align_up (tmp.addr + tmp.size) align < tmp.addr + tmp.size + align)
          × (align_up (tmp.addr + tmp.size) align % align ≡ 0)
      up = a (tmp.addr + tmp.size) c

-- With a list of areas in order, apart and below a limit, a search that starts at or below the
-- limit, where no sum exceeds a word and ALIGN gives the first multiple at or above a number: the
-- search ends with no area, or with an aligned one of the rounded size and a guard page at or
-- above the start, put into the list, which is again in order and apart.
pub get_vm_area-Outcome :
    (align_up : ℕ → ℕ → ℕ) (fls : ℕ → ℕ) (list : List Area) (lo size flags start stop limit : ℕ)
    → RoundsUp align_up (area_align fls size flags) limit
    → limit + area_align fls size flags + (page_align size + page_size) < word
    → lo ≤ start
    → start ≤ limit
    → Apart limit lo list
    → Outcome
        (limit + area_align fls size flags + (page_align size + page_size))
        lo
        start
        (area_align fls size flags)
        (page_align size + page_size)
        list
        (get_vm_area align_up fls list size flags start stop)
unfolding get_vm_area
get_vm_area-Outcome align_up fls list lo size flags start stop limit a small l b x =
    elim (==-cases (page_align size) 0) [
      | inl (e, _) ↦ rw e refused
      | inr (e, _) ↦
          rw (e, whole)
            (lower (
              find_place-Placed align_up align (page_align size + page_size) flags stop limit a
                small (omega arith) list lo (align_up start align) (omega (arith, up.0))
                (omega (arith, up.1)) up.2 x))
    ]
  where
    align : ℕ
    align = area_align fls size flags

    whole : add_word (page_align size) page_size ≡ page_align size + page_size
    whole = omega arith

    up :
        (start ≤ align_up start align)
        × (align_up start align < start + align)
        × (align_up start align % align ≡ 0)
    up = a start b

    lower :
        {hi size : ℕ} {r : Found}
        → Outcome hi lo (align_up start align) align size list r
        → Outcome hi lo start align size list r
    lower refused = refused
    lower (placed p) = placed (record {
      apart = p.apart;
      inserted = p.inserted;
      above = omega (arith, p.above, up.0);
      aligned = p.aligned;
      fits = p.fits;
    })

Inserted-above :
    {hi lo : ℕ} {a : Area} {list list' : List Area}
    → Apart hi lo list'
    → Inserted a list list'
    → lo ≤ a.addr
Inserted-above last i = elim i [ ]
Inserted-above (more b c d x) here = b
Inserted-above (more b c d x) (there i) = omega (arith, Inserted-above x i)

-- In a list of areas in order and apart, removing at the address of an area that was put in gives
-- the list as it was before, and the area without its guard page.
pub remove_vm_area-Inserted :
    {hi lo : ℕ} (a : Area) {list list' : List Area}
    → Apart hi lo list'
    → Inserted a list list'
    → remove_vm_area list' a.addr ≡ some (list, record a { size = sub_word a.size page_size })
unfolding remove_vm_area behind
remove_vm_area-Inserted a last i = elim i [ ]
remove_vm_area-Inserted a (more b c d x) here = rw (==_self a.addr) refl
remove_vm_area-Inserted a (more {a = first} b c d x) (there i) = elim (==-cases first.addr a.addr) [
  | inl (_, e) ↦ absurd (omega (arith, Inserted-above x i))
  | inr (e, _) ↦ rw (e, remove_vm_area-Inserted a x i) refl
]
