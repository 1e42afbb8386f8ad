-- ===== src/Bootmem/Found.antt =====
-- What the search of `__alloc_bootmem_core_bs` in mm/bootmem.c finds.
use biscuit_os_memory.Common.{
  ℕ, zero, suc, ◌+◌, ◌-◌, ◌*◌, ◌%◌, ◌<◌, ◌≤◌, ◌≡◌, ◌≢◌, sym, ap, ◌∙◌, inl, inr, ◌⊎◌, arith, Bool,
  true, false, leb-cases, ltb-cases, Bool-cases, Option-cases, Option, none, some,
}
use biscuit_os_memory.Buddy.{word, add_word}
use biscuit_os_memory.Vmalloc.Areas.{RoundsUp}
use biscuit_os_memory.Bootmem.Search.{blocked_at, end_round, scan}

-- `find_next_zero_bit(map, size, i)` is the next bit that is 0, or the size.
abbrev pub FindsZero : ((ℕ → Bool) → ℕ → ℕ → ℕ) → Type 0
FindsZero find =
    (map : ℕ → Bool) (size i : ℕ)
    → i ≤ size
    → (i ≤ find map size i)
      × (find map size i ≤ size)
      × ((j : ℕ) → i ≤ j → j < find map size i → map j ≡ true)

-- A page among some that is reserved, or behind the node
abbrev pub Blocked : (ℕ → Bool) → ℕ → ℕ → ℕ → Type 0
Blocked map start count j = (start ≤ j) × (j < start + count) × (map j ≡ true)

-- Pages that are free, inside the node
pub record Free (map : ℕ → Bool) (eidx start count : ℕ) : Type 0 where
  pub in_node : start < eidx
  pub free : (j : ℕ) → start ≤ j → j < start + count → map j ≡ false
  pub inside : (j : ℕ) → start ≤ j → j < start + count → j < eidx

some-ne : {a : ℕ} → none ≢ some a
some-ne e = ground (arith, e)

blocked_at-none :
    (map : ℕ → Bool) (eidx rounds j : ℕ)
    → blocked_at map eidx rounds j ≡ none
    → (p : ℕ) → j ≤ p
    → p < j + rounds
    → (p < eidx) × (map p ≡ false)
unfolding blocked_at
blocked_at-none map eidx zero j e p a b = absurd (omega arith)
blocked_at-none map eidx (suc rounds) j e p a b = elim (leb-cases eidx j) [
  | inl (t, _) ↦ absurd (some-ne (sym (rw t at e)))
  | inr (t, lt) ↦ elim (Bool-cases (map j)) [
    | inl t' ↦ absurd (some-ne (sym (rw (t, t') at e)))
    | inr t' ↦ elim (leb-cases p j) [
      | inl (_, le) ↦ let here : p ≡ j = omega arith in rw here (lt, t')
      | inr (_, gt) ↦
          blocked_at-none map eidx rounds (j + 1) (rw (t, t') at e) p (omega arith) (omega arith)
    ]
  ]
]

-- Where the loop over `j` stops
blocked_at-some :
    (map : ℕ → Bool) (eidx rounds j p : ℕ)
    → blocked_at map eidx rounds j ≡ some p
    → (j ≤ p) × (p < j + rounds) × ((eidx ≤ p) ⊎ (map p ≡ true))
unfolding blocked_at
blocked_at-some map eidx zero j p e = absurd (some-ne e)
blocked_at-some map eidx (suc rounds) j p e = elim (leb-cases eidx j) [
  | inl (t, le) ↦
      let here : j ≡ p = ground (arith, rw t at e) in (omega arith, omega arith, inl (omega arith))
  | inr (t, lt) ↦ elim (Bool-cases (map j)) [
    | inl t' ↦
        let here : j ≡ p = ground (arith, rw (t, t') at e) in
        (omega arith, omega arith, inr (ap map (sym here) ∙ t'))
    | inr t' ↦
        let rest = blocked_at-some map eidx rounds (j + 1) p (rw (t, t') at e) in
        (omega (arith, rest.0), omega (arith, rest.1), rest.2)
  ]
]

module _ (align_up : ℕ → ℕ → ℕ) (find : (ℕ → Bool) → ℕ → ℕ → ℕ) (map : ℕ → Bool)
    (eidx areasize incr : ℕ) (zeros : FindsZero find)
    (up : RoundsUp align_up incr (eidx + areasize + incr))
    (small : eidx + areasize + 2 * incr < word) where
  -- The page at which a round looks
  looked_at :
      (i : ℕ)
      → i < eidx
      → (i ≤ align_up (find map eidx i) incr)
        × (align_up (find map eidx i) incr < eidx + incr)
        × (align_up (find map eidx i) incr % incr ≡ 0)
  looked_at i lt =
      let z = zeros map eidx i (omega arith) in
      let u = up (find map eidx i) (omega (arith, z.1)) in
      (omega (arith, z.0, u.0), omega (arith, z.1, u.1), u.2)

  found_here :
      (look : ℕ)
      → look < eidx + incr
      → ((j : ℕ) → eidx ≤ j → map j ≡ true)
      → map look ≡ false
      → blocked_at map eidx (add_word look areasize - (look + 1)) (look + 1) ≡ none
      → Free map eidx look areasize
  found_here look lt guard t e = record {
    in_node = below;
    free = λ j a b. elim (ltb-cases look j) [
      | inl (_, lt') ↦ (others j lt' b).1
      | inr (_, le) ↦ let here : j ≡ look = omega arith in ap map here ∙ t
    ];
    inside = λ j a b. elim (ltb-cases look j) [
      | inl (_, lt') ↦ (others j lt' b).0
      | inr (_, le) ↦ omega (arith, below)
    ];
  }
    where
      below : look < eidx
      below = elim (ltb-cases look eidx) [
        | inl (_, lt') ↦ lt'
        | inr (_, le) ↦ absurd (ground (arith, guard look le, t))
      ]

      others : (j : ℕ) → look < j → j < look + areasize → (j < eidx) × (map j ≡ false)
      others j lt' b =
          blocked_at-none map eidx (add_word look areasize - (look + 1)) (look + 1) e j
            (omega arith) (omega arith)

  pub scan-Free :
      (rounds i s : ℕ)
      → ((j : ℕ) → eidx ≤ j → map j ≡ true)
      → scan align_up find map eidx areasize incr rounds i ≡ some s
      → Free map eidx s areasize × (s % incr ≡ 0)
  unfolding scan end_round
  scan-Free zero i s guard e = absurd (some-ne e)
  scan-Free (suc rounds) i s guard e = elim (ltb-cases i eidx) [
    | inr (t, _) ↦ absurd (some-ne (rw t at e))
    | inl (t, lt) ↦ elim (Bool-cases (map (look))) [
      | inl t' ↦ scan-Free rounds (add_word look incr) s guard (rw (t, t') at e)
      | inr t' ↦ elim (Option-cases stop) [
        | inl n ↦
            let here : look ≡ s = ground (arith, rw (t, t', n) at e) in
            rw (sym here) (found_here look (looked_at i lt).1 guard t' n, (looked_at i lt).2)
        | inr (j, k) ↦
            scan-Free rounds (add_word (align_up j incr) incr) s guard (rw (t, t', k) at e)
      ]
    ]
  ]
    where
      look : ℕ
      look = align_up (find map eidx i) incr

      stop : Option ℕ
      stop = blocked_at map eidx (add_word look areasize - (look + 1)) (look + 1)

  -- Where each page is tried, a search that finds nothing has passed no free pages.
  pub scan-Blocked :
      (rounds i s : ℕ)
      → incr ≡ 1
      → 0 < areasize
      → eidx < i + rounds
      → i ≤ s
      → s + areasize ≤ eidx
      → scan align_up find map eidx areasize incr rounds i ≡ none
      → (p : ℕ) × Blocked map s areasize p
  unfolding scan end_round
  scan-Blocked zero i s one pos enough from le e = absurd (omega arith)
  scan-Blocked (suc rounds) i s one pos enough from le e = elim (ltb-cases i eidx) [
    | inr (t, ge) ↦ absurd (omega arith)
    | inl (t, lt) ↦ elim (ltb-cases s look) [
      | inl (_, before) ↦ (
        s,
        (
          omega arith,
          omega arith,
          (zeros map eidx i (omega arith)).2 s from (omega (arith, passed lt, before)),
        ),
      )
      | inr (_, behind) ↦ elim (Bool-cases (map look)) [
        | inl t' ↦ elim (ltb-cases look s) [
          | inl (_, gt) ↦
              scan-Blocked rounds (add_word look incr) s one pos (omega (arith, bound lt))
                (omega (arith, bound lt, gt)) le (rw (t, t') at e)
          | inr (_, le') ↦
              let here : look ≡ s = omega arith in
              (s, (omega arith, omega arith, ap map (sym here) ∙ t'))
        ]
        | inr t' ↦ elim (Option-cases stop) [
          | inl n ↦ absurd (some-ne (sym (rw (t, t', n) at e)))
          | inr (j, k) ↦ elim (after j (blocked_at-some map eidx _ (look + 1) j k) lt behind) [
            | inl blocked ↦ blocked
            | inr (far, same) ↦
                scan-Blocked rounds (add_word (align_up j incr) incr) s one pos
                  (omega (arith, bound lt, blocked_at-some map eidx _ (look + 1) j k, same, far))
                  (omega (arith, same, far)) le (rw (t, t', k) at e)
          ]
        ]
      ]
    ]
  ]
    where
      look : ℕ
      look = align_up (find map eidx i) incr

      stop : Option ℕ
      stop = blocked_at map eidx (add_word look areasize - (look + 1)) (look + 1)

      bound : i < eidx → (i ≤ look) × (look < eidx + 1)
      bound lt = omega (arith, looked_at i lt, one)

      after :
          (j : ℕ)
          → (look + 1 ≤ j)
            × (j < look + 1 + (add_word look areasize - (look + 1)))
            × ((eidx ≤ j) ⊎ (map j ≡ true))
          → i < eidx
          → look ≤ s
          → ((p : ℕ) × Blocked map s areasize p) ⊎ ((j < s) × (align_up j incr ≡ j))
      after j b lt behind = elim (leb-cases s j) [
        | inl (_, le') ↦ elim (b.2) [
          | inl out ↦ absurd (omega (arith, out, b.1, bound lt))
          | inr taken ↦ inl (j, (le', omega (arith, b.1, bound lt), taken))
        ]
        | inr (_, gt) ↦ let u = up j (omega (arith, gt)) in inr (gt, omega (arith, u.0, u.1, one))
      ]

      passed : i < eidx → look ≡ find map eidx i
      passed lt =
          let u = up (find map eidx i) (omega (arith, (zeros map eidx i (omega arith)).1)) in
          omega (arith, u.0, u.1, one)
