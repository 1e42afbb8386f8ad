-- ===== src/Setup/Zonelists/Reserve.antt =====
-- The pages that a zone keeps from requests for higher zones.
use biscuit_os_memory.Common.{
  ℕ, zero, suc, ◌+◌, ◌/◌, ◌<◌, ◌≤◌, ◌≡◌, ◌≢◌, refl, sym, ◌∙◌, arith, inl, inr, false, ltb, leb,
  ◌&&◌, ◌==◌, ==-cases, ==_self, ltb-cases, if◌then◌else◌, update, sum_below,
}
use biscuit_os_memory.Buddy.{word, add_word}
use biscuit_os_memory.Fallback.{max_nr_zones}
use biscuit_os_memory.Setup.Zonelists.{reserve_below, setup_lowmem_reserve}

-- The pages of the zones above `z` and below `bound`
unfoldable pub between : (ℕ → ℕ) → ℕ → ℕ → ℕ
between present_pages z bound = sum_below bound (λ m. if ltb z m then present_pages m else 0)

-- A ratio of less than one counts as one.
abbrev pub share : (ℕ → ℕ) → ℕ → ℕ
share ratio z = if ltb (ratio z) 1 then 1 else ratio z

between_none :
    (present_pages : ℕ → ℕ) (z bound : ℕ) → bound ≤ suc z → between present_pages z bound ≡ 0
unfolding between
between_none present_pages z zero le = refl
between_none present_pages z (suc bound) le =
    ground (arith, between_none present_pages z bound (omega arith))

between-le :
    (present_pages : ℕ → ℕ) (z bound : ℕ)
    → between present_pages z bound ≤ sum_below bound present_pages
unfolding between
between-le present_pages z zero = omega arith
between-le present_pages z (suc bound) = ground (arith, between-le present_pages z bound)

between-suc :
    (present_pages : ℕ → ℕ) (z bound : ℕ)
    → z < bound
    → between present_pages z (suc bound) ≡ present_pages bound + between present_pages z bound
unfolding between
between-suc present_pages z bound lt = ground (arith, lt)

reserve_below_lem :
    (ratio present_pages : ℕ → ℕ) (j idx pages : ℕ) (reserve : ℕ → ℕ → ℕ) (z c : ℕ)
    → pages + sum_below idx present_pages < word
    → reserve_below ratio present_pages j idx pages reserve z c ≡ (
        if c == j && ltb z idx
        then (pages + between present_pages z idx) / share ratio z
        else reserve z c)
unfolding reserve_below
reserve_below_lem ratio present_pages j zero pages reserve z c small = ground arith
reserve_below_lem ratio present_pages j (suc idx) pages reserve z c small =
    reserve_below_lem ratio present_pages j idx (add_word pages (present_pages idx)) _ z c
      (omega (arith, small))
    ∙ rw fits (elim (==-cases idx z) [
      | inl (_, e) ↦
          rw (sym e, ==_self idx, between_none present_pages idx (suc idx) (omega arith), no_more)
            (ground arith)
      | inr (t, differ) ↦ rw t (elim (ltb-cases z idx) [
        | inl (t', lt) ↦
            let more : pages + between present_pages z (suc idx)
                ≡ pages + present_pages idx + between present_pages z idx =
              omega (arith, between-suc present_pages z idx lt) in
            rw (t', more) (ground (arith, lt))
        | inr (t', ge) ↦ rw t' (ground (arith, ge, differ))
      ])
    ])
  where
    fits : add_word pages (present_pages idx) ≡ pages + present_pages idx
    fits = omega (arith, small)

    no_more : pages + 0 ≡ pages
    no_more = omega arith

-- What the reserves are to be: nothing from requests for the zone itself, a share of the zones above it
-- from requests for a higher one
unfoldable pub kept : (ℕ → ℕ) → (ℕ → ℕ) → (ℕ → ℕ → ℕ) → ℕ → ℕ → ℕ
kept ratio present_pages reserve z c =
    if z == c
    then 0
    else if ltb z c
    then (present_pages c + between present_pages z c) / share ratio z
    else reserve z c

sum_below-grow : (n more : ℕ) (f : ℕ → ℕ) → sum_below n f ≤ sum_below (n + more) f
sum_below-grow n zero f = let same : n + 0 ≡ n = omega arith in rw same (omega arith)
sum_below-grow n (suc more) f =
    let next : n + suc more ≡ suc (n + more) = omega arith in
    rw next (omega (arith, sum_below-grow n more f))

setup_lem :
    (ratio present_pages : ℕ → ℕ) (rounds j : ℕ) (reserve : ℕ → ℕ → ℕ) (z c : ℕ)
    → sum_below (j + rounds) present_pages < word
    → setup_lowmem_reserve ratio present_pages rounds j reserve z c ≡ (
        if leb j c && ltb c (j + rounds) then kept ratio present_pages reserve z c else reserve z c)
unfolding setup_lowmem_reserve kept
setup_lem ratio present_pages zero j reserve z c small = ground arith
setup_lem ratio present_pages (suc rounds) j reserve z c small =
    setup_lem ratio present_pages rounds (j + 1) step z c (rw shift small) ∙ elim (==-cases c j) [
      | inl (_, e) ↦ rw e (at_zone (rw e at step_lem))
      | inr (t, differ) ↦ rw (unchanged t differ) (ground (arith, differ))
    ]
  where
    step : ℕ → ℕ → ℕ
    step =
        reserve_below ratio present_pages j j (present_pages j)
          (update reserve j (update (reserve j) j 0))

    shift : j + 1 + rounds ≡ j + suc rounds
    shift = omega arith

    same_end : suc j + rounds ≡ j + suc rounds
    same_end = omega arith

    fits : present_pages j + sum_below j present_pages < word
    fits = omega (arith, small, rw same_end at (sum_below-grow (suc j) rounds present_pages))

    step_lem : step z c ≡ (
        if c == j && ltb z j
        then (present_pages j + between present_pages z j) / share ratio z
        else update reserve j (update (reserve j) j 0) z c)
    step_lem = reserve_below_lem ratio present_pages j j (present_pages j) _ z c fits

    unchanged : (c == j) ≡ false → c ≢ j → step z c ≡ reserve z c
    unchanged t differ =
        step_lem
        ∙ rw t (elim (==-cases j z) [
          | inl (_, e) ↦ rw (sym e, ==_self j) (ground (arith, differ))
          | inr (e, _) ↦ rw e refl
        ])

    at_zone :
        step z j ≡ (
          if j == j && ltb z j
          then (present_pages j + between present_pages z j) / share ratio z
          else update reserve j (update (reserve j) j 0) z j)
        → (if leb (j + 1) j && ltb j (j + 1 + rounds)
            then kept ratio present_pages step z j
            else step z j)
          ≡ (if leb j j && ltb j (j + suc rounds)
              then kept ratio present_pages reserve z j
              else reserve z j)
    at_zone here = elim (==-cases z j) [
      | inl (_, e) ↦ rw e (ground (arith, rw e at here, ==_self j))
      | inr (e, differ) ↦ ground (arith, here, e, differ)
    ]

-- Where the pages of the three zones of a node are together below 2^32: a zone keeps nothing from
-- requests for itself, from requests for a higher zone the pages of the zones above it up to that
-- one, divided by its ratio or by 1 if the ratio is 0, and what it keeps from requests for a
-- lower zone is left as it was.
pub setup_lowmem_reserve-kept :
    (ratio present_pages : ℕ → ℕ) (reserve : ℕ → ℕ → ℕ) (z c : ℕ)
    → sum_below max_nr_zones present_pages < word
    → c < max_nr_zones
    → setup_lowmem_reserve ratio present_pages max_nr_zones 0 reserve z c
      ≡ kept ratio present_pages reserve z c
setup_lowmem_reserve-kept ratio present_pages reserve z c small lt =
    setup_lem ratio present_pages max_nr_zones 0 reserve z c small ∙ ground (arith, lt)
