-- ===== src/Watermark/Enough.antt =====
-- What `zone_watermark_ok_bs` is to compute, on numbers without bounds, and that it does.
use biscuit_os_memory.Common.{
  ℕ, zero, suc, ◌+◌, ◌-◌, ◌*◌, ◌/◌, ◌%◌, ◌^◌, ◌<◌, ◌≤◌, ◌≡◌, refl, ◌∙◌, inl, inr, arith, Bool, true,
  false, leb, if◌then◌else◌, not, leb-cases,
}
use biscuit_os_memory.Common.Bits.{pow-pos}
use biscuit_os_memory.Buddy.{Zone, word, add_word, sub_word}
use biscuit_os_memory.Watermark.{
  signed_leb, signed_div, signed_half, watermark_loop, lowered_mark, zone_watermark_ok,
}

-- `needed` pages are spoken for: the block, and the free blocks too small for it.
unfoldable pub enough_loop : ℕ → (ℕ → ℕ) → ℕ → ℕ → ℕ → ℕ → Bool
enough_loop zero nr_free o min needed free = true
enough_loop (suc rounds) nr_free o min needed free =
    let needed' = needed + nr_free o * 2 ^ o in
    let rest = enough_loop rounds nr_free (o + 1) (min / 2) needed' free in
    if leb (needed' + min / 2) free then rest else false

unfoldable pub spared_mark : ℕ → Bool → Bool → ℕ
spared_mark mark harder high =
    let min = if high then mark - mark / 2 else mark in if harder then min - min / 4 else min

unfoldable pub enough : ℕ → (ℕ → ℕ) → ℕ → ℕ → ℕ → Bool
enough order nr_free min reserve free =
    if leb (2 ^ order + (min + reserve)) free
    then enough_loop order nr_free 0 min (2 ^ order) free
    else false

-- The pages of the blocks of `rounds` orders from `o` on.
unfoldable pub pages_from : ℕ → (ℕ → ℕ) → ℕ → ℕ
pages_from zero nr_free o = 0
pages_from (suc rounds) nr_free o = nr_free o * 2 ^ o + pages_from rounds nr_free (o + 1)

signed_leb_lem :
    (free needed m : ℕ)
    → free < 2 ^ 31
    → 1 ≤ needed
    → needed < 2 ^ 31
    → m < 2 ^ 31
    → signed_leb ((free + 1 + word - needed) % word) m ≡ not (leb (needed + m) free)
unfolding signed_leb
signed_leb_lem free needed m a one b c = elim (leb-cases (needed + m) free) [
  | inl (e, l) ↦
      let this : (free + 1 + word - needed) % word ≡ free + 1 - needed = omega arith in
      rw (e, this) (ground arith)
  | inr (e, l) ↦ rw e (ground arith)
]

sub_word_lem :
    (free needed more : ℕ)
    → needed + more < 2 ^ 31
    → sub_word ((free + 1 + word - needed) % word) (more % word)
      ≡ (free + 1 + word - (needed + more)) % word
sub_word_lem free needed more a = omega arith

swap_branches : (b rest : Bool) → (if not b then false else rest) ≡ (if b then rest else false)
swap_branches true rest = refl
swap_branches false rest = refl

half_lem : (m : ℕ) → m < 2 ^ 31 → signed_half m ≡ m / 2
unfolding signed_half
half_lem m h = ground arith

loop_lem :
    (rounds : ℕ) (z : Zone) (o min needed free : ℕ)
    → free < 2 ^ 31
    → min < 2 ^ 31
    → 1 ≤ needed
    → needed + pages_from rounds z.nr_free o < 2 ^ 31
    → watermark_loop rounds z o min ((free + 1 + word - needed) % word)
      ≡ enough_loop rounds z.nr_free o min needed free
unfolding watermark_loop enough_loop pages_from
loop_lem zero z o min needed free a b one c = refl
loop_lem (suc rounds) z o min needed free a b one c =
    rw
      (
        half_lem min b,
        sub_word_lem free needed (z.nr_free o * 2 ^ o) (omega arith),
        signed_leb_lem free (needed + z.nr_free o * 2 ^ o) (min / 2) a (omega arith) (omega arith)
            (omega arith),
        loop_lem rounds z (o + 1) (min / 2) (needed + z.nr_free o * 2 ^ o) free a (omega arith)
            (omega arith) (omega arith),
      )
      (swap_branches (leb (needed + z.nr_free o * 2 ^ o + min / 2) free)
        (enough_loop rounds z.nr_free (o + 1) (min / 2) (needed + z.nr_free o * 2 ^ o) free))

spared_lem :
    (mark : ℕ) (harder high : Bool)
    → mark < 2 ^ 31
    → lowered_mark mark harder high ≡ spared_mark mark harder high
unfolding lowered_mark signed_div spared_mark
spared_lem mark harder high h = ground arith

spared-le : (mark : ℕ) (harder high : Bool) → spared_mark mark harder high ≤ mark
unfolding spared_mark
spared-le mark harder high = ground arith

-- Where the block alone is more than what is free, the first round of the loop sees it.
enough_loop-short :
    (order : ℕ) (nr_free : ℕ → ℕ) (min free : ℕ)
    → free + 1 < 2 ^ order
    → enough_loop order nr_free 0 min (2 ^ order) free ≡ false
unfolding enough_loop
enough_loop-short zero nr_free min free h = absurd (omega arith)
enough_loop-short (suc order) nr_free min free h =
    elim (leb-cases (2 ^ suc order + nr_free 0 * 2 ^ 0 + min / 2) free) [
      | inl (_, l) ↦ absurd (omega arith)
      | inr (e, _) ↦ rw e refl
    ]

word_lem :
    (free needed : ℕ)
    → free < 2 ^ 31
    → needed < 2 ^ 31
    → add_word (sub_word free needed) 1 ≡ (free + 1 + word - needed) % word
word_lem free needed a b = omega arith

-- Where the free pages, the mark with the reserve, and the block with the free blocks too small
-- for it are each below 2^31, the code's mix of signed and unsigned words computes the comparison
-- of unbounded numbers: the block, the lowered mark and the reserve are at most what is free, and
-- for each lower order the smaller blocks, the block and the mark halved once more are.
pub zone_watermark_ok-enough :
    (z : Zone) (order mark classzone_idx : ℕ) (harder high : Bool)
    → z.free_pages < 2 ^ 31
    → mark + z.lowmem_reserve classzone_idx < 2 ^ 31
    → 2 ^ order + pages_from order z.nr_free 0 < 2 ^ 31
    → zone_watermark_ok z order mark classzone_idx harder high
      ≡ enough order z.nr_free
          (spared_mark mark harder high)
          (z.lowmem_reserve classzone_idx)
          z.free_pages
unfolding zone_watermark_ok enough
zone_watermark_ok-enough z order mark classzone_idx harder high a b c =
    rw
      (spared_lem mark harder high (omega arith), word_lem z.free_pages (2 ^ order) a (omega arith))
      (compared (spared_mark mark harder high) (omega (arith, spared-le mark harder high)))
  where
    reserve : ℕ
    reserve = z.lowmem_reserve classzone_idx

    left : ℕ
    left = (z.free_pages + 1 + word - 2 ^ order) % word

    compared :
        (min : ℕ)
        → min + reserve < 2 ^ 31
        → (if leb left (add_word min reserve) then false else watermark_loop order z 0 min left) ≡ (
            if leb (2 ^ order + (min + reserve)) z.free_pages
            then enough_loop order z.nr_free 0 min (2 ^ order) z.free_pages
            else false)
    compared min h =
        let looped : watermark_loop order z 0 min left
            ≡ enough_loop order z.nr_free 0 min (2 ^ order) z.free_pages =
          loop_lem order z 0 min (2 ^ order) z.free_pages a (omega arith) (pow-pos order) c in
        elim (leb-cases (2 ^ order + (min + reserve)) z.free_pages) [
          | inl (e, l) ↦
              let more : leb left (add_word min reserve) ≡ false = ground (arith, pow-pos order) in
              rw (e, more) looped
          | inr (e, l) ↦ elim (leb-cases left (add_word min reserve)) [
            | inl (f, _) ↦ rw (e, f) refl
            | inr (f, g) ↦
                rw (e, f)
                  (looped
                    ∙ enough_loop-short order z.nr_free min z.free_pages
                        (omega (arith, pow-pos order)))
          ]
        ]
