-- ===== src/Watermark.antt =====
-- `zone_watermark_ok_bs` of mm/page_alloc.c: does a zone have pages enough above a mark? The
-- numbers are words of 32 bits, read as signed ones where the source says `long`.
pub mod Enough
pub mod Supply
mod Tests
use biscuit_os_memory.Common.{
  ℕ, zero, suc, ◌+◌, ◌-◌, ◌*◌, ◌/◌, ◌%◌, ◌^◌, Bool, true, false, leb, ltb, if◌then◌else◌,
}
use biscuit_os_memory.Buddy.{Zone, word, add_word, sub_word}

-- `a <= b` of two `long`
unfoldable pub signed_leb : ℕ → ℕ → Bool
signed_leb a b = leb ((a + 2 ^ 31) % word) ((b + 2 ^ 31) % word)

-- `a / k` of a `long` and a small positive number, which rounds towards zero
unfoldable pub signed_div : ℕ → ℕ → ℕ
signed_div a k = if ltb a (2 ^ 31) then a / k else sub_word 0 ((word - a) / k)

-- `a >> 1` of a `long`
unfoldable pub signed_half : ℕ → ℕ
signed_half a = if ltb a (2 ^ 31) then a / 2 else a / 2 + 2 ^ 31

-- The loop over the orders below the one asked for.
unfoldable pub watermark_loop : ℕ → Zone → ℕ → ℕ → ℕ → Bool
unfolding signed_leb signed_half
watermark_loop zero z o min free_pages = true
watermark_loop (suc rounds) z o min free_pages =
    let free_pages' = sub_word free_pages (z.nr_free o * 2 ^ o % word) in
    let min' = signed_half min in
    let rest = watermark_loop rounds z (o + 1) min' free_pages' in
    if signed_leb free_pages' min' then false else rest

-- The mark, lowered for who may go below it.
unfoldable pub lowered_mark : ℕ → Bool → Bool → ℕ
unfolding signed_div
lowered_mark mark can_try_harder gfp_high =
    let min = if gfp_high then sub_word mark (signed_div mark 2) else mark in
    if can_try_harder then sub_word min (signed_div min 4) else min

-- The first comparison is one of unsigned numbers, as `lowmem_reserve` is unsigned.
unfoldable pub zone_watermark_ok : Zone → ℕ → ℕ → ℕ → Bool → Bool → Bool
zone_watermark_ok z order mark classzone_idx can_try_harder gfp_high =
    let min = lowered_mark mark can_try_harder gfp_high in
    let free_pages = add_word (sub_word z.free_pages (2 ^ order)) 1 in
    if leb free_pages (add_word min (z.lowmem_reserve classzone_idx))
    then false
    else watermark_loop order z 0 min free_pages
