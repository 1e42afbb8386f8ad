-- ===== src/Bootmem/Handed.antt =====
-- What the page allocator gets from mm/bootmem.c.
use biscuit_os_memory.Common.{
  ℕ, zero, suc, ◌+◌, ◌-◌, ◌%◌, ◌<◌, ◌≤◌, ◌≡◌, sym, ap, refl, ◌∙◌, inl, inr, arith, true, false, leb,
  ltb, ◌==◌, ◌&&◌, ==-cases, ==_self, if◌then◌else◌, Returns, Returns-mono,
}
use biscuit_os_memory.Page.{Page, set_page_count, set_page_refs, page_is_buddy}
use biscuit_os_memory.Buddy.{Mm, Zone}
use biscuit_os_memory.Buddy.Cover.{cover, hit, hit-cases, hit_self}
use biscuit_os_memory.Buddy.Valid.{InZone}
use biscuit_os_memory.Pcp.{set_page, nr_cpus}
use biscuit_os_memory.Pcp.Held.{Inv, held, parked, Unmarked, set_page-Inv}
use biscuit_os_memory.Pcp.Grant.{Owned}
use biscuit_os_memory.Pcp.Release.{Released, free_pages-Released}
use biscuit_os_memory.Bootmem.Handover.{
  clear_page_reserved, free_one, clear_rest, free_word, bits_per_long,
}

-- A page of the zone as it is before the page allocator has it: reserved, without users, not held
pub record Waiting (s : Mm) (q : ℕ) : Type 0 where
  pub unheld : held s q ≡ 0
  pub unused : (s.mem q).count ≡ 0
  pub clean : (s.mem q).flags.has_private ≡ false
  pub reserved : (s.mem q).flags.reserved ≡ true
  pub home : (s.mem q).flags.zone ≡ s.zone.index
  pub inside : InZone s q 0

-- The zone has got a block; what waits besides still does.
pub record Taken (s : Mm) (page order : ℕ) (t : Mm) : Type 0 where
  pub inv : Inv t
  pub held : (q : ℕ) → held t q ≡ held s q + hit page order q
  pub waits : (q : ℕ) → hit page order q ≡ 0 → Waiting s q → Waiting t q

abbrev zone_holds : Zone → ℕ → ℕ
zone_holds z q = cover z.free_list q + parked z.pcp q

same-Waiting : {s t : Mm} {q : ℕ} → t.zone ≡ s.zone → t.mem q ≡ s.mem q → Waiting s q → Waiting t q
same-Waiting {q} zone mem x = record {
  unheld = ap (λ z. zone_holds z q) zone ∙ x.unheld;
  unused = rw mem x.unused;
  clean = rw mem x.clean;
  reserved = rw mem x.reserved;
  home = rw (mem, zone) x.home;
  inside = record { lo = rw zone x.inside.lo; hi = rw zone x.inside.hi };
}

module _ {s : Mm} (page : ℕ) (p : Page) (v : Inv s) (w : Waiting s page)
    (clean : p.flags.has_private ≡ false) where
  unmarked : Unmarked p
  unfolding page_is_buddy
  unmarked k o = rw clean refl

  set_page-keeps : Inv (set_page s page p)
  set_page-keeps = set_page-Inv page p v w.unheld unmarked

  -- The pages besides
  set_page-Waiting : (q : ℕ) → (page == q) ≡ false → Waiting s q → Waiting (set_page s page p) q
  unfolding set_page
  set_page-Waiting q e x = record {
    unheld = x.unheld;
    unused = rw e x.unused;
    clean = rw e x.clean;
    reserved = rw e x.reserved;
    home = rw e x.home;
    inside = record { lo = x.inside.lo; hi = x.inside.hi };
  }

Released-Waiting :
    {s t : Mm} {page order : ℕ}
    → Released s page order t
    → (q : ℕ) → hit page order q ≡ 0
    → Waiting s q
    → Waiting t q
Released-Waiting r q out x =
    let same = r.others q out in
    record {
      unheld = omega (arith, r.held q, out, x.unheld);
      unused = same.count ∙ x.unused;
      clean = same.mark (inr x.reserved) ∙ x.clean;
      reserved = same.reserved ∙ x.reserved;
      home = same.zone ∙ (x.home ∙ sym r.index);
      inside = record {
        lo = omega (arith, x.inside.lo, r.start);
        hi = omega (arith, x.inside.hi, r.start, r.spanned);
      };
    }

pub free_one-Taken :
    (s : Mm) (cpu page : ℕ)
    → cpu < nr_cpus
    → Inv s
    → Waiting s page
    → Returns (Taken s page 0) (free_one s cpu page)
unfolding free_one set_page clear_page_reserved set_page_refs set_page_count
free_one-Taken s cpu page c v w =
    Returns-mono
      (free_pages-Released (set_page s page given) cpu page 0 c (omega arith)
        (set_page-keeps page given v w w.clean) owned)
      (λ t r. record {
        inv = r.inv;
        held = r.held;
        waits = λ q out x.
            Released-Waiting r q out (set_page-Waiting page given v w w.clean q (apart q out) x);
      })
  where
    given : Page
    given = set_page_refs (clear_page_reserved (s.mem page))

    apart : (q : ℕ) → hit page 0 q ≡ 0 → (page == q) ≡ false
    apart q out = elim (==-cases page q) [
      | inl (_, e) ↦ absurd (omega (arith, out, hit_self page 0, ap (hit page 0) e))
      | inr (e, _) ↦ e
    ]

    only : (q : ℕ) → hit page 0 q ≡ 1 → page ≡ q
    only q h = elim (hit-cases page 0 q) [
      | inl (_, lo, hi) ↦ omega (arith, lo, hi)
      | inr (z, _) ↦ absurd (omega (arith, z, h))
    ]

    owned : Owned (set_page s page given) page 0
    owned = record {
      aligned = omega arith;
      inside = record { lo = w.inside.lo; hi = w.inside.hi };
      unheld = λ q h. ap (held s) (sym (only q h)) ∙ w.unheld;
      used = rw (==_self page) refl;
      clean = rw (==_self page) w.clean;
      unreserved = rw (==_self page) refl;
      home = rw (==_self page) w.home;
      rest = λ q h e. absurd (ground (arith, e, only q h));
    }

-- Pages that are not reserved any more, and nothing else
record Cleared (rounds : ℕ) (s : Mm) (page : ℕ) (t : Mm) : Type 0 where
  inv : Inv t
  zone : t.zone ≡ s.zone
  mem :
      (q : ℕ)
      → t.mem q
        ≡ (if leb page q && ltb q (page + rounds) then clear_page_reserved (s.mem q) else s.mem q)

Cleared-step :
    (rounds : ℕ) (s : Mm) (page : ℕ) {t : Mm}
    → Cleared rounds (set_page s page (clear_page_reserved (s.mem page))) (page + 1) t
    → Cleared (suc rounds) s page t
unfolding set_page
Cleared-step rounds s page r = record { inv = r.inv; zone = r.zone; mem = λ q. r.mem q ∙ merged q }
  where
    given : Page
    given = clear_page_reserved (s.mem page)

    merged :
        (q : ℕ)
        → (if leb (page + 1) q && ltb q (page + 1 + rounds)
            then clear_page_reserved ((set_page s page given).mem q)
            else (set_page s page given).mem q)
          ≡ (if leb page q && ltb q (page + suc rounds)
              then clear_page_reserved (s.mem q)
              else s.mem q)
    merged q = elim (==-cases page q) [
      | inl (_, e') ↦ rw (sym e', ==_self page) (ground arith)
      | inr (e, differ) ↦ rw e (ground arith)
    ]

clear_rest-Cleared :
    (rounds : ℕ) (s : Mm) (page : ℕ)
    → Inv s
    → ((q : ℕ) → page ≤ q → q < page + rounds → Waiting s q)
    → Cleared rounds s page (clear_rest rounds s page)
unfolding clear_rest
clear_rest-Cleared zero s page v w = record { inv = v; zone = refl; mem = λ q. ground arith }
clear_rest-Cleared (suc rounds) s page v w =
    let here = w page (omega arith) (omega arith) in
    let clean : (clear_page_reserved (s.mem page)).flags.has_private ≡ false =
      unfold clear_page_reserved in here.clean in
    Cleared-step rounds s page (
      clear_rest-Cleared rounds (set_page s page (clear_page_reserved (s.mem page))) (page + 1)
        (set_page-keeps page _ v here clean)
        (λ q lo hi.
          set_page-Waiting page _ v here clean q (ground (arith, lo))
            (w q (omega arith) (omega arith))))

pub free_word-Taken :
    (s : Mm) (cpu page : ℕ)
    → cpu < nr_cpus
    → page % bits_per_long ≡ 0
    → Inv s
    → ((q : ℕ) → page ≤ q → q < page + bits_per_long → Waiting s q)
    → Returns (Taken s page 5) (free_word s cpu page 5)
unfolding free_word clear_page_reserved set_page_refs set_page_count
free_word-Taken s cpu page c aligned v w =
    Returns-mono (free_pages-Released t cpu page 5 c (omega arith) r.inv owned) (λ u done. record {
      inv = done.inv;
      held = λ q. done.held q ∙ ap (λ n. n + hit page 5 q) (ap (λ z. zone_holds z q) r.zone);
      waits = λ q out x. Released-Waiting done q out (same-Waiting r.zone (beside q out) x);
    })
  where
    given : Page
    given = set_page_refs (clear_page_reserved (s.mem page))

    here : Waiting s page
    here = w page (omega arith) (omega arith)

    first : Mm
    first = set_page s page given

    t : Mm
    t = clear_rest (bits_per_long - 1) first (page + 1)

    r : Cleared (bits_per_long - 1) first (page + 1) t
    r =
        clear_rest-Cleared (bits_per_long - 1) first (page + 1)
          (set_page-keeps page given v here here.clean)
          (λ q lo hi.
            set_page-Waiting page given v here here.clean q (ground (arith, lo))
              (w q (omega arith) (omega arith)))

    head : t.mem page ≡ given
    head = r.mem page ∙ ground (arith, ==_self page)

    beside : (q : ℕ) → hit page 5 q ≡ 0 → t.mem q ≡ s.mem q
    beside q out = elim (hit-cases page 5 q) [
      | inl (one, _, _) ↦ absurd (omega (arith, out, one))
      | inr (_, past) ↦ r.mem q ∙ ground (arith, past)
    ]

    covers : (q : ℕ) → hit page 5 q ≡ 1 → Waiting s q
    covers q h = elim (hit-cases page 5 q) [
      | inl (_, lo, hi) ↦ w q lo (omega (arith, hi))
      | inr (none_hit, _) ↦ absurd (omega (arith, none_hit, h))
    ]

    behind :
        (q : ℕ)
        → hit page 5 q ≡ 1
        → (page == q) ≡ false
        → (t.mem q ≡ clear_page_reserved (s.mem q)) × (page ≤ q) × (q < page + bits_per_long)
    behind q h e = elim (hit-cases page 5 q) [
      | inl (_, lo, hi) ↦ (r.mem q ∙ ground (arith, e, lo, hi), lo, omega (arith, hi))
      | inr (zero_hits, _) ↦ absurd (omega (arith, zero_hits, h))
    ]

    owned : Owned t page 5
    owned = record {
      aligned = omega (arith, aligned);
      inside = rw r.zone (record {
        lo = here.inside.lo;
        hi = omega (arith, (w (page + 31) (omega arith) (omega arith)).inside.hi);
      });
      unheld = λ q h. ap (λ z. zone_holds z q) r.zone ∙ (covers q h).unheld;
      used = rw head refl;
      clean = rw head here.clean;
      unreserved = rw head refl;
      home = rw (head, r.zone) here.home;
      rest = λ q h e.
          let b = behind q h e in
          record {
            unused = rw b.0 (covers q h).unused;
            free = rw b.0 refl;
            home = rw (b.0, r.zone) (covers q h).home;
          };
    }
