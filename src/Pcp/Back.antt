-- ===== src/Pcp/Back.antt =====
-- A block on its way back: what the allocator does to its pages before it is on a list.
use biscuit_os_memory.Common.{
  ℕ, zero, suc, ◌+◌, ◌^◌, ◌≤◌, ◌≡◌, refl, sym, ◌∙◌, ap, inl, inr, arith, ==-cases, contains, true,
  false, Bool, if◌then◌else◌,
}
use biscuit_os_memory.Page.{Page, page_is_buddy}
use biscuit_os_memory.Buddy.{Mm}
use biscuit_os_memory.Buddy.Cover.{hit, hit-cases, hit_of_mem, hit_self, hit-le-cover}
use biscuit_os_memory.Buddy.Valid.{Idle, InZone}
use biscuit_os_memory.Buddy.Frame.{SamePage, SamePage-trans}
use biscuit_os_memory.Pcp.{set_page}
use biscuit_os_memory.Pcp.Bulk.{Placed}
use biscuit_os_memory.Common.{Bool-cases}
use biscuit_os_memory.Page.{bad_page}
use biscuit_os_memory.Buddy.Valid.{bad_range-false}
use biscuit_os_memory.Buddy.Frame.{Fixed-refl}
use biscuit_os_memory.Pcp.Held.{Inv, held, Unmarked, set_page-Inv}
use biscuit_os_memory.Page.{free_pages_check}
use biscuit_os_memory.Pcp.{check_pages, set_highmem, arch_free_page}

-- A block that no list holds, of pages with no users.
pub record Back (s : Mm) (page order : ℕ) : Type 0 where
  pub inv : Inv s
  pub placed : Placed s page order
  pub unheld : (q : ℕ) → hit page order q ≡ 1 → held s q ≡ 0

-- What is left alone besides the pages of the block.
pub record Outside (s : Mm) (page order : ℕ) (t : Mm) : Type 0 where
  pub held : (q : ℕ) → held t q ≡ held s q
  pub pcp : t.zone.pcp ≡ s.zone.pcp
  pub start : t.zone.zone_start_pfn ≡ s.zone.zone_start_pfn
  pub spanned : t.zone.spanned_pages ≡ s.zone.spanned_pages
  pub index : t.zone.index ≡ s.zone.index
  pub others : (q : ℕ) → hit page order q ≡ 0 → SamePage (s.mem q) (t.mem q)

pub Outside-refl : (s : Mm) (page order : ℕ) → Outside s page order s
Outside-refl s page order = record {
  held = λ q. refl;
  pcp = refl;
  start = refl;
  spanned = refl;
  index = refl;
  others = λ q h. (Fixed-refl s).pages q;
}

pub Outside-trans :
    {s t u : Mm} {page order : ℕ}
    → Outside s page order t
    → Outside t page order u
    → Outside s page order u
Outside-trans f g = record {
  held = λ q. g.held q ∙ f.held q;
  pcp = g.pcp ∙ f.pcp;
  start = g.start ∙ f.start;
  spanned = g.spanned ∙ f.spanned;
  index = g.index ∙ f.index;
  others = λ q h. SamePage-trans (f.others q h) (g.others q h);
}

-- A change of a page that keeps it free, and does not make it pass for a free block.
pub record Touched (a b : Page) : Type 0 where
  pub count : b.count ≡ a.count
  pub reserved : b.flags.reserved ≡ a.flags.reserved
  pub zone : b.flags.zone ≡ a.flags.zone
  pub unmarked : Unmarked a → Unmarked b

abbrev pub BackFrom : Mm → ℕ → ℕ → Mm → Type 0
BackFrom s page order t = Back t page order × Outside s page order t

pub Touched-trans : {a b c : Page} → Touched a b → Touched b c → Touched a c
Touched-trans f g = record {
  count = g.count ∙ f.count;
  reserved = g.reserved ∙ f.reserved;
  zone = g.zone ∙ f.zone;
  unmarked = λ m. g.unmarked (f.unmarked m);
}

module _ {s : Mm} {page order : ℕ} (b : Back s page order) (q : ℕ) (h : hit page order q ≡ 1) where
  within : InZone s q 0
  within = elim (hit-cases page order q) [
    | inl (_, a, c) ↦ record {
      lo = omega (arith, b.placed.inside.lo);
      hi = omega (arith, b.placed.inside.hi);
    }
    | inr (z, _) ↦ absurd (omega arith)
  ]

  -- A page that the zone does not hold is not marked as a free block.
  unmarked : Unmarked (s.mem q)
  unmarked k o = elim (Bool-cases (page_is_buddy (s.mem q) k)) [
    | inl e ↦
        let listed : contains q (s.zone.free_list k) ≡ true =
          b.inv.valid.heads k q o (bad_range-false within (b.placed.idle q h)) e in
        absurd
          (omega (arith, b.unheld q h, hit-le-cover s.zone.free_list k o q q listed, hit_self q k))
    | inr e ↦ e
  ]

  module _ (p : Page) (c : Touched (s.mem q) p) where
    touched-Idle : (r : ℕ) → Idle s r → Idle (set_page s q p) r
    unfolding set_page
    touched-Idle r d = elim (==-cases q r) [
      | inl (e, e') ↦ record {
        unused = rw e (c.count ∙ rw (← e') at d.unused);
        free = rw e (c.reserved ∙ rw (← e') at d.free);
        home = rw e (c.zone ∙ rw (← e') at d.home);
      }
      | inr (e, _) ↦ record { unused = rw e d.unused; free = rw e d.free; home = rw e d.home }
    ]

    others-Same : (r : ℕ) → hit page order r ≡ 0 → SamePage (s.mem r) ((set_page s q p).mem r)
    unfolding set_page
    others-Same r k = elim (==-cases q r) [
      | inl (_, e) ↦ absurd (omega (arith, ap (hit page order) e))
      | inr (e, _) ↦ rw e ((Fixed-refl s).pages r)
    ]

    pub touch : BackFrom s page order (set_page s q p)
    unfolding set_page
    touch = (
      record {
        inv = set_page-Inv q p b.inv (b.unheld q h) (c.unmarked unmarked);
        placed = record {
          aligned = b.placed.aligned;
          inside = record { lo = b.placed.inside.lo; hi = b.placed.inside.hi };
          idle = λ r k. touched-Idle r (b.placed.idle r k);
        };
        unheld = b.unheld;
      },
      record {
        held = λ r. refl;
        pcp = refl;
        start = refl;
        spanned = refl;
        index = refl;
        others = others-Same;
      },
    )

pub BackFrom-trans :
    {s t u : Mm} {page order : ℕ}
    → BackFrom s page order t
    → BackFrom t page order u
    → BackFrom s page order u
BackFrom-trans f g = (g.0, Outside-trans f.1 g.1)

highmem-Touched : (p : Page) → Touched p (record p { flags = record (p.flags) { highmem = true } })
unfolding page_is_buddy
highmem-Touched p = record { count = refl; reserved = refl; zone = refl; unmarked = λ m. m }

-- A page free of references passes the check, or `bad_page_bs` makes it free of them.
checked-Touched :
    (p : Page) (bad : Bool)
    → p.count ≡ 0
    → Touched p (
        let checked : Page = if bad then bad_page p else p in
        record checked { flags = record (checked.flags) { dirty = false } })
unfolding bad_page page_is_buddy
checked-Touched p true h = record {
  count = sym h;
  reserved = refl;
  zone = refl;
  unmarked = λ m k o. refl;
}
checked-Touched p false h = record { count = refl; reserved = refl; zone = refl; unmarked = λ m. m }

pub free_pages_check-Touched : (p : Page) → p.count ≡ 0 → Touched p (free_pages_check p)
unfolding free_pages_check
free_pages_check-Touched p h = checked-Touched p _ h

-- The loops over the pages of a block.
pub set_highmem-Back :
    (n : ℕ) (s : Mm) (p page order : ℕ)
    → page ≤ p
    → p + n ≤ page + 2 ^ order
    → Back s page order
    → BackFrom s page order (set_highmem n s p)
unfolding set_highmem
set_highmem-Back zero s p page order a c b = (b, Outside-refl s page order)
set_highmem-Back (suc n) s p page order a c b =
    let h : hit page order p ≡ 1 = hit_of_mem page order p a (omega arith) in
    let one = touch b p h _ (highmem-Touched (s.mem p)) in
    BackFrom-trans one (set_highmem-Back n _ (p + 1) page order (omega arith) (omega arith) one.0)

pub check_pages-Back :
    (n : ℕ) (s : Mm) (p page order : ℕ)
    → page ≤ p
    → p + n ≤ page + 2 ^ order
    → Back s page order
    → BackFrom s page order (check_pages n s p)
unfolding check_pages
check_pages-Back zero s p page order a c b = (b, Outside-refl s page order)
check_pages-Back (suc n) s p page order a c b =
    let h : hit page order p ≡ 1 = hit_of_mem page order p a (omega arith) in
    let one = touch b p h _ (free_pages_check-Touched (s.mem p) (b.placed.idle p h).unused) in
    BackFrom-trans one (check_pages-Back n _ (p + 1) page order (omega arith) (omega arith) one.0)

pub arch_free_page-Back :
    (s : Mm) (page order : ℕ)
    → Back s page order
    → BackFrom s page order (arch_free_page s page order)
unfolding arch_free_page
arch_free_page-Back s page order b = on_zone s.zone.named_highmem
  where
    on_zone :
        (named : Bool) → BackFrom s page order (if named then set_highmem (2 ^ order) s page else s)
    on_zone true = set_highmem-Back (2 ^ order) s page page order (omega arith) (omega arith) b
    on_zone false = (b, Outside-refl s page order)
