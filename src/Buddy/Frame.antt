-- ===== src/Buddy/Frame.antt =====
-- What the moves of blocks leave alone: all of a zone but its free areas, and all of a page but
-- the mark and the order of a free block.
use biscuit_os_memory.Common.{ℕ, ◌≡◌, refl, sym, ◌∙◌, ap, ◌≤◌, arith, ==-cases, ◌⊎◌, inl, inr, true}
use biscuit_os_memory.Page.{Page}
use biscuit_os_memory.Buddy.{Mm, put_block, take_block, set_free_pages, bad_range}
use biscuit_os_memory.Buddy.Cover.{hit, cover}
use biscuit_os_memory.Buddy.Valid.{Valid, Loose, Idle, InZone}

-- Two states of one page, alike but for the buddy system's mark.
pub record SamePage (a b : Page) : Type 0 where
  pub count : b.count ≡ a.count
  pub mapcount : b.mapcount ≡ a.mapcount
  pub mapping : b.mapping ≡ a.mapping
  pub reserved : b.flags.reserved ≡ a.flags.reserved
  pub zone : b.flags.zone ≡ a.flags.zone
  -- Only a page with no users that is not reserved is marked, or has its mark taken off.
  pub mark : (1 ≤ a.count) ⊎ (a.flags.reserved ≡ true) → b.flags.has_private ≡ a.flags.has_private

-- The zone's place and the pages, and nothing of the lists.
pub record Fixed (s t : Mm) : Type 0 where
  pub start : t.zone.zone_start_pfn ≡ s.zone.zone_start_pfn
  pub spanned : t.zone.spanned_pages ≡ s.zone.spanned_pages
  pub index : t.zone.index ≡ s.zone.index
  pub pages : (q : ℕ) → SamePage (s.mem q) (t.mem q)

pub record Frame (s t : Mm) : Type 0 where
  pub start : t.zone.zone_start_pfn ≡ s.zone.zone_start_pfn
  pub spanned : t.zone.spanned_pages ≡ s.zone.spanned_pages
  pub index : t.zone.index ≡ s.zone.index
  pub pcp : t.zone.pcp ≡ s.zone.pcp
  pub pages : (q : ℕ) → SamePage (s.mem q) (t.mem q)

pub Frame-refl : (s : Mm) → Frame s s
Frame-refl s = record {
  start = refl;
  spanned = refl;
  index = refl;
  pcp = refl;
  pages = λ q. record {
    count = refl;
    mapcount = refl;
    mapping = refl;
    reserved = refl;
    zone = refl;
    mark = λ _. refl;
  };
}

pub SamePage-trans : {a b c : Page} → SamePage a b → SamePage b c → SamePage a c
SamePage-trans p q = record {
  count = q.count ∙ p.count;
  mapcount = q.mapcount ∙ p.mapcount;
  mapping = q.mapping ∙ p.mapping;
  reserved = q.reserved ∙ p.reserved;
  zone = q.zone ∙ p.zone;
  mark = λ h.
      q.mark (elim h [
        | inl used ↦ inl (omega (arith, p.count, used))
        | inr kept ↦ inr (p.reserved ∙ kept)
      ])
      ∙ p.mark h;
}

pub Frame-trans : {s t u : Mm} → Frame s t → Frame t u → Frame s u
Frame-trans f g = record {
  start = g.start ∙ f.start;
  spanned = g.spanned ∙ f.spanned;
  index = g.index ∙ f.index;
  pcp = g.pcp ∙ f.pcp;
  pages = λ q. SamePage-trans (f.pages q) (g.pages q);
}

-- A page with no users that is not reserved is neither used nor reserved.
Idle-unused :
    (s : Mm) (page q : ℕ)
    → Idle s page
    → page ≡ q
    → ¬ ((1 ≤ (s.mem q).count) ⊎ ((s.mem q).flags.reserved ≡ true))
Idle-unused s page q idle e (inl used) =
    absurd (omega (arith, ap (λ x. (s.mem x).count) e, idle.unused))
Idle-unused s page q idle e (inr kept) =
    let clash = sym idle.free ∙ ap (λ x. (s.mem x).flags.reserved) e ∙ kept in
    absurd (ground (arith, clash))

pub Frame-put_block : (s : Mm) (page order : ℕ) → Idle s page → Frame s (put_block s page order)
unfolding put_block
Frame-put_block s page order idle = record {
  start = refl;
  spanned = refl;
  index = refl;
  pcp = refl;
  pages = λ q. elim (==-cases page q) [
    | inl (e, e') ↦ rw e record {
      count = ap (λ x. (s.mem x).count) e';
      mapcount = ap (λ x. (s.mem x).mapcount) e';
      mapping = ap (λ x. (s.mem x).mapping) e';
      reserved = ap (λ x. (s.mem x).flags.reserved) e';
      zone = ap (λ x. (s.mem x).flags.zone) e';
      mark = λ h. absurd (Idle-unused s page q idle e' h);
    }
    | inr (e, _) ↦ rw e record {
      count = refl;
      mapcount = refl;
      mapping = refl;
      reserved = refl;
      zone = refl;
      mark = λ _. refl;
    }
  ];
}

pub Frame-take_block : (s : Mm) (page order : ℕ) → Idle s page → Frame s (take_block s page order)
unfolding take_block
Frame-take_block s page order idle = record {
  start = refl;
  spanned = refl;
  index = refl;
  pcp = refl;
  pages = λ q. elim (==-cases page q) [
    | inl (e, e') ↦ rw e record {
      count = ap (λ x. (s.mem x).count) e';
      mapcount = ap (λ x. (s.mem x).mapcount) e';
      mapping = ap (λ x. (s.mem x).mapping) e';
      reserved = ap (λ x. (s.mem x).flags.reserved) e';
      zone = ap (λ x. (s.mem x).flags.zone) e';
      mark = λ h. absurd (Idle-unused s page q idle e' h);
    }
    | inr (e, _) ↦ rw e record {
      count = refl;
      mapcount = refl;
      mapping = refl;
      reserved = refl;
      zone = refl;
      mark = λ _. refl;
    }
  ];
}

pub Frame-set_free_pages : (s : Mm) (n : ℕ) → Frame s (set_free_pages s n)
unfolding set_free_pages
Frame-set_free_pages s n = record {
  start = refl;
  spanned = refl;
  index = refl;
  pcp = refl;
  pages = λ q. record {
    count = refl;
    mapcount = refl;
    mapping = refl;
    reserved = refl;
    zone = refl;
    mark = λ _. refl;
  };
}

module _ {s t : Mm} (f : Fixed s t) where
  pub Fixed-Idle : {q : ℕ} → Idle s q → Idle t q
  Fixed-Idle {q} d =
      let p = f.pages q in
      record {
        unused = p.count ∙ d.unused;
        free = p.reserved ∙ d.free;
        home = p.zone ∙ (d.home ∙ sym f.index);
      }

  pub Fixed-InZone : {page order : ℕ} → InZone s page order → InZone t page order
  Fixed-InZone i = record {
    lo = omega (arith, i.lo, f.start);
    hi = omega (arith, i.hi, f.start, f.spanned);
  }

pub Fixed-trans : {s t u : Mm} → Fixed s t → Fixed t u → Fixed s u
Fixed-trans f g = record {
  start = g.start ∙ f.start;
  spanned = g.spanned ∙ f.spanned;
  index = g.index ∙ f.index;
  pages = λ q. SamePage-trans (f.pages q) (g.pages q);
}

pub Frame-Fixed : {s t : Mm} → Frame s t → Fixed s t
Frame-Fixed f = record { start = f.start; spanned = f.spanned; index = f.index; pages = f.pages }

pub Fixed-refl : (s : Mm) → Fixed s s
Fixed-refl s = Frame-Fixed (Frame-refl s)

module _ {s t : Mm} (f : Frame s t) where
  pub Frame-Idle : {q : ℕ} → Idle s q → Idle t q
  Frame-Idle = Fixed-Idle (Frame-Fixed f)

  pub Frame-InZone : {page order : ℕ} → InZone s page order → InZone t page order
  Frame-InZone = Fixed-InZone (Frame-Fixed f)

  -- A loose block stays loose while its pages stay off the free lists.
  pub Frame-Loose :
      {page order : ℕ}
      → Loose s page order
      → ((q : ℕ) → hit page order q ≡ 1 → cover t.zone.free_list q ≡ 0)
      → Loose t page order
  Frame-Loose l u = record {
    aligned = l.aligned;
    inside = Frame-InZone l.inside;
    uncovered = u;
    idle = λ q h. Frame-Idle (l.idle q h);
  }

-- The count of free pages is not part of the invariant.
pub set_free_pages-Valid : {s : Mm} (n : ℕ) → Valid s → Valid (set_free_pages s n)
unfolding set_free_pages bad_range
set_free_pages-Valid n v = record {
  counts = v.counts;
  blocks = λ k p o h.
      let b = v.blocks k p o h in
      record {
        marked = b.marked;
        recorded = b.recorded;
        aligned = b.aligned;
        inside = record { lo = b.inside.lo; hi = b.inside.hi };
      };
  heads = v.heads;
  once = v.once;
  idle = λ q h. let d = v.idle q h in record { unused = d.unused; free = d.free; home = d.home };
}
