-- ===== src/Highmem/Table.antt =====
-- The lists of the page address table of mm/highmem.c.
use biscuit_os_memory.Common.{
  ℕ, suc, ◌+◌, ◌-◌, ◌<◌, ◌≡◌, refl, inl, inr, true, false, ◌==◌, if◌then◌else◌, ==-cases, ==_self,
  List, [], ◌∷◌, ◌++◌, arith,
}
use biscuit_os_memory.Highmem.{find_page, remove_page}

-- How many entries a page has.
abbrev pub entries_of : ℕ → List (ℕ × ℕ) → ℕ
entries_of page [] = 0
entries_of page (pam ∷ pams) =
    if pam.0 == page then suc (entries_of page pams) else entries_of page pams

pub entries_of-append :
    (q page v : ℕ) (pams : List (ℕ × ℕ))
    → entries_of q (pams ++ ((page, v) ∷ [])) ≡ entries_of q pams + (if page == q then 1 else 0)
entries_of-append q page v [] = ground arith
entries_of-append q page v (pam ∷ pams) = ground (arith, entries_of-append q page v pams)

pub find_page-append :
    (page v : ℕ) (pams : List (ℕ × ℕ))
    → entries_of page pams ≡ 0
    → find_page page (pams ++ ((page, v) ∷ [])) ≡ v
unfolding find_page
find_page-append page v [] new = ground (arith, ==_self page)
find_page-append page v (pam ∷ pams) new = elim (==-cases (pam.0) page) [
  | inl (e, _) ↦ absurd (ground (arith, new))
  | inr (e, _) ↦ rw e (find_page-append page v pams (ground (arith, new)))
]

pub find_page-append_ne :
    (q page v : ℕ) (pams : List (ℕ × ℕ))
    → (page == q) ≡ false
    → find_page q (pams ++ ((page, v) ∷ [])) ≡ find_page q pams
unfolding find_page
find_page-append_ne q page v [] differ = rw differ refl
find_page-append_ne q page v (pam ∷ pams) differ = elim (==-cases (pam.0) q) [
  | inl (e, _) ↦ rw e refl
  | inr (e, _) ↦ rw e (find_page-append_ne q page v pams differ)
]

pub find_page-absent :
    (page : ℕ) (pams : List (ℕ × ℕ)) → entries_of page pams ≡ 0 → find_page page pams ≡ 0
unfolding find_page
find_page-absent page [] new = refl
find_page-absent page (pam ∷ pams) new = elim (==-cases (pam.0) page) [
  | inl (e, _) ↦ absurd (ground (arith, new))
  | inr (e, _) ↦ rw e (find_page-absent page pams (ground (arith, new)))
]

pub remove_page-found :
    (page : ℕ) (pams : List (ℕ × ℕ)) → 0 < entries_of page pams → (remove_page page pams).0 ≡ true
unfolding remove_page
remove_page-found page [] there = absurd (omega arith)
remove_page-found page (pam ∷ pams) there = elim (==-cases (pam.0) page) [
  | inl (e, _) ↦ rw e refl
  | inr (e, _) ↦ rw e (remove_page-found page pams (ground (arith, there)))
]

pub entries_of-remove_page :
    (page : ℕ) (pams : List (ℕ × ℕ))
    → entries_of page ((remove_page page pams).1) ≡ entries_of page pams - 1
unfolding remove_page
entries_of-remove_page page [] = omega arith
entries_of-remove_page page (pam ∷ pams) = elim (==-cases (pam.0) page) [
  | inl (e, _) ↦ rw e (omega arith)
  | inr (e, _) ↦ ground (arith, e, entries_of-remove_page page pams)
]

pub entries_of-remove_page_ne :
    (q page : ℕ) (pams : List (ℕ × ℕ))
    → (page == q) ≡ false
    → entries_of q ((remove_page page pams).1) ≡ entries_of q pams
unfolding remove_page
entries_of-remove_page_ne q page [] differ = refl
entries_of-remove_page_ne q page (pam ∷ pams) differ = elim (==-cases (pam.0) page) [
  | inl (e, same) ↦ rw e (ground (arith, same, differ))
  | inr (e, _) ↦ ground (arith, e, entries_of-remove_page_ne q page pams differ)
]

pub find_page-remove_page_ne :
    (q page : ℕ) (pams : List (ℕ × ℕ))
    → (page == q) ≡ false
    → find_page q ((remove_page page pams).1) ≡ find_page q pams
unfolding remove_page find_page
find_page-remove_page_ne q page [] differ = refl
find_page-remove_page_ne q page (pam ∷ pams) differ = elim (==-cases (pam.0) page) [
  | inl (e, same) ↦ rw e (ground (arith, same, differ))
  | inr (e, _) ↦ rw e (elim (==-cases (pam.0) q) [
    | inl (e', _) ↦ rw e' refl
    | inr (e', _) ↦ rw e' (find_page-remove_page_ne q page pams differ)
  ])
]
