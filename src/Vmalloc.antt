-- ===== src/Vmalloc.antt =====
-- The list of areas of mm/vmalloc.c, `vmlist_bs`, which divides the kernel's virtual addresses.
-- `ALIGN` and `fls` of the host kernel are parameters.
pub mod Areas
mod Tests
use biscuit_os_memory.Common.{
  ℕ, zero, suc, ◌+◌, ◌-◌, ◌*◌, ◌/◌, ◌%◌, ◌^◌, Bool, true, false, leb, ltb, ◌==◌, if◌then◌else◌,
  nonzero, List, [], ◌∷◌, Option, none, some, bit_and, Run, ok, bug_on, ◌>>=◌,
}
use biscuit_os_memory.Buddy.{word, add_word, sub_word}

-- `struct vm_struct_bs` without its pages; `size` counts the guard page behind the area.
pub record Area : Type 0 where
  pub addr : ℕ
  pub size : ℕ
  pub flags : ℕ

abbrev pub page_size : ℕ
page_size = 4096

-- `VM_IOREMAP_BS`
abbrev pub vm_ioremap : ℕ
vm_ioremap = 1

-- `PAGE_ALIGN_BS`
unfoldable pub page_align : ℕ → ℕ
page_align size = bit_and (add_word size (page_size - 1)) (word - page_size)

-- What is found for an area: the list with it, and the area.
abbrev pub Found : Type 0
Found = Option (List Area × Area)

-- The search goes on behind `tmp`.
unfoldable pub behind : Area → Found → Found
behind tmp none = none
behind tmp (some (list, area)) = some (tmp ∷ list, area)

-- The alignment of an area, from its size as given.
unfoldable pub area_align : (ℕ → ℕ) → ℕ → ℕ → ℕ
area_align fls size flags =
    if nonzero (bit_and flags vm_ioremap)
    then (if ltb 19 (fls size) then 2 ^ 19 else if ltb (fls size) 12 then 2 ^ 12 else 2 ^ fls size)
    else 1

-- The loop of `__get_vm_area_bs` from the address `addr` on, and the area put in where it ends.
unfoldable pub find_place : (ℕ → ℕ → ℕ) → ℕ → ℕ → ℕ → ℕ → List Area → ℕ → Found
find_place align_up align size flags end [] addr =
    let area : Area = record { addr = addr; size = size; flags = flags } in some (area ∷ [], area)
find_place align_up align size flags end (tmp ∷ rest) addr =
    let area : Area = record { addr = addr; size = size; flags = flags } in
    let after = align_up (add_word tmp.size tmp.addr) align in
    let later = find_place align_up align size flags end rest after in
    let same = find_place align_up align size flags end rest addr in
    if ltb tmp.addr addr
    then (if leb addr (add_word tmp.addr tmp.size) then behind tmp later else behind tmp same)
    else if ltb (add_word size addr) addr
    then none
    else if leb (add_word size addr) tmp.addr
    then some (area ∷ tmp ∷ rest, area)
    else if ltb (sub_word end size) after
    then none
    else behind tmp later

-- `__get_vm_area_bs`, where `kmalloc_bs` has memory for the descriptor.
unfoldable pub get_vm_area : (ℕ → ℕ → ℕ) → (ℕ → ℕ) → List Area → ℕ → ℕ → ℕ → ℕ → Found
get_vm_area align_up fls vmlist size flags start end =
    let align = area_align fls size flags in
    let rounded = page_align size in
    if rounded == 0
    then none
    else find_place align_up align (add_word rounded page_size) flags end vmlist
        (align_up start align)

-- `__remove_vm_area_bs`, apart from `unmap_vm_area_bs`: the first area at `addr` leaves the list, and is
-- returned without its guard page.
unfoldable pub remove_vm_area : List Area → ℕ → Found
remove_vm_area [] addr = none
remove_vm_area (tmp ∷ rest) addr =
    let later = remove_vm_area rest addr in
    if tmp.addr == addr
    then some (rest, record tmp { size = sub_word tmp.size page_size })
    else behind tmp later
