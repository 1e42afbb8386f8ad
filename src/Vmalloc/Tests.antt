-- ===== src/Vmalloc/Tests.antt =====
-- The theorems on areas, applied to a list of two. `ALIGN` is rounding up here, and `fls` is not asked.
use biscuit_os_memory.Common.{ℕ, ◌+◌, ◌-◌, ◌*◌, ◌/◌, ◌≡◌, refl, arith, [], ◌∷◌, some}
use biscuit_os_memory.Vmalloc.{
  Area, get_vm_area, remove_vm_area, find_place, behind, area_align, page_align,
}
use biscuit_os_memory.Vmalloc.Areas.{
  Apart, last, more, Outcome, here, there, get_vm_area-Outcome, remove_vm_area-Inserted,
}

abbrev round_up : ℕ → ℕ → ℕ
round_up x a = (x + a - 1) / a * a

abbrev no_fls : ℕ → ℕ
no_fls size = 0

abbrev first : Area
first = record { addr = 0x1000; size = 0x2000; flags = 2 }

abbrev second : Area
second = record { addr = 0x8000; size = 0x3000; flags = 2 }

abbrev between : Area
between = record { addr = 0x3000; size = 0x3000; flags = 2 }

two-Apart : Apart 0x10000 0x1000 (first ∷ second ∷ [])
two-Apart =
    more (omega arith) (omega arith) (omega arith)
      (more (omega arith) (omega arith) (omega arith) last)

three-Apart : Apart 0x10000 0x1000 (first ∷ between ∷ second ∷ [])
three-Apart = more (omega arith) (omega arith) (omega arith) (
    more (omega arith) (omega arith) (omega arith)
      (more (omega arith) (omega arith) (omega arith) last))

-- 5000 bytes are two pages and the guard page.
test-between :
    get_vm_area round_up no_fls (first ∷ second ∷ []) 5000 2 0x1000 0x10000
    ≡ some (first ∷ between ∷ second ∷ [], between)
unfolding get_vm_area find_place behind area_align page_align
test-between = refl

-- Behind the last area nothing is compared with the end of the region.
test-past_the_end :
    get_vm_area round_up no_fls (second ∷ []) 0x4000 2 0x9000 0xc000
    ≡ some (
      second ∷ record { addr = 0xb000; size = 0x5000; flags = 2 } ∷ [],
      record { addr = 0xb000; size = 0x5000; flags = 2 },
    )
unfolding get_vm_area find_place behind area_align page_align
test-past_the_end = refl

get_vm_area-Outcome_example :
    Outcome 0x13001 0x1000 0x1000 1 0x3000
      (first ∷ second ∷ [])
      (get_vm_area round_up no_fls (first ∷ second ∷ []) 5000 2 0x1000 0x10000)
unfolding area_align page_align
get_vm_area-Outcome_example =
    get_vm_area-Outcome round_up no_fls (first ∷ second ∷ []) 0x1000 5000 2 0x1000 0x10000 0x10000
      (λ x h. (omega arith, omega arith, omega arith)) (omega arith) (omega arith) (omega arith)
      two-Apart

remove_vm_area-Inserted_example :
    remove_vm_area (first ∷ between ∷ second ∷ []) 0x3000
    ≡ some (first ∷ second ∷ [], record between { size = 0x2000 })
remove_vm_area-Inserted_example = remove_vm_area-Inserted between three-Apart (there here)
