-- ===== src/Slab/Object.antt =====
-- What mm/slab.c does with one slab: the chain of its free objects, and the take and the return of one.
use biscuit_os_memory.Common.{ℕ, zero, suc, ◌+◌, ◌*◌, ◌/◌, ltb, if◌then◌else◌, update}
use biscuit_os_memory.Slab.{Slab, ArrayCache, bufctl_end, minus}

-- The loop of `cache_init_objs_bs` from object `i` on, with `rounds` objects to come.
unfoldable pub init_chain : ℕ → ℕ → (ℕ → ℕ) → ℕ → ℕ
init_chain zero i bufctl = bufctl
init_chain (suc rounds) i bufctl = init_chain rounds (i + 1) (update bufctl i (i + 1))

-- What `cache_init_objs_bs` leaves in the descriptor: each object names the next one, the last none.
unfoldable pub init_objs : ℕ → Slab → Slab
init_objs num slab = record slab {
  bufctl = update (init_chain num 0 slab.bufctl) (minus num 1) bufctl_end;
  free = 0;
}

-- The constructor calls of `cache_init_objs_bs`, and with `dtor` those of `slab_destroy_bs`: one for
-- each object from `i` on.
unfoldable pub visit_objs {ℓ} : {S : Type ℓ} → ℕ → ℕ → ℕ → ℕ → (ℕ → S → S) → S → S
visit_objs zero i s_mem size f s = s
visit_objs (suc rounds) i s_mem size f s =
    visit_objs rounds (i + 1) s_mem size f (f (s_mem + size * i) s)

-- The body of the inner loop of `cache_alloc_refill_bs`: the object at the head of the chain.
unfoldable pub object_at : ℕ → Slab → ℕ → ℕ
object_at size slab objnr = slab.s_mem + objnr * size

unfoldable pub take_object : Slab → Slab
take_object slab = record slab { inuse = slab.inuse + 1; free = slab.bufctl slab.free }

unfoldable pub push_entry : ArrayCache → ℕ → ArrayCache
push_entry ac objp = record ac { avail = ac.avail + 1; entry = update ac.entry ac.avail objp }

-- The inner loop of `cache_alloc_refill_bs`. The count that it leaves is that of `batchcount`, but for
-- the -1 there that ends the outer loop as 0 does.
unfoldable pub take_objects : ℕ → ℕ → ℕ → Slab → ArrayCache → ℕ × (Slab × ArrayCache)
take_objects zero num size slab ac = (zero, (slab, ac))
take_objects (suc batchcount) num size slab ac =
    let rest =
      take_objects batchcount num size (take_object slab)
        (push_entry ac (object_at size slab slab.free)) in
    if ltb slab.inuse num then rest else (suc batchcount, (slab, ac))

-- The number of an object of `free_block_bs`, and the return of it to its slab.
unfoldable pub object_number : ℕ → Slab → ℕ → ℕ
object_number size slab objp = minus objp slab.s_mem / size

unfoldable pub put_object : Slab → ℕ → Slab
put_object slab objnr = record slab {
  bufctl = update slab.bufctl objnr slab.free;
  free = objnr;
  inuse = minus slab.inuse 1;
}
