-- ===== src/Bootmem/Nodes.antt =====
-- What `__alloc_bootmem_bs` of mm/bootmem.c does with several nodes.
use biscuit_os_memory.Common.{
  ℕ, ◌+◌, ◌%◌, ◌^◌, ◌<◌, ◌≤◌, ◌≡◌, refl, Bool, Option, none, some, List, [], ◌∷◌, Run, ok, bug,
  ◌>>=◌, Returns, returns,
}
use biscuit_os_memory.Buddy.{word}
use biscuit_os_memory.Vmalloc.{page_size}
use biscuit_os_memory.Vmalloc.Areas.{RoundsUp}
use biscuit_os_memory.Bootmem.{Bootmem}
use biscuit_os_memory.Bootmem.Search.{pages_of, alloc_bootmem_core, alloc_bootmem, else_nodes}
use biscuit_os_memory.Bootmem.Found.{FindsZero, Blocked}
use biscuit_os_memory.Bootmem.Placed.{node_pages, page_step, Ready}
use biscuit_os_memory.Bootmem.Alloc.{Given, Outcome, refused, granted, alloc_bootmem_core-Outcome}

-- No node has the pages at a place where the search looks.
abbrev pub NoRoom : ℕ → ℕ → Bootmem → Type 0
NoRoom size align b =
    align ≤ page_size
    → (s : ℕ) → s + pages_of size ≤ node_pages b
    → (p : ℕ) × Blocked b.node_bootmem_map s (pages_of size) p

abbrev pub All : (Bootmem → Type 0) → List Bootmem → Type 0
All P [] = Unit {0}
All P (b ∷ bs) = P b × All P bs

-- One node gives a buffer, where `core` is the call for a node: each node before it has given none and
-- is as it was, and those after it are.
pub data GivenIn (core : Bootmem → Run (Option ℕ × Bootmem)) (size align ret : ℕ)
    : List Bootmem → List Bootmem → Type 0 where
  here :
      {b b' : Bootmem} {bs : List Bootmem}
      → core b ≡ ok (some ret, b')
      → Given b size align ret b'
      → GivenIn core size align ret (b ∷ bs) (b' ∷ bs)
  later :
      {b : Bootmem} {bs bs' : List Bootmem}
      → core b ≡ ok (none, b)
      → NoRoom size align b
      → GivenIn core size align ret bs bs'
      → GivenIn core size align ret (b ∷ bs) (b ∷ bs')

pub data Served (core : Bootmem → Run (Option ℕ × Bootmem)) (size align : ℕ) (nodes : List Bootmem)
    : Run (ℕ × List Bootmem) → Type 0 where
  served :
      {ret : ℕ} {nodes' : List Bootmem}
      → GivenIn core size align ret nodes nodes'
      → Served core size align nodes (ok (ret, nodes'))
  out_of_memory :
      All (λ b. (core b ≡ ok (none, b)) × NoRoom size align b) nodes
      → Served core size align nodes bug

module _ (align_up : ℕ → ℕ → ℕ) (find : (ℕ → Bool) → ℕ → ℕ → ℕ) (size k goal : ℕ)
    (zeros : FindsZero find) (lt : k < 32) (some_size : 0 < size)
    (small : size + page_size ≤ word) where
  -- A node whose start has the alignment
  pub record Suits (b : Bootmem) : Type 0 where
    pub ready : Ready b
    pub base : b.node_boot_start % 2 ^ k ≡ 0
    pub up :
        RoundsUp align_up (page_step (2 ^ k)) (node_pages b + pages_of size + page_step (2 ^ k))

  abbrev core : Bootmem → Run (Option ℕ × Bootmem)
  core b = alloc_bootmem_core align_up find b size (2 ^ k) goal

  behind_node :
      {b : Bootmem} {bs : List Bootmem} {m : Run (ℕ × List Bootmem)}
      → core b ≡ ok (none, b)
      → NoRoom size (2 ^ k) b
      → Served core size (2 ^ k) bs m
      → Served core size (2 ^ k) (b ∷ bs) (m >>= λ r. ok (r.0, b ∷ r.1))
  behind_node e full (served g) = served (later e full g)
  behind_node e full (out_of_memory all) = out_of_memory ((e, full), all)

  after_node :
      {b : Bootmem} {bs : List Bootmem} {r : Option ℕ × Bootmem} {m : Run (ℕ × List Bootmem)}
      → core b ≡ ok r
      → Outcome b size (2 ^ k) r
      → Served core size (2 ^ k) bs m
      → Served core size (2 ^ k) (b ∷ bs) (else_nodes bs m r)
  unfolding else_nodes
  after_node e (refused full) later_nodes = behind_node e full later_nodes
  after_node e (granted g) later_nodes = served (here e g)

  after_core :
      {b : Bootmem} {bs : List Bootmem} {c : Run (Option ℕ × Bootmem)} {m : Run (ℕ × List Bootmem)}
      → core b ≡ c
      → Returns (Outcome b size (2 ^ k)) c
      → Served core size (2 ^ k) bs m
      → Served core size (2 ^ k) (b ∷ bs) (c >>= else_nodes bs m)
  after_core e (returns o) later_nodes = after_node e o later_nodes

  -- For nodes in order whose starts have the alignment, a power of two below 2^32, and a size of
  -- one byte or more with a page left below 2^32, where ALIGN and find_next_zero_bit do what they
  -- say: the buffer is what __alloc_bootmem_core_bs gives for the first node for which it gives
  -- one, it has returned none for each node before, and all others stay as they are; or the call
  -- panics, and it has returned none for every node. A node that gives none has, if the alignment
  -- is at most a page, no run of enough free pages.
  pub alloc_bootmem-Served :
      (nodes : List Bootmem)
      → All Suits nodes
      → Served
          (λ b. alloc_bootmem_core align_up find b size (2 ^ k) goal)
          size
          (2 ^ k)
          nodes
          (alloc_bootmem align_up find nodes size (2 ^ k) goal)
  unfolding alloc_bootmem
  alloc_bootmem-Served [] all = out_of_memory tt
  alloc_bootmem-Served (b ∷ bs) (s, all) =
      after_core refl
        (alloc_bootmem_core-Outcome b size k lt s.ready some_size small s.base align_up find goal
          zeros s.up)
        (alloc_bootmem-Served bs all)
