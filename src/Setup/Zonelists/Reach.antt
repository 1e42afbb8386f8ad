-- ===== src/Setup/Zonelists/Reach.antt =====
-- Which zones a list of zones has.
use biscuit_os_memory.Common.{
  ℕ, zero, suc, ◌+◌, ◌-◌, ◌*◌, ◌/◌, ◌<◌, ◌≡◌, sym, ◌∙◌, arith, inl, inr, Bool, ltb, leb, ◌&&◌, ◌||◌,
  ap, ◌==◌, ==-cases, ==_self, Bool-cases, if◌then◌else◌, nonzero, List, [], occurs, occurs-append,
}
use biscuit_os_memory.Fallback.{max_nr_zones, zone_idx}
use biscuit_os_memory.Setup.Zonelists.{
  add_zone, build_zonelists_node, add_nodes, highest_zone, build_zonelist,
}

-- A zone with pages that is no higher than zone `k`
unfoldable pub serves : (ℕ → ℕ) → ℕ → ℕ → Bool
serves present_pages k z = nonzero (present_pages z) && leb (zone_idx z) k

module _ (present_pages : ℕ → ℕ) (k : ℕ) (high : k < max_nr_zones) where
  occurs-add_zone :
      (zone z : ℕ) (rest : List ℕ)
      → occurs z (add_zone present_pages zone rest)
        ≡ (if zone == z && nonzero (present_pages z) then 1 else 0) + occurs z rest
  unfolding add_zone
  occurs-add_zone zone z rest = elim (==-cases zone z) [
    | inl (_, e) ↦ rw (sym e) (ground (arith, ==_self zone))
    | inr (e, _) ↦ rw e (ground (arith, e))
  ]

  occurs-node :
      (node z : ℕ)
      → occurs z (build_zonelists_node present_pages node k)
        ≡ (if z / max_nr_zones == node && serves present_pages k z then 1 else 0)
  unfolding build_zonelists_node serves
  occurs-node node z =
      let dma = add_zone present_pages (node * max_nr_zones) [] in
      let normal = add_zone present_pages (node * max_nr_zones + 1) dma in
      ground (
        arith,
        high,
        occurs-add_zone (node * max_nr_zones) z [],
        occurs-add_zone (node * max_nr_zones + 1) z dma,
        occurs-add_zone (node * max_nr_zones + 2) z normal,
      )

  occurs-add_nodes :
      (online : ℕ → Bool) (rounds node z : ℕ)
      → occurs z (add_nodes online present_pages k rounds node) ≡ (
          if leb node (z / max_nr_zones)
            && ltb (z / max_nr_zones) (node + rounds)
            && online (z / max_nr_zones)
            && serves present_pages k z
          then 1
          else 0)
  unfolding add_nodes
  occurs-add_nodes online zero node z = ground arith
  occurs-add_nodes online (suc rounds) node z = elim (Bool-cases (online node)) [
    | inl e ↦
        rw
          (
            e,
            occurs-append z (build_zonelists_node present_pages node k)
                (add_nodes online present_pages k rounds (node + 1)),
            occurs-node node z,
            occurs-add_nodes online rounds (node + 1) z,
          )
          (elim (==-cases (z / max_nr_zones) node) [
            | inl (_, e') ↦ rw (e', e) (ground arith)
            | inr (t, differ) ↦ rw t (ground (arith, differ))
          ])
    | inr e ↦
        rw (e, occurs-add_nodes online rounds (node + 1) z)
          (elim (==-cases (z / max_nr_zones) node) [
            | inl (_, e') ↦ rw (e', e) (ground arith)
            | inr (_, differ) ↦ ground (arith, differ)
          ])
  ]

-- The type of a request is the low bits of its flags.
highest_zone-lt : (i : ℕ) → highest_zone i < max_nr_zones
unfolding highest_zone
highest_zone-lt i = ground arith

-- For a local node below the number of nodes: a zone is in the list of zones for a type of
-- request exactly once if it has pages, is no higher than the highest zone of the type, and its
-- node is the local one or another one that is online and below the number of nodes; any other
-- zone is not in it.
pub build_zonelist-occurs :
    (max_nodes : ℕ) (online : ℕ → Bool) (present_pages : ℕ → ℕ) (local_node i z : ℕ)
    → local_node < max_nodes
    → occurs z (build_zonelist max_nodes online present_pages local_node i) ≡ (
        if serves present_pages (highest_zone i) z
          && ltb (z / max_nr_zones) max_nodes
          && (z / max_nr_zones == local_node || online (z / max_nr_zones))
        then 1
        else 0)
unfolding build_zonelist
build_zonelist-occurs max_nodes online present_pages local_node i z lt =
    occurs-append z (build_zonelists_node present_pages local_node k) _
    ∙ ap (λ n. occurs z (build_zonelists_node present_pages local_node k) + n)
        (occurs-append z
          (add_nodes online present_pages k (max_nodes - (local_node + 1)) (local_node + 1))
          (add_nodes online present_pages k local_node 0))
    ∙ rw
        (
          occurs-node present_pages k (highest_zone-lt i) local_node z,
          occurs-add_nodes present_pages k (highest_zone-lt i) online (max_nodes - (local_node + 1))
              (local_node + 1) z,
          occurs-add_nodes present_pages k (highest_zone-lt i) online local_node 0 z,
        )
        (elim (Bool-cases (online (z / max_nr_zones))) [
          | inl e ↦ rw e (ground (arith, lt))
          | inr e ↦ rw e (ground (arith, lt))
        ])
  where
    k : ℕ
    k = highest_zone i
