-- ===== src/Node/Membership.antt =====
-- The rings follow the members.
use peer_cache.Base.{
  ℕ, ◌≡◌, refl, sym, ap, ◌∙◌, arith, String, some, Bool, true, false, List, [], ◌∷◌, ◌==◌,
  eq_string, elem, any, ◌&&◌, ◌||◌,
}
use peer_cache.Types.{NodeInfo}
use peer_cache.Ring.{Ring, set_nodes, same_set, to_set}
use peer_cache.Ring.Invariant.{IsValid, set_nodes-IsValid}
use peer_cache.Ring.Routing.{get_node_iff}
use peer_cache.Ring.Agreement.{elem-set_nodes}
use peer_cache.Directory.{set_ring}
use peer_cache.Node.{
  NodeRuntime, all_ids, storage_ids, on_members, owner_on, data_owner, data_owner_all,
}

-- Some member has the id, and is a storage node.
abbrev pub is_storage : String → List NodeInfo → Bool
is_storage n members = any (λ m. m.node_id == n && m.role == "storage") members

abbrev pub is_member : String → List NodeInfo → Bool
is_member n members = any (λ m. m.node_id == n) members

elem-all_ids :
    (n : String) (members : List NodeInfo) → elem n (all_ids members) ≡ is_member n members
unfolding all_ids
elem-all_ids n [] = refl
elem-all_ids n (m ∷ ms) = ap (λ b. m.node_id == n || b) (elem-all_ids n ms)

elem-storage_ids :
    (n : String) (members : List NodeInfo) → elem n (storage_ids members) ≡ is_storage n members
unfolding storage_ids
elem-storage_ids n [] = refl
elem-storage_ids n (m ∷ ms) = ground (arith, elem-storage_ids n ms)

module _ (hash : String → ℕ) where
  owner_on-member :
      (ring : Ring) (key n : String) (nodes : List String)
      → IsValid hash ring
      → owner_on hash ring key nodes ≡ some n
      → elem n ring.nodes ≡ true
  unfolding owner_on
  owner_on-member ring key n [] v h = absurd (cc)
  owner_on-member ring key n (x ∷ xs) v h =
      let owns = (get_node_iff hash key ring n v).0 h in v.owned owns.position n owns.owner

  module _ (members : List NodeInfo) (r : NodeRuntime) (valid : IsValid hash r.ring)
      (valid_data : IsValid hash r.data_ring) where
    abbrev now : NodeRuntime
    now = (on_members hash members r).1

    -- After a refresh with valid rings, both rings are valid and have exactly the members and
    -- the storage members as nodes, and the directory routes by the ring of all members.
    on_members_lem :
        IsValid hash now.ring
        × IsValid hash now.data_ring
        × ((n : String) → elem n now.ring.nodes ≡ is_member n members)
        × ((n : String) → elem n now.data_ring.nodes ≡ is_storage n members)
        × (now.directory.ring ≡ now.ring)
    unfolding on_members set_ring
    on_members_lem = (
      set_nodes-IsValid hash (all_ids members) valid,
      set_nodes-IsValid hash (storage_ids members) valid_data,
      (λ n. elem-set_nodes hash (all_ids members) r.ring n ∙ elem-all_ids n members),
      (λ n. elem-set_nodes hash (storage_ids members) r.data_ring n ∙ elem-storage_ids n members),
      refl,
    )

    -- With valid rings, a key is given after a refresh to a storage member by `data_owner`, and to
    -- a member by `data_owner_all`, where they give it to a node.
    pub owner-member :
        (key n : String)
        → ((data_owner hash key now ≡ some n) → is_storage n members ≡ true)
          × ((data_owner_all hash key now ≡ some n) → is_member n members ≡ true)
    unfolding data_owner data_owner_all
    owner-member key n =
        let (v, vd, all, storage, d) = on_members_lem in
        (
          (λ h. sym (storage n) ∙ owner_on-member now.data_ring key n now.data_ring.nodes vd h),
          λ h. sym (all n) ∙ owner_on-member now.ring key n now.ring.nodes v h,
        )

    -- Where the listeners are not called, no ring has changed.
    pub unchanged :
        (on_members hash members r).0 ≡ false → (now.ring ≡ r.ring) × (now.data_ring ≡ r.data_ring)
    unfolding on_members set_nodes
    unchanged h =
        let same : same_set (to_set (all_ids members)) r.ring.nodes ≡ true = ground arith in
        let same_data : same_set (to_set (storage_ids members)) r.data_ring.nodes ≡ true =
          ground arith in
        (rw same refl, rw same_data refl)
