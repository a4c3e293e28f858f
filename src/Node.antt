-- ===== src/Node.antt =====
-- python/peercache/server.py: the rings of `NodeRuntime` and what it does with the members.
pub mod Membership
use peer_cache.Base.{
  ℕ, String, Option, none, some, Bool, true, false, not, List, [], ◌∷◌, map, ◌==◌, eq_string, ◌||◌,
  if◌then◌else◌,
}
use peer_cache.Types.{NodeInfo}
use peer_cache.Ring
use peer_cache.Ring.{Ring, same_set, to_set, set_nodes, get_node}
use peer_cache.Directory.{Client, set_ring}

pub record NodeRuntime : Type 0 where
  pub ring : Ring
  -- the storage nodes alone
  pub data_ring : Ring
  pub directory : Client

unfoldable pub init : ℕ → Client → NodeRuntime
init vnodes directory = record {
  ring = Ring.init vnodes;
  data_ring = Ring.init vnodes;
  directory = directory;
}

unfoldable pub all_ids : List NodeInfo → List String
all_ids members = map (λ m. m.node_id) members

unfoldable pub storage_ids : List NodeInfo → List String
storage_ids [] = []
storage_ids (m ∷ ms) =
    let rest = storage_ids ms in if m.role == "storage" then m.node_id ∷ rest else rest

module _ (hash : String → ℕ) where
  -- The Boolean is `changed`: whether the member listeners are called.
  unfoldable pub on_members : List NodeInfo → NodeRuntime → Bool × NodeRuntime
  unfolding all_ids storage_ids
  on_members members r =
      let ids = all_ids members in
      let storage = storage_ids members in
      let changed =
        not (same_set (to_set ids) r.ring.nodes)
        || not (same_set (to_set storage) r.data_ring.nodes) in
      let ring = set_nodes hash ids r.ring in
      (
        changed,
        record {
          ring = ring;
          data_ring = set_nodes hash storage r.data_ring;
          directory = set_ring ring r.directory;
        },
      )

  -- `if not ring.nodes: return None`
  unfoldable pub owner_on : Ring → String → List String → Option String
  owner_on ring key [] = none
  owner_on ring key (_ ∷ _) = get_node hash ring key

  unfoldable pub data_owner : String → NodeRuntime → Option String
  unfolding owner_on
  data_owner key r = owner_on r.data_ring key r.data_ring.nodes

  unfoldable pub data_owner_all : String → NodeRuntime → Option String
  unfolding owner_on
  data_owner_all key r = owner_on r.ring key r.ring.nodes

unfoldable pub storage_nodes : NodeRuntime → List String
storage_nodes r = r.data_ring.nodes
