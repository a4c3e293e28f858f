-- ===== src/Types.antt =====
-- python/peercache/types.py: the records that the control plane exchanges.
use peer_cache.Base.{ℕ, String, Bool, List, [], ◌∷◌}
use peer_cache.Base.Text.{join, str}

pub record DataLocation : Type 0 where
  pub node_id : String
  pub rdma_endpoint : String
  pub remote_addr : ℕ
  pub rkey : ℕ
  pub length : ℕ
  pub resident : Bool
  pub rail_endpoints : List String
  pub rail_rkeys : List ℕ

-- `self.rail_endpoints or [self.rdma_endpoint]`
unfoldable pub endpoints : DataLocation → List String
endpoints l = elim l.rail_endpoints [ [] ↦ l.rdma_endpoint ∷ [] | e ∷ es ↦ e ∷ es ]

unfoldable pub rkeys : DataLocation → List ℕ
rkeys l = elim l.rail_rkeys [ [] ↦ l.rkey ∷ [] | k ∷ ks ↦ k ∷ ks ]

pub record NodeInfo : Type 0 where
  pub node_id : String
  pub control_host : String
  pub control_port : ℕ
  pub rdma_host : String
  pub rdma_port : ℕ
  pub role : String

unfoldable pub rdma_endpoint : NodeInfo → String
rdma_endpoint n = join n.rdma_host (join ":" (str n.rdma_port))

unfoldable pub control_endpoint : NodeInfo → String
control_endpoint n = join n.control_host (join ":" (str n.control_port))
