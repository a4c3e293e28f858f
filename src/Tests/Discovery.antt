-- ===== src/Tests/Discovery.antt =====
-- Runs of the membership service and of what a node makes of the members.
use peer_cache.Base.{
  ℕ, ◌≡◌, refl, arith, String, none, some, true, List, [], ◌∷◌, eq_string, eq_ℕ, Distinct,
}
use peer_cache.Base.Dict
use peer_cache.Base.Dict.{Dict, Unique}
use peer_cache.Types.{NodeInfo}
use peer_cache.Ring
use peer_cache.Ring.Invariant.{IsValid, init-IsValid}
use peer_cache.Directory
use peer_cache.Discovery.{
  Members, Request, register, heartbeat, members, prune, beat, on_register, on_heartbeat,
  on_members, on_deregister, serve, serve_all, listed, within, without, masters_from,
}
use peer_cache.Discovery.Liveness.{Steady-member}
use peer_cache.Node
use peer_cache.Node.{NodeRuntime, data_owner, data_owner_all}
use peer_cache.Node.Membership.{is_storage, is_member, owner-member}
use peer_cache.Tests.Ring.{program as ring, hash}

program : Unit {0}
unfolding ring prune beat on_register on_heartbeat on_members on_deregister serve serve_all listed
    within without masters_from Node.on_members Node.init Directory.init
program = tt

abbrev node : String → String → NodeInfo
node id role = record {
  node_id = id;
  control_host = id;
  control_port = 1;
  rdma_host = id;
  rdma_port = 2;
  role = role;
}

abbrev table : Members
table = ("a", (node "a" "storage", 0)) ∷ ("b", (node "b" "inference", 0)) ∷ []

table-Unique : Unique table
unfolding program
table-Unique = (refl, (refl, tt))

abbrev requests : List (ℕ × Request)
requests =
    (4, heartbeat "a")
    ∷ (8, members)
    ∷ (9, heartbeat "a")
    ∷ (14, register (node "c" "storage"))
    ∷ []

a_in : Dict.get "a" table ≡ some (node "a" "storage", 0)
unfolding program
a_in = refl

-- "a" sends a heartbeat within each five ticks, "b" none.
Steady-member_example :
    (info : NodeInfo) × (Dict.get "a" (serve_all 5 requests table) ≡ some (info, 9))
Steady-member_example =
    Steady-member 5 "a" requests 0 (node "a" "storage") table table-Unique a_in
      (omega arith, refl, (omega arith, refl, (omega arith, refl, (omega arith, refl, tt))))

b_out : Dict.get "b" (serve_all 5 requests table) ≡ none
unfolding program
b_out = refl

abbrev hosts : List String
hosts = "a" ∷ "b" ∷ []

hosts-Distinct : Distinct hosts
unfolding program
hosts-Distinct = (refl, (refl, tt))

seeds-Distinct : Distinct {A = String} ("b" ∷ [])
unfolding program
seeds-Distinct = (refl, tt)

-- A seed host that is named twice, with two ports, takes two of the master slots.
repeated_seed : masters_from ("b" ∷ "b" ∷ []) 2 hosts ≡ "b" ∷ "b" ∷ []
unfolding program
repeated_seed = refl

abbrev runtime : NodeRuntime
runtime = Node.init 1 (Directory.init (Ring.init 1) 1)

ring-IsValid : IsValid hash runtime.ring
unfolding Node.init
ring-IsValid = init-IsValid hash 1

data_ring-IsValid : IsValid hash runtime.data_ring
unfolding Node.init
data_ring-IsValid = init-IsValid hash 1

abbrev two_nodes : List NodeInfo
two_nodes = node "a" "storage" ∷ node "b" "inference" ∷ []

abbrev refreshed : NodeRuntime
refreshed = (Node.on_members hash two_nodes runtime).1

owner-member_example :
    ((data_owner hash "k" refreshed ≡ some "a") → is_storage "a" two_nodes ≡ true)
    × ((data_owner_all hash "k" refreshed ≡ some "a") → is_member "a" two_nodes ≡ true)
owner-member_example = owner-member hash two_nodes runtime ring-IsValid data_ring-IsValid "k" "a"
