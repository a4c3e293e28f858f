-- ===== src/Discovery.antt =====
-- python/peercache/discovery.py: the membership table of `DiscoveryServer`, and what
-- `DiscoveryClient` derives from the members. `now` is `time.time()` at the call, in ticks.
pub mod Liveness
pub mod Masters
use peer_cache.Base.{
  ℕ, zero, suc, ◌+◌, max, String, Option, none, some, Bool, true, false, not, List, [], ◌∷◌, ◌++◌,
  map, take, ltb, ◌==◌, eq_string, elem, if◌then◌else◌,
}
use peer_cache.Base.Dict
use peer_cache.Base.Dict.{Dict, values}
use peer_cache.Base.Text.{join, str}
use peer_cache.Types.{NodeInfo, rdma_endpoint, control_endpoint}

-- `_members`: node id -> (node, time of its last sign of life)
abbrev pub Members : Type 0
Members = Dict String (NodeInfo × ℕ)

-- `self._members.pop(nid)` for each node that was silent for more than the TTL
unfoldable pub prune : ℕ → ℕ → Members → Members
prune ttl now [] = []
prune ttl now ((nid, (info, ts)) ∷ rest) =
    let kept = prune ttl now rest in if ltb (ts + ttl) now then kept else (nid, (info, ts)) ∷ kept

unfoldable pub listed : Members → List NodeInfo
listed members = map (λ e. e.1.0) members

unfoldable pub on_register : ℕ → ℕ → NodeInfo → Members → List NodeInfo × Members
on_register ttl now info members =
    let members' = prune ttl now (Dict.put info.node_id (info, now) members) in
    (listed members', members')

-- `entry = self._members.get(node_id)`; a known node is seen now.
unfoldable pub beat : ℕ → String → Option (NodeInfo × ℕ) → Members → Bool × Members
beat now node_id none members = (false, members)
beat now node_id (some entry) members = (true, Dict.put node_id (entry.0, now) members)

unfoldable pub on_heartbeat : ℕ → ℕ → String → Members → Bool × Members
unfolding beat
on_heartbeat ttl now node_id members =
    let (known, members') = beat now node_id (Dict.get node_id members) members in
    (known, prune ttl now members')

unfoldable pub on_members : ℕ → ℕ → Members → List NodeInfo × Members
on_members ttl now members = let members' = prune ttl now members in (listed members', members')

unfoldable pub on_deregister : String → Members → Members
on_deregister nid members = Dict.remove nid members

-- The calls that a server gets, each with its time.
pub data Request : Type 0 where
  register : NodeInfo → Request
  heartbeat : String → Request
  members : Request
  deregister : String → Request

unfoldable pub serve : ℕ → ℕ → Request → Members → Members
unfolding on_register on_heartbeat on_members on_deregister
serve ttl now (register info) table = (on_register ttl now info table).1
serve ttl now (heartbeat node_id) table = (on_heartbeat ttl now node_id table).1
serve ttl now members table = (on_members ttl now table).1
serve ttl now (deregister node_id) table = on_deregister node_id table

unfoldable pub serve_all : ℕ → List (ℕ × Request) → Members → Members
serve_all ttl [] table = table
serve_all ttl ((now, request) ∷ rest) table = serve_all ttl rest (serve ttl now request table)

-- `control_of` and `endpoint_of` of the client, on its copy of the members.
unfoldable pub control_of : String → Dict String NodeInfo → Option String
control_of node_id known = elim (Dict.get node_id known) [
  | none ↦ none
  | some info ↦ some (control_endpoint info)
]

unfoldable pub endpoint_of : String → Dict String NodeInfo → Option String
endpoint_of node_id known = elim (Dict.get node_id known) [
  | none ↦ none
  | some info ↦ some (rdma_endpoint info)
]

-- `[h for h in xs if h in ys]`
unfoldable pub within : List String → List String → List String
within ys [] = []
within ys (x ∷ xs) = let rest = within ys xs in if elem x ys then x ∷ rest else rest

-- `[h for h in xs if h not in ys]`
unfoldable pub without : List String → List String → List String
without ys [] = []
without ys (x ∷ xs) = let rest = without ys xs in if elem x ys then rest else x ∷ rest

-- The argument is the sorted hosts of the members, each once.
unfoldable pub masters_from : List String → ℕ → List String → List String
unfolding within without
masters_from seed_hosts max_masters member_hosts =
    let heads = within member_hosts seed_hosts in
    take max_masters (heads ++ without heads member_hosts)

-- `list(dict.fromkeys(xs))`: the first of each.
unfoldable pub first_of_each : List String → List String → List String
first_of_each seen [] = []
first_of_each seen (x ∷ xs) =
    let rest = first_of_each (x ∷ seen) xs in
    let others = first_of_each seen xs in if elem x seen then others else x ∷ rest

unfoldable pub targets : List String → List String → ℕ → ℕ → List String → List String
unfolding masters_from first_of_each
targets seeds seed_hosts meta_port max_masters member_hosts = first_of_each [] (
    seeds
    ++ map (λ h. join h (join ":" (str meta_port)))
        (masters_from seed_hosts max_masters member_hosts))

-- `for m in members: merged[m["node_id"]] = m`
unfoldable pub merge : List NodeInfo → Dict String NodeInfo → Dict String NodeInfo
merge [] merged = merged
merge (m ∷ ms) merged = merge ms (Dict.put m.node_id m merged)
