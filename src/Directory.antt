-- ===== src/Directory.antt =====
-- python/peercache/directory.py: the directory shards (`DirectoryServer`) and the client that
-- routes to them (`DirectoryClient`).
-- The network of python/peercache/rpc.py is the parameter `link`: during one operation a call to
-- an endpoint is answered, fails before it is served, or is served and its reply is lost. The two
-- last raise in the client. `resolve` is `DiscoveryClient.control_of`, `hash` the ring's `_hash`.
pub mod Reach
pub mod Put
pub mod Publish
pub mod Delete
pub mod Fetch
pub mod Lookup
pub mod Owners
pub mod RoundTrip
use peer_cache.Base.{
  ℕ, ◌≡◌, max, String, Option, none, some, Bool, true, false, List, [], ◌∷◌, ◌++◌, map, ltb, ◌==◌,
  eq_ℕ, eq_string, if◌then◌else◌, length,
}
use peer_cache.Base.Dict
use peer_cache.Base.Dict.{Dict}
use peer_cache.Types.{DataLocation}
use peer_cache.Ring.{Ring, get_node, get_nodes}

abbrev pub Shard : Type 0
Shard = Dict String DataLocation

-- `dict.update`
unfoldable pub update : Dict String DataLocation → Shard → Shard
update [] s = s
update ((k, l) ∷ entries) s = update entries (Dict.put k l s)

unfoldable pub on_put : Dict String DataLocation → Shard → Shard
unfolding update
on_put entries s = update entries s

unfoldable pub on_get : List String → Shard → List (Option DataLocation)
on_get keys s = map (λ k. Dict.get k s) keys

unfoldable pub on_exists : List String → Shard → List Bool
on_exists keys s = map (λ k. Dict.has k s) keys

unfoldable pub on_delete : List String → Shard → Shard
on_delete [] s = s
on_delete (k ∷ keys) s = on_delete keys (Dict.remove k s)

-- The shard behind each control endpoint.
abbrev pub Shards : Type 0
Shards = String → Shard

abbrev pub set_shard : Shards → String → Shard → Shards
set_shard s ep shard ep' = if ep == ep' then shard else s ep'

pub data Link : Type 0 where
  up down lost : Link

-- A call that changes the shard: what the client sees of it is nothing but the effect.
unfoldable pub send : (String → Link) → String → (Shard → Shard) → Shards → Shards
send link ep f s = elim (link ep) [
  | up ↦ set_shard s ep (f (s ep))
  | lost ↦ set_shard s ep (f (s ep))
  | down ↦ s
]

-- A call that reads the shard; `none` is an exception.
unfoldable pub ask {ℓ} : {A : Type ℓ} → (String → Link) → String → (Shard → A) → Shards → Option A
ask link ep f s = elim (link ep) [ up ↦ some (f (s ep)) | lost ↦ none | down ↦ none ]

pub record Client : Type 0 where
  pub ring : Ring
  pub replicas : ℕ

unfoldable pub init : Ring → ℕ → Client
init ring replicas = record { ring = ring; replicas = max 1 replicas }

unfoldable pub set_ring : Ring → Client → Client
set_ring ring c = record c { ring = ring }

-- `groups.setdefault(owner, []).append(k)`
unfoldable pub add_to_group :
    String → String → Dict String (List String) → Dict String (List String)
add_to_group owner k groups = Dict.put owner (Dict.get_or owner groups [] ++ k ∷ []) groups

-- `per_node.setdefault(owner, {})[key] = loc`
unfoldable pub add_entry :
    String
    → String
    → DataLocation
    → Dict String (Dict String DataLocation)
    → Dict String (Dict String DataLocation)
add_entry owner k l per_node =
    Dict.put owner (Dict.put k l (Dict.get_or owner per_node [])) per_node

-- `for k, loc in zip(group, locs): result[k] = loc`
unfoldable pub write_results {ℓ} :
    {A : Type ℓ} → List String → List A → Dict String A → Dict String A
write_results (k ∷ ks) (a ∷ as') d = write_results ks as' (Dict.put k a d)
write_results _ _ d = d

-- `[result[k] for k in keys]`
unfoldable pub read_results {ℓ} : {A : Type ℓ} → A → List String → Dict String A → List A
read_results default keys d = map (λ k. Dict.get_or k d default) keys

-- `{k: default for k in keys}`
unfoldable pub start_results {ℓ} : {A : Type ℓ} → A → List String → Dict String A → Dict String A
start_results default [] d = d
start_results default (k ∷ keys) d = start_results default keys (Dict.put k default d)

-- `[node] if node else []`: an empty name counts as none.
unfoldable pub first_owner : List String → Option String
first_owner [] = none
first_owner (owner ∷ _) = some owner

unfoldable pub one_owner : Option String → List String
one_owner none = []
one_owner (some node) = if node == "" then [] else node ∷ []

-- `if not owners: continue`, else into the group of the primary owner.
unfoldable pub group_key :
    String → Option String → Dict String (List String) → Dict String (List String)
group_key k none groups = groups
group_key k (some owner) groups = add_to_group owner k groups

unfoldable pub add_entries :
    List String
    → String
    → DataLocation
    → Dict String (Dict String DataLocation)
    → Dict String (Dict String DataLocation)
add_entries [] k l per_node = per_node
add_entries (owner ∷ rest) k l per_node = add_entries rest k l (add_entry owner k l per_node)

unfoldable pub add_to_groups :
    List String → String → Dict String (List String) → Dict String (List String)
add_to_groups [] k groups = groups
add_to_groups (owner ∷ rest) k groups = add_to_groups rest k (add_to_group owner k groups)

module _ (hash : String → ℕ) (c : Client) where
  unfoldable pub owners : String → List String
  unfolding one_owner
  owners key =
      if c.replicas == 1
      then one_owner (get_node hash c.ring key)
      else get_nodes hash c.ring key c.replicas

  -- `owners[0]`
  unfoldable pub primary : String → Option String
  unfolding first_owner
  primary key = first_owner (owners key)

  unfoldable pub group_by_owner :
      List String → Dict String (List String) → Dict String (List String)
  group_by_owner [] groups = groups
  group_by_owner (k ∷ keys) groups = group_by_owner keys (group_key k (primary k) groups)

  unfoldable pub entries_per_node :
      Dict String DataLocation
      → Dict String (Dict String DataLocation)
      → Dict String (Dict String DataLocation)
  entries_per_node [] per_node = per_node
  entries_per_node ((k, l) ∷ entries) per_node =
      entries_per_node entries (add_entries (owners k) k l per_node)

  -- With replicas, the candidates are the owners of the group's first key.
  unfoldable pub candidates : List String → String → List String
  candidates [] primary_node = primary_node ∷ []
  candidates (k ∷ _) primary_node = if ltb 1 c.replicas then owners k else primary_node ∷ []

  unfoldable pub keys_per_node : List String → Dict String (List String) → Dict String (List String)
  keys_per_node [] groups = groups
  keys_per_node (k ∷ keys) groups = keys_per_node keys (add_to_groups (owners k) k groups)

module _ (resolve : String → Option String) (link : String → Link) where
  -- `endpoint = resolve(node_id); if endpoint is None: continue; call(...)`
  unfoldable pub send_to : String → (Shard → Shard) → Shards → Shards
  send_to node f s = elim (resolve node) [ none ↦ s | some ep ↦ send link ep f s ]

  unfoldable pub send_puts : Dict String (Dict String DataLocation) → Shards → Shards
  send_puts [] s = s
  send_puts ((node, entries) ∷ rest) s = send_puts rest (send_to node (on_put entries) s)

  unfoldable pub ask_node {ℓ} : {A : Type ℓ} → String → (Shard → A) → Shards → Option A
  ask_node node f s = elim (resolve node) [ none ↦ none | some ep ↦ ask link ep f s ]

  -- The loop over `candidates`; it falls through to a miss for every key.
  unfoldable pub try_candidates : List String → List String → Shards → List (Option DataLocation)
  try_candidates [] group s = map (λ _. none) group
  try_candidates (node ∷ rest) group s =
      let others = try_candidates rest group s in
      elim (ask_node node (on_get group) s) [ none ↦ others | some locs ↦ locs ]

  unfoldable pub exists_groups :
      Dict String (List String) → Shards → Dict String Bool → Dict String Bool
  exists_groups [] s result = result
  exists_groups ((owner, group) ∷ rest) s result =
      exists_groups rest s (elim (ask_node owner (on_exists group) s) [
        | none ↦ result
        | some found ↦ write_results group found result
      ])

  unfoldable pub send_deletes : Dict String (List String) → Shards → Shards
  send_deletes [] s = s
  send_deletes ((node, group) ∷ rest) s = send_deletes rest (send_to node (on_delete group) s)

module _ (hash : String → ℕ) (resolve : String → Option String) (link : String → Link)
    (c : Client) where
  unfoldable pub put : Dict String DataLocation → Shards → Shards
  put entries s = send_puts resolve link (entries_per_node hash c entries []) s

  unfoldable pub get_from_owner : List String → String → Shards → List (Option DataLocation)
  get_from_owner group primary_node s =
      try_candidates resolve link (candidates hash c group primary_node) group s

  unfoldable pub get_groups :
      Dict String (List String)
      → Shards
      → Dict String (Option DataLocation)
      → Dict String (Option DataLocation)
  get_groups [] s result = result
  get_groups ((owner, group) ∷ rest) s result =
      get_groups rest s (write_results group (get_from_owner group owner s) result)

  unfoldable pub get : List String → Shards → List (Option DataLocation)
  get keys s =
      read_results none keys
        (get_groups (group_by_owner hash c keys []) s (start_results none keys []))

  unfoldable pub exists : List String → Shards → List Bool
  exists keys s =
      read_results false keys
        (exists_groups resolve link (group_by_owner hash c keys []) s (start_results false keys []))

  unfoldable pub delete : List String → Shards → Shards
  delete keys s = send_deletes resolve link (keys_per_node hash c keys []) s
