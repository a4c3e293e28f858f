-- ===== src/Ring.antt =====
-- python/peercache/hashring.py: `ConsistentHashRing`.
-- `_hash`, a 64-bit BLAKE2b digest, is the parameter `hash`. A Python set is a list without
-- repetitions, in any order: the theorems hold for each.
pub mod Sorted
pub mod Invariant
pub mod Lookup
pub mod Routing
pub mod Agreement
pub mod Replicas
pub mod Quorum
pub mod Clockwise
use peer_cache.Base.{
  ℕ, zero, suc, ◌+◌, ◌-◌, ◌%◌, min, String, Option, none, some, Bool, true, false, not, List, [],
  ◌∷◌, ◌++◌, ltb, leb, ◌==◌, eq_ℕ, eq_string, ◌&&◌, elem, length, get_elem?, if◌then◌else◌,
}
use peer_cache.Base.Sets.{discard}
use peer_cache.Base.Dict
use peer_cache.Base.Dict.{Dict, keys}
use peer_cache.Base.Text.{join, str}

pub record Ring : Type 0 where
  pub vnodes : ℕ
  -- position on the circle -> node
  pub ring : Dict ℕ String
  pub sorted_keys : List ℕ
  pub nodes : List String

unfoldable pub init : ℕ → Ring
init vnodes = record { vnodes = vnodes; ring = []; sorted_keys = []; nodes = [] }

unfoldable pub insert_sorted : ℕ → List ℕ → List ℕ
insert_sorted x [] = x ∷ []
insert_sorted x (y ∷ ys) = if leb x y then x ∷ y ∷ ys else y ∷ insert_sorted x ys

-- `sorted`
unfoldable pub sort : List ℕ → List ℕ
sort [] = []
sort (x ∷ xs) = insert_sorted x (sort xs)

-- `bisect.bisect` on a sorted list: the number of elements that are at most `h`.
unfoldable pub bisect : List ℕ → ℕ → ℕ
bisect [] h = 0
bisect (x ∷ xs) h = if leb x h then suc (bisect xs h) else 0

unfoldable pub push_new : String → List String → List String
push_new x rest = if elem x rest then rest else x ∷ rest

-- `set(xs)`
unfoldable pub to_set : List String → List String
to_set [] = []
to_set (x ∷ xs) = push_new x (to_set xs)

unfoldable pub subset : List String → List String → Bool
subset [] ys = true
subset (x ∷ xs) ys = elem x ys && subset xs ys

-- `==` on sets
unfoldable pub same_set : List String → List String → Bool
same_set xs ys = subset xs ys && subset ys xs

unfoldable pub rebuild : Ring → Ring
rebuild r = record r { sorted_keys = sort (keys r.ring) }

-- `self._ring[h] = node_id` for the points of a node
unfoldable pub put_points : String → List ℕ → Dict ℕ String → Dict ℕ String
put_points node [] d = d
put_points node (h ∷ hs) d = put_points node hs (Dict.put h node d)

unfoldable pub pop_points : List ℕ → Dict ℕ String → Dict ℕ String
pop_points [] d = d
pop_points (h ∷ hs) d = pop_points hs (Dict.remove h d)

unfoldable pub size : Ring → ℕ
size r = length r.nodes

unfoldable pub contains : String → Ring → Bool
contains node r = elem node r.nodes

-- `self._ring[self._sorted_keys[i]]`; `none` stands for an exception.
unfoldable pub owner_at : Ring → ℕ → Option String
owner_at r i = elim (get_elem? r.sorted_keys i) [ none ↦ none | some h ↦ Dict.get h r.ring ]

module _ (hash : String → ℕ) where
  -- `_hash(f"{node_id}#{i}") for i in range(vnodes)`, from `i` on
  unfoldable pub points_from : String → ℕ → ℕ → List ℕ
  points_from node i zero = []
  points_from node i (suc n) = hash (join node (join "#" (str i))) ∷ points_from node (i + 1) n

  unfoldable pub points : ℕ → String → List ℕ
  points vnodes node = points_from node 0 vnodes

  unfoldable pub add_node : String → Ring → Ring
  add_node node r =
      if elem node r.nodes
      then r
      else rebuild (record r {
        nodes = r.nodes ++ node ∷ [];
        ring = put_points node (points r.vnodes node) r.ring;
      })

  unfoldable pub remove_node : String → Ring → Ring
  remove_node node r =
      if not (elem node r.nodes)
      then r
      else rebuild (record r {
        nodes = discard node r.nodes;
        ring = pop_points (points r.vnodes node) r.ring;
      })

  unfoldable pub put_nodes : Ring → List String → Dict ℕ String → Dict ℕ String
  put_nodes r [] d = d
  put_nodes r (node ∷ nodes) d = put_nodes r nodes (put_points node (points r.vnodes node) d)

  unfoldable pub set_nodes : List String → Ring → Ring
  set_nodes node_ids r =
      let target = to_set node_ids in
      if same_set target r.nodes
      then r
      else rebuild (record r { nodes = target; ring = put_nodes r target [] })

  -- The argument is `self._sorted_keys`, tested for emptiness.
  unfoldable pub get_node_on : Ring → String → List ℕ → Option String
  get_node_on r key [] = none
  get_node_on r key (_ ∷ _) =
      let idx = bisect r.sorted_keys (hash key) in
      owner_at r (if idx == length r.sorted_keys then 0 else idx)

  unfoldable pub get_node : Ring → String → Option String
  unfolding get_node_on
  get_node r key = get_node_on r key r.sorted_keys

  -- `if node not in result: result.append(node)`
  unfoldable pub add_new : Option String → List String → List String
  add_new none result = result
  add_new (some node) result = if elem node result then result else result ++ node ∷ []

  -- The `while` of `get_nodes`. It makes at most `count + 1` rounds, so that fuel is enough.
  unfoldable pub walk : Ring → ℕ → ℕ → ℕ → ℕ → List String → List String
  walk r n idx zero i result = result
  walk r n idx (suc fuel) i result =
      let count = length r.sorted_keys in
      let result' = add_new (owner_at r (i % count)) result in
      let rest = walk r n idx fuel (i + 1) result' in
      if leb n (length result) then result else if ltb count (i + 1 - idx) then result' else rest

  unfoldable pub get_nodes_on : Ring → String → ℕ → List ℕ → List String
  get_nodes_on r key n [] = []
  get_nodes_on r key n (_ ∷ _) =
      let idx = bisect r.sorted_keys (hash key) in
      if n == 0 then [] else walk r (min n (length r.nodes)) idx (length r.sorted_keys + 1) idx []

  unfoldable pub get_nodes : Ring → String → ℕ → List String
  unfolding get_nodes_on
  get_nodes r key n = get_nodes_on r key n r.sorted_keys
