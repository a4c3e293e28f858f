-- ===== src/Tests/Ring.antt =====
-- Runs of `ConsistentHashRing`: up to three nodes with one point each, at 10, 20 and 30.
use peer_cache.Base.{
  take, ℕ, ◌≡◌, ◌≢◌, ◌≤◌, ◌⊎◌, ◌↔◌, inl, inr, refl, sym, ap, subst, Bool-cases, ◌∙◌, arith, String,
  some, true, false, [], ◌∷◌, ◌==◌, eq_ℕ, eq_string, ==_iff, str_eq_iff, elem, length,
  if◌then◌else◌,
}
use peer_cache.Base.Dict
use peer_cache.Base.Dict.{Dict, keys}
use peer_cache.Base.Text.{join, str}
use peer_cache.Base.Sets.{discard}
use peer_cache.Ring.{
  Ring, init, insert_sorted, sort, bisect, push_new, to_set, subset, same_set, rebuild, put_points,
  pop_points, owner_at, points_from, points, add_node, remove_node, put_nodes, set_nodes,
  get_node_on, get_node, add_new, walk, get_nodes_on, get_nodes,
}
use peer_cache.Ring.Invariant.{IsValid, init-IsValid, add_node-IsValid}
use peer_cache.Ring.Lookup.{Owns}
use peer_cache.Ring.Routing.{get_node_iff, get_node-remove_node}
use peer_cache.Ring.Agreement.{Apart, IsFull, set_nodes_agree}
use peer_cache.Ring.Replicas.{IsReplicaSet}
use peer_cache.Ring.Clockwise.{clockwise, nodes_met, get_nodes_lem}
use peer_cache.Ring.Quorum.{get_nodes-IsReplicaSet, length-get_nodes}

unfoldable pub program : Unit {0}
unfolding init insert_sorted sort bisect push_new to_set subset same_set rebuild put_points
    pop_points discard owner_at points_from points add_node remove_node put_nodes set_nodes
    get_node_on get_node add_new walk get_nodes_on get_nodes join str Dict.get Dict.put Dict.has
    Dict.remove Dict.get_or
program = tt

abbrev pub hash : String → ℕ
hash s =
    if s == "a#0"
    then 10
    else if s == "b#0"
    then 20
    else if s == "c#0"
    then 30
    else if s == "k"
    then 15
    else 35

abbrev pub abc : Ring
abc = add_node hash "c" (add_node hash "b" (add_node hash "a" (init 1)))

pub abc-IsValid : IsValid hash abc
abc-IsValid =
    add_node-IsValid hash "c"
      (add_node-IsValid hash "b" (add_node-IsValid hash "a" (init-IsValid hash 1)))

k_at : get_node hash abc "k" ≡ some "b"
unfolding program
k_at = refl

m_at : get_node hash abc "m" ≡ some "a"
unfolding program
m_at = refl

apart : (x y : String) → (x == y) ≡ false → x ≢ y
apart x y h e = ground (arith, ==_iff x y)

get_node_iff_example : (get_node hash abc "k" ≡ some "b") ↔ Owns hash "k" abc "b"
get_node_iff_example = get_node_iff hash "k" abc "b" abc-IsValid

c_point : (q : ℕ) → elem q (points hash 1 "c") ≡ true → q ≡ 30
unfolding program
c_point q h = ground (arith, ==_iff 30 q)

c_own : (q : ℕ) → elem q (points hash abc.vnodes "c") ≡ true → Dict.get q abc.ring ≡ some "c"
unfolding program
c_own q h = subst (λ t. Dict.get t abc.ring ≡ some "c") (sym (c_point q h)) refl

get_node-remove_node_example : get_node hash (remove_node hash "c" abc) "k" ≡ some "b"
get_node-remove_node_example =
    get_node-remove_node hash "k" "c" abc abc-IsValid "b" c_own k_at (apart "b" "c" refl)

get_nodes-IsReplicaSet_example :
    IsReplicaSet abc (get_nodes hash abc "k" 2) × (length (get_nodes hash abc "k" 2) ≤ 2)
get_nodes-IsReplicaSet_example = get_nodes-IsReplicaSet hash abc "k" 2 abc-IsValid

placed : (m : String) → elem m abc.nodes ≡ true → (q : ℕ) × (Dict.get q abc.ring ≡ some m)
unfolding program
placed m h = elim (Bool-cases ("a" == m)) [
  | inl e ↦ (10, ap some ((str_eq_iff "a" m).0 e))
  | inr na ↦ elim (Bool-cases ("b" == m)) [
    | inl e ↦ (20, ap some ((str_eq_iff "b" m).0 e))
    | inr nb ↦ elim (Bool-cases ("c" == m)) [
      | inl e ↦ (30, ap some ((str_eq_iff "c" m).0 e))
      | inr nc ↦ absurd (ground arith)
    ]
  ]
]

length-get_nodes_example : length (get_nodes hash abc "k" 2) ≡ 2
unfolding program
length-get_nodes_example = length-get_nodes hash abc "k" 2 abc-IsValid placed

get_nodes_lem_example :
    get_nodes hash abc "k" 2 ≡ take 2 (nodes_met abc.ring (clockwise abc.sorted_keys (hash "k")) [])
unfolding program
get_nodes_lem_example = get_nodes_lem hash abc "k" 2

init-IsFull : IsFull hash (init 1)
unfolding program
init-IsFull n q m e = absurd (cc)

of_ab : (x : String) → elem x ("a" ∷ "b" ∷ []) ≡ true → (x ≡ "a") ⊎ (x ≡ "b")
of_ab x h = ground (arith, ==_iff "a" x, ==_iff "b" x)

not_both : (q : ℕ) → elem q (points hash 1 "a") ≡ true → elem q (points hash 1 "b") ≡ true → ⊥
unfolding program
not_both q h k = ground (arith, ==_iff 10 q, ==_iff 20 q)

ab-Apart : Apart hash 1 ("a" ∷ "b" ∷ [])
ab-Apart x y q mx my px py = elim (of_ab x mx) [
  | inl xa ↦ elim (of_ab y my) [
    | inl ya ↦ xa ∙ sym ya
    | inr yb ↦ absurd (not_both q (subst (On q) xa px) (subst (On q) yb py))
  ]
  | inr xb ↦ elim (of_ab y my) [
    | inl ya ↦ absurd (not_both q (subst (On q) ya py) (subst (On q) xb px))
    | inr yb ↦ xb ∙ sym yb
  ]
]
  where
    On : ℕ → String → Type 0
    On q n = elem q (points hash 1 n) ≡ true

swap : (n : String) → elem n ("a" ∷ "b" ∷ []) ≡ elem n ("b" ∷ "a" ∷ "b" ∷ [])
swap n = ground arith

one-vnode : Apart hash (init 1).vnodes ("a" ∷ "b" ∷ [])
unfolding init
one-vnode = ab-Apart

set_nodes_agree_example :
    get_node hash (set_nodes hash ("a" ∷ "b" ∷ []) (init 1)) "k"
    ≡ get_node hash (set_nodes hash ("b" ∷ "a" ∷ "b" ∷ []) (init 1)) "k"
set_nodes_agree_example =
    set_nodes_agree hash ("a" ∷ "b" ∷ []) ("b" ∷ "a" ∷ "b" ∷ []) (init 1) (init 1) "k"
      (init-IsValid hash 1) (init-IsValid hash 1) init-IsFull init-IsFull refl swap one-vnode
