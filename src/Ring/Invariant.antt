-- ===== src/Ring/Invariant.antt =====
-- The ring's invariant, kept by every change of the membership.
use peer_cache.Base.{
  ℕ, String, none, some, true, List, [], ◌∷◌, ◌≡◌, refl, ◌∙◌, ◌⊎◌, inl, inr, arith, eq_ℕ, eq_string,
  ==_iff, elem, elem-append, Distinct, Bool-cases, if◌then◌else◌,
}
use peer_cache.Base.Sets.{elem-discard, discard-Distinct, append_one-Distinct}
use peer_cache.Base.Dict
use peer_cache.Base.Dict.{Dict, keys, get-put, get-remove, elem-keys}
use peer_cache.Ring.{
  Ring, init, to_set, push_new, rebuild, put_points, pop_points, points, add_node, remove_node,
  put_nodes, set_nodes, same_set,
}
use peer_cache.Ring.Sorted.{IsSorted, elem-sort, sort-IsSorted}

pub get-put_points :
    (node : String) (q : ℕ) (hs : List ℕ) (d : Dict ℕ String)
    → Dict.get q (put_points node hs d) ≡ (if elem q hs then some node else Dict.get q d)
unfolding put_points
get-put_points node q [] d = refl
get-put_points node q (h ∷ hs) d =
    ground (arith, get-put_points node q hs (Dict.put h node d), get-put h q node d)

pub get-pop_points :
    (q : ℕ) (hs : List ℕ) (d : Dict ℕ String)
    → Dict.get q (pop_points hs d) ≡ (if elem q hs then none else Dict.get q d)
unfolding pop_points
get-pop_points q [] d = refl
get-pop_points q (h ∷ hs) d =
    ground (arith, get-pop_points q hs (Dict.remove h d), get-remove h q d)

pub elem-to_set : (n : String) (xs : List String) → elem n (to_set xs) ≡ elem n xs
unfolding to_set push_new
elem-to_set n [] = refl
elem-to_set n (x ∷ xs) = ground (arith, elem-to_set n xs, elem-to_set x xs, ==_iff x n)

push_new-Distinct : (x : String) (xs : List String) → Distinct xs → Distinct (push_new x xs)
unfolding push_new
push_new-Distinct x xs d = elim (Bool-cases (elem x xs)) [
  | inl old ↦ rw old d
  | inr new ↦ rw new (new, d)
]

to_set-Distinct : (xs : List String) → Distinct (to_set xs)
unfolding to_set
to_set-Distinct [] = tt
to_set-Distinct (x ∷ xs) = push_new-Distinct x (to_set xs) (to_set-Distinct xs)

module _ (hash : String → ℕ) where
  pub record IsValid (r : Ring) : Type 0 where
    pub ordered : IsSorted r.sorted_keys
    pub complete : (q : ℕ) → elem q r.sorted_keys ≡ Dict.has q r.ring
    -- A position belongs to a member, and is one of its points.
    pub owned : (q : ℕ) (n : String) → Dict.get q r.ring ≡ some n → elem n r.nodes ≡ true
    pub placed :
        (q : ℕ) (n : String) → Dict.get q r.ring ≡ some n → elem q (points hash r.vnodes n) ≡ true
    pub distinct : Distinct r.nodes

  rebuild-IsValid :
      (r : Ring)
      → ((q : ℕ) (n : String) → Dict.get q r.ring ≡ some n → elem n r.nodes ≡ true)
      → ((q : ℕ) (n : String) → Dict.get q r.ring ≡ some n → elem q (points hash r.vnodes n) ≡ true)
      → Distinct r.nodes
      → IsValid (rebuild r)
  unfolding rebuild
  rebuild-IsValid r owned placed distinct = record {
    ordered = sort-IsSorted (keys r.ring);
    complete = λ q. elem-sort q (keys r.ring) ∙ elem-keys q r.ring;
    owned = owned;
    placed = placed;
    distinct = distinct;
  }

  pub init-IsValid : (vnodes : ℕ) → IsValid (init vnodes)
  unfolding init Dict.has Dict.get
  init-IsValid vnodes = record {
    ordered = tt;
    complete = λ q. refl;
    owned = λ q node h. absurd (cc);
    placed = λ q node h. absurd (cc);
    distinct = tt;
  }

  pub add_node-IsValid : (node : String) {r : Ring} → IsValid r → IsValid (add_node hash node r)
  unfolding add_node
  add_node-IsValid node {r} v =
      let own = λ (q : ℕ). get-put_points node q (points hash r.vnodes node) r.ring in
      elim (Bool-cases (elem node r.nodes)) [
        | inl old ↦ rw old v
        | inr new ↦ rw new (
            rebuild-IsValid _
              (λ q n h.
                ground
                  (arith, own q, elem-append n r.nodes (node ∷ []), v.owned q n, ==_iff node n))
              (λ q n h. ground (arith, own q, v.placed q n))
              (append_one-Distinct node r.nodes new v.distinct))
      ]

  pub remove_node-IsValid :
      (node : String) {r : Ring} → IsValid r → IsValid (remove_node hash node r)
  unfolding remove_node
  remove_node-IsValid node {r} v =
      let own = λ (q : ℕ). get-pop_points q (points hash r.vnodes node) r.ring in
      elim (Bool-cases (elem node r.nodes)) [
        | inr absent ↦ rw absent v
        | inl member ↦ rw member (
            rebuild-IsValid _
              (λ q n h. ground (
                arith,
                own q,
                elem-discard n node r.nodes,
                v.owned q n,
                v.placed q n,
                ==_iff node n,
              ))
              (λ q n h. ground (arith, own q, v.placed q n))
              (discard-Distinct node r.nodes v.distinct))
      ]

  put_nodes-owned :
      (r : Ring) (nodes : List String) (d : Dict ℕ String) (q : ℕ) (n : String)
      → Dict.get q (put_nodes hash r nodes d) ≡ some n
      → ((elem n nodes ≡ true) × (elem q (points hash r.vnodes n) ≡ true)) ⊎ (Dict.get q d ≡ some n)
  unfolding put_nodes
  put_nodes-owned r [] d q n h = inr h
  put_nodes-owned r (x ∷ nodes) d q n h =
      elim (put_nodes-owned r nodes (put_points x (points hash r.vnodes x) d) q n h) [
        | inl later ↦ inl (ground arith, later.1)
        | inr found ↦ ground (arith, get-put_points x q (points hash r.vnodes x) d, ==_iff x n)
      ]

  pub set_nodes-IsValid :
      (node_ids : List String) {r : Ring} → IsValid r → IsValid (set_nodes hash node_ids r)
  unfolding set_nodes Dict.get
  set_nodes-IsValid node_ids {r} v = elim (Bool-cases (same_set (to_set node_ids) r.nodes)) [
    | inl same ↦ rw same v
    | inr changed ↦
        let own = λ (q : ℕ) (n : String). put_nodes-owned r (to_set node_ids) [] q n in
        rw changed (
          rebuild-IsValid _ (λ q n h. ground (arith, own q n h))
            (λ q n h. ground (arith, own q n h)) (to_set-Distinct node_ids))
  ]
