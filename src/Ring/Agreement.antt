-- ===== src/Ring/Agreement.antt =====
-- Two nodes that see the same membership route every key alike.
use peer_cache.Base.{
  ℕ, String, some, true, false, List, [], ◌∷◌, ◌≡◌, refl, sym, subst, ◌∙◌, inl, inr, arith, eq_ℕ,
  eq_string, ==_iff, elem, Bool-cases, Option-cases,
}
use peer_cache.Base.Dict
use peer_cache.Base.Dict.{Dict}
use peer_cache.Ring.{
  Ring, subset, same_set, to_set, put_points, rebuild, points, put_nodes, set_nodes, get_node,
}
use peer_cache.Ring.Invariant.{IsValid, get-put_points, elem-to_set, set_nodes-IsValid}
use peer_cache.Ring.Lookup.{IsNext-restrict, on_ring, get_node_lem}
use peer_cache.Ring.Routing.{get_node_iff}

elem-subset :
    (n : String) (xs ys : List String) → subset xs ys ≡ true → elem n xs ≡ true → elem n ys ≡ true
unfolding subset
elem-subset n [] ys h m = absurd (cc)
elem-subset n (x ∷ xs) ys h m = ground (arith, elem-subset n xs ys, ==_iff x n)

same_set-elem : (n : String) (xs ys : List String) → same_set xs ys ≡ true → elem n xs ≡ elem n ys
unfolding same_set
same_set-elem n xs ys h = ground (arith, elem-subset n xs ys, elem-subset n ys xs)

module _ (hash : String → ℕ) where
  -- No two of the nodes have a position in common.
  abbrev pub Apart : ℕ → List String → Type 0
  Apart vnodes nodes =
      (a b : String) (q : ℕ)
      → elem a nodes ≡ true
      → elem b nodes ≡ true
      → elem q (points hash vnodes a) ≡ true
      → elem q (points hash vnodes b) ≡ true
      → a ≡ b

  -- Every member has all its positions.
  abbrev pub IsFull : Ring → Type 0
  IsFull r =
      (n : String) (q : ℕ)
      → elem n r.nodes ≡ true
      → elem q (points hash r.vnodes n) ≡ true
      → Dict.get q r.ring ≡ some n

  module _ (r : Ring) where
    put_nodes-others :
        (nodes : List String) (d : Dict ℕ String) (q : ℕ)
        → ((b : String) → elem b nodes ≡ true → elem q (points hash r.vnodes b) ≡ false)
        → Dict.get q (put_nodes hash r nodes d) ≡ Dict.get q d
    unfolding put_nodes
    put_nodes-others [] d q none_has = refl
    put_nodes-others (x ∷ nodes) d q none_has =
        put_nodes-others nodes (put_points x (points hash r.vnodes x) d) q
          (λ b m. none_has b (ground arith))
        ∙ ground (arith, get-put_points x q (points hash r.vnodes x) d, none_has x, ==_iff x x)

    put_nodes-own :
        (nodes : List String) (d : Dict ℕ String) (n : String) (q : ℕ)
        → Apart r.vnodes nodes
        → elem n nodes ≡ true
        → elem q (points hash r.vnodes n) ≡ true
        → Dict.get q (put_nodes hash r nodes d) ≡ some n
    unfolding put_nodes
    put_nodes-own [] d n q apart m own = absurd (cc)
    put_nodes-own (x ∷ nodes) d n q apart m own =
        let d' = put_points x (points hash r.vnodes x) d in
        elim (Bool-cases (elem n nodes)) [
          | inl later ↦
              put_nodes-own nodes d' n q (λ a b p ma mb. apart a b p (ground arith) (ground arith))
                later own
          | inr first ↦
              let same : x ≡ n = ground (arith, ==_iff x n) in
              put_nodes-others nodes d' q (λ b mb.
                elim (Bool-cases (elem q (points hash r.vnodes b))) [
                  | inr free ↦ free
                  | inl shared ↦
                      let e = apart b n q (ground arith) m shared own in
                      let again : elem n nodes ≡ true = subst (λ t. elem t nodes ≡ true) e mb in
                      cc (again, first)
                ])
              ∙ ground (arith, get-put_points x q (points hash r.vnodes x) d)
        ]

  -- The members after a refresh are those of the list, whichever branch was taken.
  pub elem-set_nodes :
      (node_ids : List String) (r : Ring) (n : String)
      → elem n (set_nodes hash node_ids r).nodes ≡ elem n node_ids
  unfolding set_nodes rebuild
  elem-set_nodes node_ids r n = elim (Bool-cases (same_set (to_set node_ids) r.nodes)) [
    | inl same ↦
        rw same (sym (same_set-elem n (to_set node_ids) r.nodes same) ∙ elem-to_set n node_ids)
    | inr changed ↦ rw changed (elem-to_set n node_ids)
  ]

  vnodes-set_nodes :
      (node_ids : List String) (r : Ring) → (set_nodes hash node_ids r).vnodes ≡ r.vnodes
  unfolding set_nodes rebuild
  vnodes-set_nodes node_ids r = ground arith

  pub set_nodes-IsFull :
      (node_ids : List String) (r : Ring)
      → Apart r.vnodes node_ids
      → IsFull r
      → IsFull (set_nodes hash node_ids r)
  unfolding set_nodes rebuild
  set_nodes-IsFull node_ids r apart full = elim (Bool-cases (same_set (to_set node_ids) r.nodes)) [
    | inl same ↦ rw same full
    | inr changed ↦ rw changed (λ n q m own.
        put_nodes-own r (to_set node_ids) [] n q
          (λ a b p ma mb.
            apart a b p (sym (elem-to_set a node_ids) ∙ ma) (sym (elem-to_set b node_ids) ∙ mb))
          m own)
  ]

  module _ (r r' : Ring) (v : IsValid hash r) (v' : IsValid hash r') (full' : IsFull r')
      (vnodes : r.vnodes ≡ r'.vnodes)
      (members : (n : String) → elem n r.nodes ≡ true → elem n r'.nodes ≡ true) where
    carried : (q : ℕ) (n : String) → Dict.get q r.ring ≡ some n → Dict.get q r'.ring ≡ some n
    carried q n h =
        full' n q (members n (v.owned q n h))
          (subst (λ w. elem q (points hash w n) ≡ true) vnodes (v.placed q n h))

    on-carried : (q : ℕ) → on_ring r q ≡ true → on_ring r' q ≡ true
    unfolding Dict.has
    on-carried q h = elim (Option-cases (Dict.get q r.ring)) [
      | inl missing ↦ ground arith
      | inr (n, found) ↦ ground (arith, carried q n found)
    ]

  -- Rings with the same members and all their positions route a key alike.
  same_members-same_route :
      (r r' : Ring) (key : String)
      → IsValid hash r
      → IsValid hash r'
      → IsFull r
      → IsFull r'
      → r.vnodes ≡ r'.vnodes
      → ((n : String) → elem n r.nodes ≡ elem n r'.nodes)
      → get_node hash r key ≡ get_node hash r' key
  same_members-same_route r r' key v v' full full' vnodes members =
      let there = on-carried r r' v v' full' vnodes (λ n m. sym (members n) ∙ m) in
      let back = on-carried r' r v' v full (sym vnodes) (λ n m. members n ∙ m) in
      elim (get_node_lem hash key r v) [
        | inl (missing, empty) ↦ elim (get_node_lem hash key r' v') [
          | inl (missing', empty') ↦ missing ∙ sym missing'
          | inr (n, got, o) ↦ absurd (cc (back o.position o.next.here, empty o.position))
        ]
        | inr (n, got, o) ↦
            let at =
              carried r r' v v' full' vnodes (λ n m. sym (members n) ∙ m) o.position n o.owner in
            got
            ∙ sym (
                (get_node_iff hash key r' n v').1 (record {
                  position = o.position;
                  next =
                      IsNext-restrict (on_ring r) (on_ring r') (hash key) o.position back
                        (there o.position o.next.here) o.next;
                  owner = at;
                }))
      ]

  -- Two valid rings with as many points for each node, on which every member has all its
  -- positions, look a key up at the same node after `set_nodes` with lists of the same members,
  -- in whatever order and from whatever membership before, provided that no two of these members
  -- have a position in common.
  pub set_nodes_agree :
      (ids ids' : List String) (r r' : Ring) (key : String)
      → IsValid hash r
      → IsValid hash r'
      → IsFull r
      → IsFull r'
      → r.vnodes ≡ r'.vnodes
      → ((n : String) → elem n ids ≡ elem n ids')
      → Apart r.vnodes ids
      → get_node hash (set_nodes hash ids r) key ≡ get_node hash (set_nodes hash ids' r') key
  set_nodes_agree ids ids' r r' key v v' full full' vnodes same apart =
      same_members-same_route (set_nodes hash ids r) (set_nodes hash ids' r') key
        (set_nodes-IsValid hash ids v) (set_nodes-IsValid hash ids' v')
        (set_nodes-IsFull ids r apart full)
        (set_nodes-IsFull ids' r'
          (subst (λ w. Apart w ids') vnodes
            (λ a b q ma mb. apart a b q (same a ∙ ma) (same b ∙ mb)))
          full')
        (vnodes-set_nodes ids r ∙ vnodes ∙ sym (vnodes-set_nodes ids' r'))
        (λ n. elem-set_nodes ids r n ∙ same n ∙ sym (elem-set_nodes ids' r' n))
