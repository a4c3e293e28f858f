-- ===== src/Ring/Routing.antt =====
-- Who a key is routed to, and what a change of the membership does to it.
use peer_cache.Base.{
  ℕ, String, none, some, true, false, ◌≡◌, ◌≢◌, ◌↔◌, sym, ap, subst, ◌∙◌, ◌⊎◌, inl, inr, arith,
  eq_ℕ, eq_string, elem, Bool-cases, if◌then◌else◌,
}
use peer_cache.Base.Dict
use peer_cache.Ring.{Ring, rebuild, points, add_node, remove_node, get_node}
use peer_cache.Ring.Invariant.{
  IsValid, get-put_points, get-pop_points, add_node-IsValid, remove_node-IsValid,
}
use peer_cache.Ring.Lookup.{IsNext-unique, IsNext-restrict, on_ring, Owns, get_node_lem}

module _ (hash : String → ℕ) (key : String) where
  Owns-unique : (r : Ring) {a b : String} → Owns hash key r a → Owns hash key r b → a ≡ b
  Owns-unique r a b =
      let e = IsNext-unique (on_ring r) (hash key) a.position b.position a.next b.next in
      cc (a.owner, b.owner, e)

  on_of_get : (r : Ring) (q : ℕ) {n : String} → Dict.get q r.ring ≡ some n → on_ring r q ≡ true
  unfolding Dict.has
  on_of_get r q h = ground arith

  -- On a valid ring `get_node` returns a node exactly when that node owns the first position
  -- clockwise of the key's hash.
  pub get_node_iff :
      (r : Ring) (node : String)
      → IsValid hash r
      → (get_node hash r key ≡ some node) ↔ Owns hash key r node
  get_node_iff r node v = elim (get_node_lem hash key r v) [
    | inl (missing, empty) ↦ ((λ h. absurd (cc)), λ o. absurd (cc (o.next.here, empty o.position)))
    | inr (n, got, owns) ↦
        ((λ h. subst (Owns hash key r) (cc) owns), λ o. got ∙ ap some (Owns-unique r owns o))
  ]

  module _ (node : String) (r : Ring) (v : IsValid hash r) where
    get-add_node :
        (q : ℕ)
        → elem node r.nodes ≡ false
        → Dict.get q (add_node hash node r).ring
          ≡ (if elem q (points hash r.vnodes node) then some node else Dict.get q r.ring)
    unfolding add_node rebuild
    get-add_node q new = rw new (get-put_points node q (points hash r.vnodes node) r.ring)

    get-remove_node :
        (q : ℕ)
        → elem node r.nodes ≡ true
        → Dict.get q (remove_node hash node r).ring
          ≡ (if elem q (points hash r.vnodes node) then none else Dict.get q r.ring)
    unfolding remove_node rebuild
    get-remove_node q member = rw member (get-pop_points q (points hash r.vnodes node) r.ring)

    -- On a valid ring, a key that is looked up at a node stays there when another node leaves,
    -- provided that the one that leaves owns all of its positions.
    pub get_node-remove_node :
        (other : String)
        → ((q : ℕ) → elem q (points hash r.vnodes node) ≡ true → Dict.get q r.ring ≡ some node)
        → get_node hash r key ≡ some other
        → other ≢ node
        → get_node hash (remove_node hash node r) key ≡ some other
    get_node-remove_node other own got ne = elim (Bool-cases (elem node r.nodes)) [
      | inr absent ↦ unfold remove_node in rw absent got
      | inl member ↦
          let o = (get_node_iff r other v).0 got in
          let p = o.position in
          let r' = remove_node hash node r in
          let at = λ (q : ℕ). get-remove_node q member in
          let stays : Dict.get p r'.ring ≡ some other = ground (arith, at p, own p, o.owner) in
          (get_node_iff r' other (remove_node-IsValid hash node v)).1 (record {
            position = p;
            next =
                IsNext-restrict (on_ring r) (on_ring r') (hash key) p
                  (λ q m. unfold Dict.has in ground (arith, at q)) (on_of_get r' p stays) o.next;
            owner = stays;
          })
    ]

    -- On a valid ring, when a node joins, a key is looked up at that node or where it was before.
    get_node-add_node :
        (get_node hash (add_node hash node r) key ≡ some node)
        ⊎ (get_node hash (add_node hash node r) key ≡ get_node hash r key)
    get_node-add_node = elim (Bool-cases (elem node r.nodes)) [
      | inl old ↦ inr (unfold add_node in rw old)
      | inr new ↦
          let r' = add_node hash node r in
          let v' = add_node-IsValid hash node v in
          let at = λ (q : ℕ). get-add_node q new in
          let grows : (q : ℕ) → on_ring r q ≡ true → on_ring r' q ≡ true =
            λ q m. unfold Dict.has in ground (arith, at q) in
          elim (get_node_lem hash key r' v') [
            | inl (missing, empty) ↦ elim (get_node_lem hash key r v) [
              | inl (missing', empty') ↦ inr (missing ∙ sym missing')
              | inr (n, got, owns) ↦
                  absurd (cc (sym (grows (owns.position) owns.next.here), empty owns.position))
            ]
            | inr (n, got, owns) ↦
                let p = owns.position in
                elim (Bool-cases (elem p (points hash r.vnodes node))) [
                  | inl own ↦ inl (got ∙ ground (arith, at p, owns.owner))
                  | inr others ↦
                      let there : Dict.get p r.ring ≡ some n = ground (arith, at p, owns.owner) in
                      inr (
                        got
                        ∙ sym (
                            (get_node_iff r n v).1 (record {
                              position = p;
                              next =
                                  IsNext-restrict (on_ring r') (on_ring r) (hash key) p grows
                                    (on_of_get r p there) owns.next;
                              owner = there;
                            })))
                ]
          ]
    ]
