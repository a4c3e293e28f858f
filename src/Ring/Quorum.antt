-- ===== src/Ring/Quorum.antt =====
-- `get_nodes` returns as many distinct nodes as there can be, the owner first.
use native.Mathlib.Nat.{mod-eq_of_lt, add-mod_right, mod_self}
use native.Mathlib.Numerals.{add-one}
use peer_cache.Base.{
  ℕ, suc, ◌+◌, ◌-◌, ◌%◌, ◌≤◌, ◌<◌, min, String, some, true, false, List, [], ◌∷◌, ◌≡◌, refl, sym,
  ap, subst, ◌∙◌, inl, inr, arith, ltb, leb, ◌==◌, eq_ℕ, eq_string, ==_iff, elem, Distinct, length,
  get_elem?, Bool-cases, if◌then◌else◌,
}
use peer_cache.Base.Dict
use peer_cache.Ring.{
  Ring, bisect, owner_at, add_new, walk, get_nodes_on, get_nodes, get_node_on, get_node,
}
use peer_cache.Base.Sets.{discard, elem-discard}
use peer_cache.Ring.Invariant.{IsValid}
use peer_cache.Ring.Sorted.{bisect-le, get_elem?_of_elem}
use peer_cache.Ring.Replicas.{
  IsReplicaSet, walk-IsReplicaSet, length-walk, Passed, walk-Passed, walk-cons, owner_at-member,
}

length-discard : (x : String) (ys : List String) → length (discard x ys) ≤ length ys
unfolding discard
length-discard x [] = omega arith
length-discard x (y ∷ ys) = ground (arith, length-discard x ys)

length-discard-lt :
    (x : String) (ys : List String) → elem x ys ≡ true → length (discard x ys) + 1 ≤ length ys
unfolding discard
length-discard-lt x [] h = absurd (cc)
length-discard-lt x (y ∷ ys) h = ground (arith, length-discard-lt x ys, length-discard x ys)

-- Distinct elements of a list are at most as many as its elements.
pub length-le_of_subset :
    (xs ys : List String)
    → Distinct xs
    → ((n : String) → elem n xs ≡ true → elem n ys ≡ true)
    → length xs ≤ length ys
length-le_of_subset [] ys d h = omega arith
length-le_of_subset (x ∷ xs) ys d h =
    let rest =
      length-le_of_subset xs (discard x ys) d.1
        (λ n m. elem-discard n x ys ∙ ground (arith, h n, ==_iff x n, d.0)) in
    omega (arith, rest, length-discard-lt x ys (h x (ground (arith, ==_iff x x))))

wrapped : (i count : ℕ) → i < count → i ≡ (i + count) % count
wrapped i count h = sym (add-mod_right i count ∙ mod-eq_of_lt h)

wrap : (idx count : ℕ) → idx ≤ count → idx % count ≡ (if idx == count then 0 else idx)
wrap idx count le = elim (Bool-cases (idx == count)) [
  | inl end ↦ rw end (subst (λ c. idx % c ≡ 0) ((==_iff idx count).0 end) (mod_self idx))
  | inr stop ↦ rw stop (mod-eq_of_lt (ground arith))
]

length-pos_of_elem : (n : String) (xs : List String) → elem n xs ≡ true → 0 < length xs
length-pos_of_elem n [] h = absurd (cc)
length-pos_of_elem n (x ∷ xs) h = omega arith

not_zero : {n : ℕ} → 0 < n → (n == 0) ≡ false
not_zero h = ground arith

-- The first round of the walk enters the node at the index.
walk_starts :
    (hash : String → ℕ) (r : Ring) (v : IsValid hash r) (m idx fuel : ℕ) (node : String)
    → 0 < m
    → owner_at r (idx % length r.sorted_keys) ≡ some node
    → (rest : List String) × (walk hash r m idx (suc fuel) idx [] ≡ node ∷ rest)
unfolding walk add_new
walk_starts hash r v m idx fuel node pos here =
    let few : leb m 0 ≡ false = ground arith in
    elim (Bool-cases (ltb (length r.sorted_keys) (idx + 1 - idx))) [
      | inl round ↦ ([], rw (few, round, here))
      | inr again ↦
          let (rest, e) = walk-cons hash r v m idx fuel (idx + 1) node [] in
          (rest, rw (few, again, here) e)
    ]

module _ (hash : String → ℕ) (r : Ring) (key : String) (n : ℕ) (v : IsValid hash r) where
  -- On a valid ring `get_nodes` returns distinct members of the ring, at most `n`.
  pub get_nodes-IsReplicaSet :
      IsReplicaSet r (get_nodes hash r key n) × (length (get_nodes hash r key n) ≤ n)
  unfolding get_nodes
  get_nodes-IsReplicaSet = split r.sorted_keys
    where
      none_yet : IsReplicaSet r []
      none_yet = record { distinct = tt; members = λ m e. absurd (cc) }

      split :
          (l : List ℕ)
          → IsReplicaSet r (get_nodes_on hash r key n l)
            × (length (get_nodes_on hash r key n l) ≤ n)
      split [] = (none_yet, omega arith)
      split (x ∷ xs) = elim (Bool-cases (n == 0)) [
        | inl nothing ↦ rw nothing (none_yet, omega arith)
        | inr asked ↦
            let m = min n (length r.nodes) in
            let idx = bisect r.sorted_keys (hash key) in
            let count = length r.sorted_keys in
            rw asked (
              walk-IsReplicaSet hash r v m idx (count + 1) idx [] none_yet,
              omega (arith, length-walk hash r v m idx (count + 1) idx [] (omega arith)),
            )
      ]

  owner_of_position :
      (i q : ℕ) (m : String)
      → get_elem? r.sorted_keys i ≡ some q
      → Dict.get q r.ring ≡ some m
      → owner_at r i ≡ some m
  unfolding owner_at
  owner_of_position i q m at own = rw (at, owner_at) own

  -- A walk once round has every member that has a position.
  all-Passed :
      (idx : ℕ) (result : List String) (m : String) (q : ℕ)
      → idx ≤ length r.sorted_keys
      → Passed hash r v n idx (idx + length r.sorted_keys) result
      → Dict.get q r.ring ≡ some m
      → elem m result ≡ true
  all-Passed idx result m q le passed own =
      let on : elem q r.sorted_keys ≡ true = v.complete q ∙ (unfold Dict.has in ground arith) in
      let (i, lt, at) = get_elem?_of_elem r.sorted_keys q on in
      let count = length r.sorted_keys in
      let own_i = owner_of_position i q m at own in
      elim (Bool-cases (leb idx i)) [
        | inl after ↦
            passed i m (ground arith) (omega arith)
              (subst (λ t. owner_at r t ≡ some m) (sym (mod-eq_of_lt lt)) own_i)
        | inr before ↦
            passed (i + count) m (ground arith) (ground arith)
              (subst (λ t. owner_at r t ≡ some m) (wrapped i count lt) own_i)
      ]

  -- On a valid ring where every member has a position, `get_nodes` returns as many nodes as asked
  -- for, or all where there are fewer.
  pub length-get_nodes :
      ((m : String) → elem m r.nodes ≡ true → (q : ℕ) × (Dict.get q r.ring ≡ some m))
      → length (get_nodes hash r key n) ≡ min n (length r.nodes)
  unfolding get_nodes
  length-get_nodes placed = split r.sorted_keys refl
    where
      no_members : (l : List String) → l ≡ r.nodes → r.sorted_keys ≡ [] → length l ≡ 0
      no_members [] e empty = refl
      no_members (m ∷ l) e empty =
          let (q, own) = placed m (subst (λ t. elem m t ≡ true) e (ground (arith, ==_iff m m))) in
          let on : elem q r.sorted_keys ≡ true = v.complete q ∙ (unfold Dict.has in ground arith) in
          cc (on, ap (elem q) empty)

      split :
          (l : List ℕ)
          → r.sorted_keys ≡ l
          → length (get_nodes_on hash r key n l) ≡ min n (length r.nodes)
      split [] e = omega (arith, no_members r.nodes refl e)
      split (x ∷ xs) e = elim (Bool-cases (n == 0)) [
        | inl nothing ↦ rw nothing (ground arith)
        | inr asked ↦
            let m = min n (length r.nodes) in
            let idx = bisect r.sorted_keys (hash key) in
            let count = length r.sorted_keys in
            let result = walk hash r m idx (count + 1) idx [] in
            let short = length-walk hash r v m idx (count + 1) idx [] (omega arith) in
            rw asked
              (elim (walk-Passed hash r v m idx (count + 1) idx [] (omega arith) (omega arith)
                (λ j n' lo hi own. absurd (omega arith))) [
                  | inl enough ↦ omega arith
                  | inr passed ↦ omega (
                    arith,
                    length-le_of_subset r.nodes result v.distinct (λ n' mem.
                        let (q, own) = placed n' mem in
                        all-Passed idx result n' q (bisect-le r.sorted_keys (hash key)) passed own),
                  )
                ])
      ]

  -- On a valid ring, where at least one node is asked for and `get_node` returns a node, that node
  -- is the first that `get_nodes` returns.
  head-get_nodes :
      (node : String)
      → 0 < n
      → get_node hash r key ≡ some node
      → (rest : List String) × (get_nodes hash r key n ≡ node ∷ rest)
  unfolding get_nodes get_node
  head-get_nodes node pos = split r.sorted_keys refl
    where
      ks : List ℕ
      ks = r.sorted_keys

      idx : ℕ
      idx = bisect ks (hash key)

      split :
          (l : List ℕ)
          → ks ≡ l
          → get_node_on hash r key l ≡ some node
          → (rest : List String) × (get_nodes_on hash r key n l ≡ node ∷ rest)
      split [] e got = absurd (cc)
      split (x ∷ xs) e got =
          let m = min n (length r.nodes) in
          let here = ap (owner_at r) (wrap idx (length ks) (bisect-le ks (hash key))) ∙ got in
          let member = owner_at-member hash r _ node v here in
          let some_member : 0 < length r.nodes = length-pos_of_elem node r.nodes member in
          let (rest, walked) = walk_starts hash r v m idx (length ks) node (omega arith) here in
          (
            rest,
            rw (not_zero pos) (ap (λ f. walk hash r m idx f idx []) (add-one (length ks)) ∙ walked),
          )
