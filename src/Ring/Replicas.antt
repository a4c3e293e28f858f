-- ===== src/Ring/Replicas.antt =====
-- `get_nodes`: the replica set of a key.
use peer_cache.Base.{
  ℕ, zero, suc, ◌+◌, ◌-◌, ◌%◌, ◌≤◌, ◌<◌, String, Option, none, some, true, List, [], ◌∷◌, ◌++◌, ◌≡◌,
  refl, sym, subst, ◌⊎◌, inl, inr, arith, ltb, leb, ◌==◌, eq_ℕ, eq_string, ==_iff, elem,
  elem-append, Distinct, length, length-append, get_elem?, Bool-cases, Option-cases,
}
use peer_cache.Ring.{Ring, owner_at, add_new, walk}
use peer_cache.Base.Sets.{append_one-Distinct}
use peer_cache.Ring.Invariant.{IsValid}

-- What every prefix of the walk satisfies.
pub record IsReplicaSet (r : Ring) (result : List String) : Type 0 where
  pub distinct : Distinct result
  pub members : (n : String) → elem n result ≡ true → elem n r.nodes ≡ true

module _ (hash : String → ℕ) where
  add_new-IsReplicaSet :
      (r : Ring) (o : Option String) (result : List String)
      → ((n : String) → o ≡ some n → elem n r.nodes ≡ true)
      → IsReplicaSet r result
      → IsReplicaSet r (add_new hash o result)
  unfolding add_new
  add_new-IsReplicaSet r none result m h = h
  add_new-IsReplicaSet r (some node) result m h = elim (Bool-cases (elem node result)) [
    | inl old ↦ rw old h
    | inr new ↦ rw new (record {
      distinct = append_one-Distinct node result new h.distinct;
      members = λ n e.
          ground (arith, elem-append n result (node ∷ []), h.members n, m node refl, ==_iff node n);
    })
  ]

  pub owner_at-member :
      (r : Ring) (i : ℕ) (n : String)
      → IsValid hash r
      → owner_at r i ≡ some n
      → elem n r.nodes ≡ true
  unfolding owner_at
  owner_at-member r i n v h = elim (Option-cases (get_elem? r.sorted_keys i)) [
    | inl out ↦ ground arith
    | inr (q, at) ↦ v.owned q n (ground arith)
  ]

  length-add_new :
      (o : Option String) (result : List String)
      → length (add_new hash o result) ≤ length result + 1
  unfolding add_new
  length-add_new none result = omega arith
  length-add_new (some n) result = ground (arith, length-append result (n ∷ []))

  elem-add_new :
      (n : String) (o : Option String) (result : List String)
      → elem n result ≡ true
      → elem n (add_new hash o result) ≡ true
  unfolding add_new
  elem-add_new n none result h = h
  elem-add_new n (some node) result h = ground (arith, elem-append n result (node ∷ []))

  elem-add_new_self :
      (n : String) (result : List String) → elem n (add_new hash (some n) result) ≡ true
  unfolding add_new
  elem-add_new_self n result = ground (arith, elem-append n result (n ∷ []), ==_iff n n)

  module _ (r : Ring) (v : IsValid hash r) (n idx : ℕ) where
    pub walk-IsReplicaSet :
        (fuel i : ℕ) (result : List String)
        → IsReplicaSet r result
        → IsReplicaSet r (walk hash r n idx fuel i result)
    unfolding walk
    walk-IsReplicaSet zero i result h = h
    walk-IsReplicaSet (suc fuel) i result h =
        let o = owner_at r (i % length r.sorted_keys) in
        let h' = add_new-IsReplicaSet r o result (λ m e. owner_at-member r _ m v e) h in
        elim (Bool-cases (leb n (length result))) [
          | inl enough ↦ rw enough h
          | inr fewer ↦ rw fewer (elim (Bool-cases (ltb (length r.sorted_keys) (i + 1 - idx))) [
            | inl round ↦ rw round h'
            | inr more ↦ rw more (walk-IsReplicaSet fuel (i + 1) (add_new hash o result) h')
          ])
        ]

    pub length-walk :
        (fuel i : ℕ) (result : List String)
        → length result ≤ n
        → length (walk hash r n idx fuel i result) ≤ n
    unfolding walk
    length-walk zero i result h = h
    length-walk (suc fuel) i result h =
        let o = owner_at r (i % length r.sorted_keys) in
        elim (Bool-cases (leb n (length result))) [
          | inl enough ↦ rw enough h
          | inr fewer ↦
              let h' : length (add_new hash o result) ≤ n =
                ground (arith, length-add_new o result) in
              rw fewer (elim (Bool-cases (ltb (length r.sorted_keys) (i + 1 - idx))) [
                | inl round ↦ rw round h'
                | inr more ↦ rw more (length-walk fuel (i + 1) (add_new hash o result) h')
              ])
        ]

    -- What the walk has passed is in its result.
    abbrev pub Passed : ℕ → List String → Type 0
    Passed i result =
        (j : ℕ) (m : String)
        → idx ≤ j
        → j < i
        → owner_at r (j % length r.sorted_keys) ≡ some m
        → elem m result ≡ true

    -- With fuel for one round more than there are positions, the walk ends with `n` nodes or has
    -- passed every position.
    pub walk-Passed :
        (fuel i : ℕ) (result : List String)
        → idx ≤ i
        → length r.sorted_keys + 1 ≤ fuel + (i - idx)
        → Passed i result
        → (n ≤ length (walk hash r n idx fuel i result))
          ⊎ Passed (idx + length r.sorted_keys) (walk hash r n idx fuel i result)
    unfolding walk
    walk-Passed zero i result le enough h = inr (λ j m lo hi e. h j m lo (omega arith) e)
    walk-Passed (suc fuel) i result le enough h =
        let o = owner_at r (i % length r.sorted_keys) in
        let result' = add_new hash o result in
        let h' : Passed (i + 1) result' = λ j m lo hi e. elim (Bool-cases (j == i)) [
          | inl last ↦
              let same : j ≡ i = ground arith in
              let here : o ≡ some m =
                subst (λ t. owner_at r (t % length r.sorted_keys) ≡ some m) same e in
              subst (λ t. elem m (add_new hash t result) ≡ true) (sym here)
                (elem-add_new_self m result)
          | inr before ↦ elem-add_new m o result (h j m lo (ground arith) e)
        ] in
        elim (Bool-cases (leb n (length result))) [
          | inl reached ↦ rw reached (inl (ground arith))
          | inr fewer ↦ rw fewer (elim (Bool-cases (ltb (length r.sorted_keys) (i + 1 - idx))) [
            | inl round ↦ rw round (inr (λ j m lo hi e. h' j m lo (ground arith) e))
            | inr more ↦ rw more (walk-Passed fuel (i + 1) result' (omega arith) (omega arith) h')
          ])
        ]

    pub add_new-cons :
        (o : Option String) (x : String) (xs : List String)
        → (ys : List String) × (add_new hash o (x ∷ xs) ≡ x ∷ ys)
    unfolding add_new
    add_new-cons none x xs = (xs, refl)
    add_new-cons (some m) x xs = elim (Bool-cases (elem m (x ∷ xs))) [
      | inl old ↦ (xs, rw old)
      | inr new ↦ (xs ++ m ∷ [], rw new)
    ]

    -- The walk only appends.
    pub walk-cons :
        (fuel i : ℕ) (x : String) (xs : List String)
        → (ys : List String) × (walk hash r n idx fuel i (x ∷ xs) ≡ x ∷ ys)
    unfolding walk
    walk-cons zero i x xs = (xs, refl)
    walk-cons (suc fuel) i x xs =
        let o = owner_at r (i % length r.sorted_keys) in
        let (ys, e) = add_new-cons o x xs in
        elim (Bool-cases (leb n (length (x ∷ xs)))) [
          | inl reached ↦ (xs, rw reached)
          | inr fewer ↦ elim (Bool-cases (ltb (length r.sorted_keys) (i + 1 - idx))) [
            | inl round ↦ (ys, rw (fewer, round) e)
            | inr again ↦
                let (zs, e') = walk-cons fuel (i + 1) x ys in (zs, rw (fewer, again, e) e')
          ]
        ]
