-- ===== src/Ring/Lookup.antt =====
-- `get_node` against its description: the owner of the first position clockwise.
use peer_cache.Base.{
  ℕ, ◌≤◌, ◌<◌, String, none, some, Bool, true, false, List, [], ◌∷◌, ◌≡◌, refl, sym, ap, subst, ◌∙◌,
  ne_of_nat_eq, nat_eq_iff, ◌⊎◌, inl, inr, arith, ◌==◌, eq_ℕ, eq_string, ==_iff, elem, length,
  get_elem?, Bool-cases, if◌then◌else◌,
}
use peer_cache.Base.Dict
use peer_cache.Ring.{Ring, bisect, owner_at, get_node_on, get_node}
use peer_cache.Ring.Sorted.{IsSorted, bisect-le, bisect_found, bisect_end}
use peer_cache.Ring.Invariant.{IsValid}

-- `p` is the first of the positions `on` that lies clockwise of `h`: the least one above `h`, or
-- the least of all where none is above.
pub record IsNext (on : ℕ → Bool) (h p : ℕ) : Type 0 where
  pub here : on p ≡ true
  pub first :
      ((h < p) × ((q : ℕ) → on q ≡ true → h < q → p ≤ q))
      ⊎ (((q : ℕ) → on q ≡ true → q ≤ h) × ((q : ℕ) → on q ≡ true → p ≤ q))

pub IsNext-unique : (on : ℕ → Bool) (h p p' : ℕ) → IsNext on h p → IsNext on h p' → p ≡ p'
IsNext-unique on h p p' a b = elim a.first [
  | inl (above, least) ↦ elim b.first [
    | inl (above', least') ↦ omega (arith, least p' b.here above', least' p a.here above)
    | inr (below', least') ↦ absurd (omega (arith, below' p a.here))
  ]
  | inr (below, least) ↦ elim b.first [
    | inl (above', least') ↦ absurd (omega (arith, below p' b.here))
    | inr (below', least') ↦ omega (arith, least p' b.here, least' p a.here)
  ]
]

-- Fewer positions: the first one stays the first one if it stays.
pub IsNext-restrict :
    (on on' : ℕ → Bool) (h p : ℕ)
    → ((q : ℕ) → on' q ≡ true → on q ≡ true)
    → on' p ≡ true
    → IsNext on h p
    → IsNext on' h p
IsNext-restrict on on' h p fewer stays a = record {
  here = stays;
  first = elim a.first [
    | inl (above, least) ↦ inl (above, λ q m. least q (fewer q m))
    | inr (below, least) ↦ inr ((λ q m. below q (fewer q m)), λ q m. least q (fewer q m))
  ];
}

abbrev pub on_ring : Ring → ℕ → Bool
on_ring r q = Dict.has q r.ring

has-some :
    (r : Ring) (q : ℕ) → Dict.has q r.ring ≡ true → (n : String) × (Dict.get q r.ring ≡ some n)
unfolding Dict.has
has-some r q h = ground arith

module _ (hash : String → ℕ) (key : String) where
  -- What `get_node` must return.
  pub record Owns (r : Ring) (node : String) : Type 0 where
    pub position : ℕ
    pub next : IsNext (on_ring r) (hash key) position
    pub owner : Dict.get position r.ring ≡ some node

  found_by :
      (r : Ring) (i p : ℕ)
      → get_elem? r.sorted_keys i ≡ some p
      → IsNext (on_ring r) (hash key) p
      → (node : String) × (owner_at r i ≡ some node) × Owns r node
  unfolding owner_at
  found_by r i p e next =
      let (node, owner) = has-some r p next.here in
      (node, rw (e, owner_at) owner, record { position = p; next = next; owner = owner })

  at_start :
      (r : Ring) (x : ℕ) (xs : List ℕ)
      → r.sorted_keys ≡ x ∷ xs
      → (b : Bool) → (bisect r.sorted_keys (hash key) == length r.sorted_keys) ≡ b
      → get_node hash r key ≡ owner_at r (if b then 0 else bisect r.sorted_keys (hash key))
  unfolding get_node
  at_start r x xs e b h =
      ap (get_node_on hash r key) e
      ∙ ap (λ t. owner_at r (if t then 0 else bisect r.sorted_keys (hash key))) h

  get_node_cons :
      (r : Ring) (x : ℕ) (xs : List ℕ)
      → r.sorted_keys ≡ x ∷ xs
      → IsValid hash r
      → (node : String) × (get_node hash r key ≡ some node) × Owns r node
  get_node_cons r x xs e v =
      let h = hash key in
      let ks = r.sorted_keys in
      let s : IsSorted (x ∷ xs) = subst IsSorted e v.ordered in
      let to = λ (q : ℕ). ap (elem q) (sym e) ∙ v.complete q in
      elim (Bool-cases (bisect ks h == length ks)) [
        | inl end ↦
            let below = bisect_end ks h ((nat_eq_iff _ _).0 end) in
            let (node, got, owns) = found_by r 0 x (ap (λ l. get_elem? l 0) e) (record {
              here = sym (to x) ∙ ground (arith, ==_iff x x);
              first = inr (
                (λ q m. below q (v.complete q ∙ m)),
                λ q m. ground (arith, to q, s.0 q, ==_iff x q),
              );
            }) in
            (node, at_start r x xs e true end ∙ got, owns)
        | inr stop ↦
            let (p, at, within, above, least) =
              bisect_found ks h v.ordered (omega (arith, bisect-le ks h, ne_of_nat_eq stop)) in
            let (node, got, owns) = found_by r (bisect ks h) p at (record {
              here = sym (v.complete p) ∙ within;
              first = inl (above, λ q m. least q (v.complete q ∙ m));
            }) in
            (node, at_start r x xs e false stop ∙ got, owns)
      ]

  -- On a ring that has a position, `get_node` returns the owner of the first position clockwise
  -- of the key's hash; on a ring that has none, it returns None.
  pub get_node_lem :
      (r : Ring)
      → IsValid hash r
      → ((get_node hash r key ≡ none) × ((q : ℕ) → on_ring r q ≡ false))
        ⊎ ((node : String) × (get_node hash r key ≡ some node) × Owns r node)
  unfolding get_node
  get_node_lem r v = split r.sorted_keys refl
    where
      split :
          (l : List ℕ)
          → r.sorted_keys ≡ l
          → ((get_node hash r key ≡ none) × ((q : ℕ) → on_ring r q ≡ false))
            ⊎ ((node : String) × (get_node hash r key ≡ some node) × Owns r node)
      split [] e = inl (ap (get_node_on hash r key) e, λ q. sym (v.complete q) ∙ ap (elem q) e)
      split (x ∷ xs) e = inr (get_node_cons r x xs e v)
