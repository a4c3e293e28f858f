-- ===== src/Directory/Owners.antt =====
-- `DirectoryClient.get` against a description by the owners of the keys.
use peer_cache.Base.{
  ℕ, ◌≡◌, refl, sym, ap, ◌∙◌, inl, inr, arith, String, Option, none, some, Bool, true, false, List,
  [], ◌∷◌, map, ◌==◌, eq_ℕ, eq_string, ==_refl, elem, map-ext_elem, if◌then◌else◌, Bool-cases, ltb,
  of_some, and_intro,
}
use peer_cache.Types.{DataLocation}
use peer_cache.Ring.{get_nodes, get_nodes_on, get_node}
use peer_cache.Directory.{
  Shards, Link, Client, owners, one_owner, first_owner, primary, candidates, get,
}
use peer_cache.Directory.Fetch.{first_serving, held_at}
use peer_cache.Directory.Lookup.{
  is_primary, same_primary, elem-same_primary, answer, answer_by, get-candidates, of_is_primary,
}

module _ (hash : String → ℕ) (c : Client) where
  no_nodes : (key : String) → get_nodes hash c.ring key 0 ≡ []
  unfolding get_nodes
  no_nodes key = on c.ring.sorted_keys
    where
      on : (l : List ℕ) → get_nodes_on hash c.ring key 0 l ≡ []
      on [] = refl
      on (x ∷ xs) = refl

  one_owner-first :
      (n : Option String) (o : String) → first_owner (one_owner n) ≡ some o → one_owner n ≡ o ∷ []
  unfolding one_owner first_owner
  one_owner-first none o = λ e. absurd (cc)
  one_owner-first (some n) o = elim (Bool-cases (n == "")) [
    | inl unnamed ↦ rw unnamed (λ e. absurd (cc))
    | inr named ↦ rw named (λ e. ap (λ x. x ∷ []) (of_some e))
  ]

  candidates-owners :
      (o k : String) (group : List String)
      → primary hash c k ≡ some o
      → candidates hash c (k ∷ group) o ≡ owners hash c k
  unfolding candidates primary owners
  candidates-owners o k group = elim (Bool-cases (ltb 1 c.replicas)) [
    | inl many ↦ rw many (λ e. refl)
    | inr few ↦ elim (Bool-cases (c.replicas == 1)) [
      | inl one ↦ rw (few, one) (λ e. sym (one_owner-first (get_node hash c.ring k) o e))
      | inr other ↦
          let zero : c.replicas ≡ 0 = ground arith in
          let empty = ap (get_nodes hash c.ring k) zero ∙ no_nodes k in
          rw (few, other, empty) (λ e. absurd (cc))
    ]
  ]

  abbrev starts : String → List String → Bool
  starts o [] = false
  starts o (p ∷ ps) = p == o

  is_primary-starts :
      (k o : String) → is_primary hash c (primary hash c k) o ≡ starts o (owners hash c k)
  unfolding primary first_owner
  is_primary-starts k o = on (owners hash c k)
    where
      on : (l : List String) → is_primary hash c (first_owner l) o ≡ starts o l
      on [] = refl
      on (p ∷ ps) = refl

  -- The owners of the first of the keys whose owners start with `o`.
  abbrev pub owners_alike : String → List String → List String
  owners_alike o [] = []
  owners_alike o (k ∷ keys) =
      if starts o (owners hash c k) then owners hash c k else owners_alike o keys

  candidates-alike :
      (o k : String) (keys : List String)
      → elem k (same_primary hash c o keys) ≡ true
      → candidates hash c (same_primary hash c o keys) o ≡ owners_alike o keys
  candidates-alike o k [] = λ m. absurd (cc)
  candidates-alike o k (j ∷ keys) = elim (Bool-cases (is_primary hash c (primary hash c j) o)) [
    | inl mine ↦
        rw (mine, sym (is_primary-starts j o) ∙ mine)
          (λ m.
            candidates-owners o j (same_primary hash c o keys)
              (of_is_primary hash c (primary hash c j) o mine))
    | inr other ↦ rw (other, sym (is_primary-starts j o) ∙ other) (λ m. candidates-alike o k keys m)
  ]

module _ (hash : String → ℕ) (resolve : String → Option String) (link : String → Link) (c : Client)
    (s : Shards) where
  -- What a key with these owners is told when it is read with `keys`.
  abbrev pub told_by : List String → List String → String → Option DataLocation
  told_by [] keys k = none
  told_by (o ∷ os) keys k =
      held_at resolve link (first_serving resolve link (owners_alike hash c o keys)) s k

  abbrev pub told : List String → String → Option DataLocation
  told keys k = told_by (owners hash c k) keys k

  answer-told :
      (keys : List String) (k : String)
      → elem k keys ≡ true
      → answer hash resolve link c s keys k ≡ told keys k
  unfolding primary first_owner
  answer-told keys k m = on (owners hash c k) refl
    where
      on :
          (l : List String)
          → owners hash c k ≡ l
          → answer_by hash resolve link c s (first_owner l) keys k ≡ told_by l keys k
      on [] e = refl
      on (o ∷ os) e =
          let owned : primary hash c k ≡ some o = ap first_owner e in
          let within : elem k (same_primary hash c o keys) ≡ true =
            elem-same_primary hash c k o keys
            ∙ and_intro m (ap (λ p. is_primary hash c p o) owned ∙ ==_refl o) in
          ap (λ cs. held_at resolve link (first_serving resolve link cs) s k)
            (candidates-alike hash c o k keys within)

  -- `get` answers for the keys in order. A key without owners is told None. Any other key is told
  -- what the shard holds for it at the first node that answers, out of the owners, in order, of the
  -- first listed key with the same first owner; and None where none of them answers.
  pub get_lem : (keys : List String) → get hash resolve link c keys s ≡ map (told keys) keys
  get_lem keys =
      get-candidates hash resolve link c s keys
      ∙ map-ext_elem (answer hash resolve link c s keys) (told keys) keys
          (λ k m. answer-told keys k m)
