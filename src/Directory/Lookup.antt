-- ===== src/Directory/Lookup.antt =====
-- `DirectoryClient.get` and `exists` against a description key by key.
use peer_cache.Base.{
  ℕ, ◌≡◌, refl, sym, ap, subst, ◌∙◌, inl, inr, arith, String, Option, none, some, Bool, true, false,
  List, [], ◌∷◌, ◌++◌, append_assoc, append-nil, map, ◌&&◌, ◌==◌, eq_ℕ, eq_string, ==_iff, ==_refl,
  str_eq_iff, elem, map-ext_elem, and_intro, and_right, All, if◌then◌else◌, Bool-cases,
  Option-cases,
}
use peer_cache.Base.Dict
use peer_cache.Base.Dict.{
  Dict, Unique, get_or-put, get_or-nil, get_or-cons, All-entries, get-get_or,
}
use peer_cache.Types.{DataLocation}
use peer_cache.Directory.{
  Shards, Link, Client, add_to_group, group_key, write_results, read_results, start_results,
  primary, group_by_owner, candidates, get_from_owner, get_groups, get,
}
use peer_cache.Directory.Delete.{Groups, add_to_group-Unique}
use peer_cache.Directory.Fetch.{
  get_or-write_results, get_or-start_results, first_serving, held_at, try_candidates_lem,
}

module _ (hash : String → ℕ) (c : Client) where
  abbrev pub is_primary : Option String → String → Bool
  is_primary none o = false
  is_primary (some p) o = p == o

  -- The listed keys whose primary owner is `o`, in order.
  abbrev pub same_primary : String → List String → List String
  same_primary o [] = []
  same_primary o (k ∷ keys) =
      if is_primary (primary hash c k) o then k ∷ same_primary o keys else same_primary o keys

  get_or-group_key :
      (k : String) (p : Option String) (g : Groups) (o : String)
      → Dict.get_or o (group_key k p g) []
        ≡ (if is_primary p o then Dict.get_or o g [] ++ k ∷ [] else Dict.get_or o g [])
  unfolding group_key add_to_group
  get_or-group_key k none g o = refl
  get_or-group_key k (some p) g o =
      get_or-put p o (Dict.get_or p g [] ++ k ∷ []) [] g
      ∙ ground (arith, ap (λ t. Dict.get_or t g [] ++ k ∷ []) {x = p} {y = o}, str_eq_iff p o)

  get_or-group_by_owner :
      (keys : List String) (g : Groups) (o : String)
      → Dict.get_or o (group_by_owner hash c keys g) [] ≡ Dict.get_or o g [] ++ same_primary o keys
  unfolding group_by_owner
  get_or-group_by_owner [] g o = sym (append-nil _)
  get_or-group_by_owner (k ∷ keys) g o =
      let g' = group_key k (primary hash c k) g in
      elim (Bool-cases (is_primary (primary hash c k) o)) [
        | inl mine ↦
            get_or-group_by_owner keys g' o
            ∙ rw (get_or-group_key k (primary hash c k) g o, mine) (append_assoc _ (k ∷ []) _)
        | inr other ↦
            get_or-group_by_owner keys g' o ∙ rw (get_or-group_key k (primary hash c k) g o, other)
      ]

  group_key-Unique :
      (k : String) (p : Option String) (g : Groups) → Unique g → Unique (group_key k p g)
  unfolding group_key
  group_key-Unique k none g u = u
  group_key-Unique k (some p) g u = add_to_group-Unique p k g u

  group_by_owner-Unique :
      (keys : List String) (g : Groups) → Unique g → Unique (group_by_owner hash c keys g)
  unfolding group_by_owner
  group_by_owner-Unique [] g u = u
  group_by_owner-Unique (k ∷ keys) g u =
      group_by_owner-Unique keys (group_key k (primary hash c k) g)
        (group_key-Unique k (primary hash c k) g u)

  pub elem-same_primary :
      (k o : String) (keys : List String)
      → elem k (same_primary o keys) ≡ (elem k keys && is_primary (primary hash c k) o)
  elem-same_primary k o [] = refl
  elem-same_primary k o (j ∷ keys) = ground (
    arith,
    elem-same_primary k o keys,
    ap (λ t. is_primary (primary hash c t) o) {x = j} {y = k},
    str_eq_iff j k,
  )

  pub of_is_primary : (p : Option String) (o : String) → is_primary p o ≡ true → p ≡ some o
  of_is_primary none o e = absurd (cc)
  of_is_primary (some p) o e = ap some ((str_eq_iff p o).0 e)

  pub primary_of_same :
      (k o : String) (keys : List String)
      → elem k (same_primary o keys) ≡ true
      → primary hash c k ≡ some o
  primary_of_same k o keys m =
      of_is_primary (primary hash c k) o (and_right _ _ (sym (elem-same_primary k o keys) ∙ m))

module _ (hash : String → ℕ) (resolve : String → Option String) (link : String → Link) (c : Client)
    (s : Shards) where
  -- Where the group of an owner is read.
  abbrev pub source : String → List String → Option String
  source o group = first_serving resolve link (candidates hash c group o)

  abbrev In : String → Groups → Type 0
  In k g = All (λ e. elem k e.1 ≡ false) g

  -- Every key of a group has the group's node as primary owner.
  abbrev Sorted : Groups → Type 0
  Sorted g = All (λ e. (k : String) → elem k e.1 ≡ true → primary hash c k ≡ some e.0) g

  step_groups :
      (o : String) (group : List String) (r : Dict String (Option DataLocation)) (k : String)
      → Dict.get_or k (write_results group (get_from_owner hash resolve link c group o s) r) none
        ≡ (if elem k group then held_at resolve link (source o group) s k else Dict.get_or k r none)
  unfolding get_from_owner
  step_groups o group r k =
      rw (try_candidates_lem resolve link (candidates hash c group o) group s)
        (get_or-write_results (held_at resolve link (source o group) s) none group r k)

  get_groups-others :
      (g : Groups) (r : Dict String (Option DataLocation)) (k : String)
      → In k g
      → Dict.get_or k (get_groups hash resolve link c g s r) none ≡ Dict.get_or k r none
  unfolding get_groups
  get_groups-others [] r k h = refl
  get_groups-others ((o, group) ∷ g) r k h =
      get_groups-others g (write_results group (get_from_owner hash resolve link c group o s) r) k
        h.1
      ∙ step_groups o group r k
      ∙ ground (arith, h.0)

  others_absent :
      (g : Groups) (o k : String)
      → Dict.get o g ≡ none
      → Sorted g
      → primary hash c k ≡ some o
      → In k g
  unfolding Dict.get
  others_absent [] o k u w p = tt
  others_absent ((n, group) ∷ g) o k u w p = (
    (elim (Bool-cases (elem k group)) [
      | inr out ↦ out
      | inl within ↦ absurd (cc_same n o k group g u (w.0 k within) p)
    ]),
    others_absent g o k (ground arith) w.1 p,
  )
    where
      cc_same :
          (n o k : String) (group : List String) (g : Groups)
          → Dict.get o ((n, group) ∷ g) ≡ none
          → primary hash c k ≡ some n
          → primary hash c k ≡ some o
          → ⊥
      cc_same n o k group g u a b = ground (arith, ==_iff n o)

  get_groups-own :
      (g : Groups) (r : Dict String (Option DataLocation)) (k o : String) (group : List String)
      → Unique g
      → Sorted g
      → primary hash c k ≡ some o
      → Dict.get_or o g [] ≡ group
      → elem k group ≡ true
      → Dict.get_or k (get_groups hash resolve link c g s r) none
        ≡ held_at resolve link (source o group) s k
  unfolding get_groups
  get_groups-own [] r k o group u w p e m =
      absurd (cc (ap (elem k) (get_or-nil {V = List String} o []), ap (elem k) e, m))
  get_groups-own ((n, first) ∷ g) r k o group u w p e m =
      let r' = write_results first (get_from_owner hash resolve link c first n s) r in
      let at = get_or-cons o n first [] g in
      elim (Bool-cases (n == o)) [
        | inl same ↦
            let eo = (str_eq_iff n o).0 same in
            let here : first ≡ group = ground (arith, at, e) in
            let missing : Dict.get o g ≡ none = subst (λ t. Dict.get t g ≡ none) eo u.0 in
            get_groups-others g r' k (others_absent g o k missing w.1 p)
            ∙ step_groups n first r k
            ∙ rw (here, eo, m) refl
        | inr other ↦ get_groups-own g r' k o group u.1 w.1 p (ground (arith, at, e)) m
      ]

  -- How `get` answers for a key that is read with `keys`: from the first node that answers, of
  -- the owners of the first of `keys` that has the same primary owner.
  abbrev pub answer_by : Option String → List String → String → Option DataLocation
  answer_by none keys k = none
  answer_by (some o) keys k = held_at resolve link (source o (same_primary hash c o keys)) s k

  abbrev pub answer : List String → String → Option DataLocation
  answer keys k = answer_by (primary hash c k) keys k

  module _ (keys : List String) where
    abbrev groups : Groups
    groups = group_by_owner hash c keys []

    in_group :
        (o : String) (group : List String)
        → Dict.get o groups ≡ some group
        → group ≡ same_primary hash c o keys
    in_group o group h =
        sym (get-get_or o group [] groups h)
        ∙ get_or-group_by_owner hash c keys [] o
        ∙ ap (λ t. t ++ same_primary hash c o keys) (get_or-nil {V = List String} o [])

    primary_in_group :
        (o k : String) (group : List String)
        → Dict.get o groups ≡ some group
        → elem k group ≡ true
        → primary hash c k ≡ some o
    primary_in_group o k group h m =
        primary_of_same hash c k o keys (ap (elem k) (sym (in_group o group h)) ∙ m)

    groups-Sorted : Sorted groups
    groups-Sorted =
        All-entries (λ o group. (k : String) → elem k group ≡ true → primary hash c k ≡ some o)
          groups (group_by_owner-Unique hash c keys [] tt)
          (λ o group h k m. primary_in_group o k group h m)

    homeless_absent : (k : String) → primary hash c k ≡ none → In k groups
    homeless_absent k p =
        All-entries (λ o group. elem k group ≡ false) groups
          (group_by_owner-Unique hash c keys [] tt)
          (λ o group h. elim (Bool-cases (elem k group)) [
            | inr out ↦ out
            | inl within ↦ cc (primary_in_group o k group h within, p)
          ])

    -- In terms of what `candidates` returns.
    pub get-candidates : get hash resolve link c keys s ≡ map (answer keys) keys
    unfolding get read_results
    get-candidates =
        let start = start_results none keys [] in
        map-ext_elem (λ k. Dict.get_or k (get_groups hash resolve link c groups s start) none)
          (answer keys) keys
          (λ k m. elim (Option-cases (primary hash c k)) [
            | inl homeless ↦
                get_groups-others groups start k (homeless_absent k homeless)
                ∙ get_or-start_results none keys [] k (get_or-nil k none)
                ∙ ap (λ p. answer_by p keys k) (sym homeless)
            | inr (o, owned) ↦
                let at =
                  get_or-group_by_owner hash c keys [] o
                  ∙ ap (λ t. t ++ same_primary hash c o keys) (get_or-nil {V = List String} o []) in
                let within : elem k (same_primary hash c o keys) ≡ true =
                  elem-same_primary hash c k o keys
                  ∙ and_intro m (ap (λ p. is_primary hash c p o) owned ∙ ==_refl o) in
                get_groups-own groups start k o (same_primary hash c o keys)
                  (group_by_owner-Unique hash c keys [] tt) groups-Sorted owned at within
                ∙ ap (λ p. answer_by p keys k) (sym owned)
          ])
