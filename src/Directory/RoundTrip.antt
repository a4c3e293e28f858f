-- ===== src/Directory/RoundTrip.antt =====
-- A location that was published is found again, and where a batched read falls short of that.
use peer_cache.Base.{
  ℕ, zero, suc, ◌≡◌, ◌<◌, refl, sym, ap, ◌∙◌, inl, inr, arith, String, Option, none, some, Bool,
  true, List, [], ◌∷◌, map, ◌&&◌, eq_ℕ, eq_string, ==_iff, ==_refl, elem, any_of_elem, get_elem?,
  ltb, if◌then◌else◌, Bool-cases,
}
use peer_cache.Base.Dict
use peer_cache.Base.Dict.{Dict, Unique}
use peer_cache.Types.{DataLocation}
use peer_cache.Directory.{
  Shards, Link, up, Client, owners, first_owner, primary, candidates, put, get,
}
use peer_cache.Directory.Reach.{reaches}
use peer_cache.Directory.Publish.{shard-put}
use peer_cache.Directory.Fetch.{first_serving, held_at}
use peer_cache.Directory.Lookup.{same_primary, primary_of_same, source, answer, get-candidates}

get_elem?-map {ℓ κ} :
    {A : Type ℓ} {B : Type κ} (f : A → B) (xs : List A) (i : ℕ) (x : A)
    → get_elem? xs i ≡ some x
    → get_elem? (map f xs) i ≡ some (f x)
get_elem?-map f [] i x h = absurd (cc)
get_elem?-map f (y ∷ ys) zero x h = ground (arith, ap f {x = y} {y = x})
get_elem?-map f (y ∷ ys) (suc i) x h = get_elem?-map f ys i x h

some_inj : {x y : String} → some x ≡ some y → x ≡ y
some_inj h = cc

elem_of_get_elem? :
    (keys : List String) (i : ℕ) (k : String) → get_elem? keys i ≡ some k → elem k keys ≡ true
elem_of_get_elem? [] i k h = absurd (cc)
elem_of_get_elem? (j ∷ keys) zero k h = ground (arith, ==_iff j k)
elem_of_get_elem? (j ∷ keys) (suc i) k h = ground (arith, elem_of_get_elem? keys i k h)

ltb-true : {a b : ℕ} → a < b → ltb a b ≡ true
ltb-true h = ground arith

module _ (hash : String → ℕ) (c : Client) where
  owners-primary :
      (k o : String)
      → primary hash c k ≡ some o
      → (rest : List String) × (owners hash c k ≡ o ∷ rest)
  unfolding primary
  owners-primary k o p = split (owners hash c k) refl
    where
      split :
          (os : List String)
          → owners hash c k ≡ os
          → (rest : List String) × (owners hash c k ≡ o ∷ rest)
      split [] e = absurd (cc (ap first_owner e, p))
      split (x ∷ rest) e = (rest, e ∙ ap (λ t. t ∷ rest) (some_inj (sym (ap first_owner e) ∙ p)))

  -- The candidates for a group start with its primary owner.
  candidates-primary :
      (o k : String) (keys : List String)
      → elem k keys ≡ true
      → primary hash c k ≡ some o
      → (rest : List String) × (candidates hash c (same_primary hash c o keys) o ≡ o ∷ rest)
  unfolding candidates
  candidates-primary o k keys m p = split (same_primary hash c o keys) refl
    where
      split :
          (g : List String)
          → same_primary hash c o keys ≡ g
          → (rest : List String) × (candidates hash c g o ≡ o ∷ rest)
      split [] e = ([], refl)
      split (j ∷ g) e = elim (Bool-cases (ltb 1 c.replicas)) [
        | inr single ↦ ([], rw single)
        | inl many ↦
            let first : elem j (same_primary hash c o keys) ≡ true =
              ap (elem j) e ∙ ground (arith, ==_iff j j) in
            let (rest, owned) = owners-primary j o (primary_of_same hash c j o keys first) in
            (rest, rw many owned)
      ]

has_of_get :
    (k : String) (d : Dict String DataLocation) {l : DataLocation}
    → Dict.get k d ≡ some l
    → Dict.has k d ≡ true
unfolding Dict.has
has_of_get k d h = ground arith

if_both :
    {a b : Bool} {x z : Option DataLocation} (y : Option DataLocation)
    → a ≡ true
    → b ≡ true
    → x ≡ z
    → (if a && b then x else y) ≡ z
if_both y h k e = ground arith

module _ (hash : String → ℕ) (resolve : String → Option String) (link : String → Link) (c : Client)
    (keys : List String) (i : ℕ) (k o ep : String) (listed : get_elem? keys i ≡ some k)
    (owned : primary hash c k ≡ some o) (known : resolve o ≡ some ep) (answers : link ep ≡ up) where
  -- While the primary owner of a key answers, a batched read gives what its shard holds.
  pub get_primary_up :
      (s : Shards) → get_elem? (get hash resolve link c keys s) i ≡ some (Dict.get k (s ep))
  get_primary_up s =
      let (rest, cs) =
        candidates-primary hash c o k keys (elem_of_get_elem? keys i k listed) owned in
      let from : source hash resolve link c s o (same_primary hash c o keys) ≡ some ep =
        rw cs (rw known (rw answers)) in
      rw (get-candidates hash resolve link c s keys) (
        get_elem?-map (answer hash resolve link c s keys) keys i k listed
        ∙ ap some (rw owned (ap (λ e. held_at resolve link e s k) from)))

  -- A location that is published, in entries with distinct keys, while the primary owner of its
  -- key is known and answers, is what a read returns for the key afterwards, whatever else is
  -- read with it.
  pub get-put :
      (entries : Dict String DataLocation) (l : DataLocation) (s : Shards)
      → Unique entries
      → Dict.get k entries ≡ some l
      → get_elem? (get hash resolve link c keys (put hash resolve link c entries s)) i
        ≡ some (some l)
  get-put entries l s u published =
      get_primary_up (put hash resolve link c entries s) ∙ ap some stored
    where
      owner : elem o (owners hash c k) ≡ true
      owner =
          let (rest, e) = owners-primary hash c k o owned in
          ap (elem o) e ∙ ground (arith, ==_refl o)

      served_here : reaches resolve link o ep ≡ true
      served_here = rw known (rw answers (ground (arith, ==_refl ep)))

      stored : Dict.get k (put hash resolve link c entries s ep) ≡ some l
      stored =
          shard-put hash c resolve link k ep entries u s
          ∙ if_both _ (has_of_get k entries published)
              (any_of_elem (λ n. reaches resolve link n ep) o (owners hash c k) owner served_here)
              published

module _ (hash : String → ℕ) (resolve : String → Option String) (link : String → Link) (c : Client)
    (j k o ep ep' : String) (l : DataLocation) (s : Shards) (replicated : 1 < c.replicas)
    (j_owned : primary hash c j ≡ some o) (k_owned : primary hash c k ≡ some o)
    (j_source : first_serving resolve link (owners hash c j) ≡ some ep)
    (k_source : first_serving resolve link (owners hash c k) ≡ some ep')
    (missing : Dict.get k (s ep) ≡ none) (present : Dict.get k (s ep') ≡ some l) where
  read_alone :
      (x : String) (e : String)
      → primary hash c x ≡ some o
      → first_serving resolve link (owners hash c x) ≡ some e
      → (rest : List String)
      → source hash resolve link c s o (same_primary hash c o (x ∷ rest)) ≡ some e
  unfolding candidates
  read_alone x e p f rest = rw (p, ==_refl o, ltb-true replicated) f

  answered_there :
      (x e y : String)
      → primary hash c x ≡ some o
      → first_serving resolve link (owners hash c x) ≡ some e
      → (rest : List String) → primary hash c y ≡ some o
      → answer hash resolve link c s (x ∷ rest) y ≡ Dict.get y (s e)
  answered_there x e y p f rest q = rw (q, read_alone x e p f rest) refl

  -- With more than one replica, for two keys of the same primary owner: where the first node that
  -- answers of the first key's owners does not hold the second key, a read of both misses the
  -- second, although a read of the second alone finds what its own first owner that answers holds.
  pub batch_misses :
      (get hash resolve link c (j ∷ k ∷ []) s ≡ Dict.get j (s ep) ∷ none ∷ [])
      × (get hash resolve link c (k ∷ []) s ≡ some l ∷ [])
  batch_misses = (
    rw (get-candidates hash resolve link c s (j ∷ k ∷ [])) (
        rw
          (
            answered_there j ep j j_owned j_source (k ∷ []) j_owned,
            answered_there j ep k j_owned j_source (k ∷ []) k_owned,
            missing,
          )
          refl),
    rw (get-candidates hash resolve link c s (k ∷ []))
        (rw (answered_there k ep' k k_owned k_source [] k_owned, present) refl),
  )
