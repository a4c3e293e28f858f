-- ===== src/Directory/Fetch.antt =====
-- `DirectoryClient.get`: which shard answers for a key.
use peer_cache.Base.{
  ◌≡◌, refl, ap, ◌∙◌, inl, inr, arith, String, Option, none, some, List, [], ◌∷◌, map, eq_ℕ,
  eq_string, ==_iff, elem, if◌then◌else◌, Option-cases,
}
use peer_cache.Base.Dict
use peer_cache.Base.Dict.{Dict, Unique, get_or-put}
use peer_cache.Types.{DataLocation}
use peer_cache.Directory.{
  Shard, Shards, Link, up, down, lost, on_get, ask, ask_node, write_results, start_results,
  try_candidates,
}

pub get_or-write_results {ℓ} :
    {A : Type ℓ} (f : String → A) (x : A) (g : List String) (d : Dict String A) (k : String)
    → Dict.get_or k (write_results g (map f g) d) x ≡ (if elem k g then f k else Dict.get_or k d x)
unfolding write_results
get_or-write_results f x [] d k = refl
get_or-write_results f x (j ∷ g) d k =
    get_or-write_results f x g (Dict.put j (f j) d) k
    ∙ ground (arith, get_or-put j k (f j) x d, ap f {x = j} {y = k}, ==_iff j k)

pub get_or-start_results {ℓ} :
    {A : Type ℓ} (x : A) (keys : List String) (d : Dict String A) (k : String)
    → Dict.get_or k d x ≡ x
    → Dict.get_or k (start_results x keys d) x ≡ x
unfolding start_results
get_or-start_results x [] d k h = h
get_or-start_results x (j ∷ keys) d k h =
    get_or-start_results x keys (Dict.put j x d) k (get_or-put j k x x d ∙ ground arith)

module _ (resolve : String → Option String) (link : String → Link) where
  abbrev served_by : Link → String → Option String
  served_by up ep = some ep
  served_by down ep = none
  served_by lost ep = none

  abbrev pub serves : Option String → Option String
  serves none = none
  serves (some ep) = served_by (link ep) ep

  abbrev first_of : Option String → Option String → Option String
  first_of none o = o
  first_of (some ep) o = some ep

  -- The endpoint of the first node of the list that answers.
  abbrev pub first_serving : List String → Option String
  first_serving [] = none
  first_serving (node ∷ rest) = first_of (serves (resolve node)) (first_serving rest)

  abbrev answer {ℓ} : {A : Type ℓ} → (Shard → A) → Shards → Option String → Option A
  answer f s none = none
  answer f s (some ep) = some (f (s ep))

  -- What the shard at an endpoint, if there is one, holds.
  abbrev pub held_at : Option String → Shards → String → Option DataLocation
  held_at none s k = none
  held_at (some ep) s k = Dict.get k (s ep)

  pub ask_node_lem {ℓ} :
      {A : Type ℓ} (node : String) (f : Shard → A) (s : Shards)
      → ask_node resolve link node f s ≡ answer f s (serves (resolve node))
  unfolding ask_node ask
  ask_node_lem node f s = elim (Option-cases (resolve node)) [
    | inl unknown ↦ rw (unknown, ask_node)
    | inr (ep, known) ↦ rw (known, ask_node) (by_link f s ep (link ep))
  ]
    where
      by_link :
          {A : Type ℓ} (f : Shard → A) (s : Shards) (ep : String) (l : Link)
          → elim l [ up ↦ some (f (s ep)) | lost ↦ none | down ↦ none ]
            ≡ answer f s (served_by l ep)
      by_link f s ep up = refl
      by_link f s ep down = refl
      by_link f s ep lost = refl

  pub try_candidates_lem :
      (nodes group : List String) (s : Shards)
      → try_candidates resolve link nodes group s ≡ map (held_at (first_serving nodes) s) group
  unfolding try_candidates on_get
  try_candidates_lem [] group s = refl
  try_candidates_lem (node ∷ rest) group s =
      let asked = ask_node_lem node (on_get group) s in
      elim (Option-cases (serves (resolve node))) [
        | inl silent ↦ rw (asked, silent, try_candidates) (try_candidates_lem rest group s)
        | inr (ep, found) ↦ rw (asked, found, try_candidates)
      ]
