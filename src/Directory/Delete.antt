-- ===== src/Directory/Delete.antt =====
-- `DirectoryClient.delete`: every owner that the call reaches forgets the key.
use peer_cache.Base.{
  ℕ, ◌≡◌, refl, sym, ap, ◌∙◌, arith, String, Option, none, Bool, List, [], ◌∷◌, ◌++◌, ◌&&◌, ◌||◌,
  ◌==◌, eq_ℕ, eq_string, ==_iff, elem, elem-append, any, any_of_elem, elem_of_any, if◌then◌else◌,
  and_intro, and_left, and_right, Bool-ext,
}
use peer_cache.Base.Dict
use peer_cache.Base.Dict.{Dict, Unique, get_or-put, get-remove, Unique-put}
use peer_cache.Directory.{
  Shard, Shards, Link, Client, on_delete, add_to_group, add_to_groups, owners, keys_per_node,
  send_to, send_deletes, delete,
}
use peer_cache.Directory.Reach.{reaches, send_to_at, touches, touches_of, of_touches}

pub get-on_delete :
    (k : String) (keys : List String) (s : Shard)
    → Dict.get k (on_delete keys s) ≡ (if elem k keys then none else Dict.get k s)
unfolding on_delete
get-on_delete k [] s = refl
get-on_delete k (j ∷ keys) s =
    ground (arith, get-on_delete k keys (Dict.remove j s), get-remove j k s)

abbrev pub Groups : Type 0
Groups = Dict String (List String)

pub elem-add_to_group :
    (owner k : String) (g : Groups) (o j : String)
    → elem j (Dict.get_or o (add_to_group owner k g) [])
      ≡ (elem j (Dict.get_or o g []) || (owner == o && k == j))
unfolding add_to_group
elem-add_to_group owner k g o j =
    ap (elem j) (get_or-put owner o (Dict.get_or owner g [] ++ k ∷ []) [] g)
    ∙ ground (
      arith,
      elem-append j (Dict.get_or owner g []) (k ∷ []),
      ap (λ t. Dict.get_or t g []) {x = owner} {y = o},
      ==_iff owner o,
    )

elem-add_to_groups :
    (os : List String) (k : String) (g : Groups) (o j : String)
    → elem j (Dict.get_or o (add_to_groups os k g) [])
      ≡ (elem j (Dict.get_or o g []) || (elem o os && k == j))
unfolding add_to_groups
elem-add_to_groups [] k g o j = ground arith
elem-add_to_groups (x ∷ os) k g o j =
    ground (arith, elem-add_to_groups os k (add_to_group x k g) o j, elem-add_to_group x k g o j)

pub add_to_group-Unique :
    (owner k : String) (g : Groups) → Unique g → Unique (add_to_group owner k g)
unfolding add_to_group
add_to_group-Unique owner k g u = Unique-put owner (Dict.get_or owner g [] ++ k ∷ []) g u

add_to_groups-Unique :
    (os : List String) (k : String) (g : Groups) → Unique g → Unique (add_to_groups os k g)
unfolding add_to_groups
add_to_groups-Unique [] k g u = u
add_to_groups-Unique (x ∷ os) k g u =
    add_to_groups-Unique os k (add_to_group x k g) (add_to_group-Unique x k g u)

module _ (hash : String → ℕ) (c : Client) where
  elem-keys_per_node :
      (keys : List String) (g : Groups) (o j : String)
      → elem j (Dict.get_or o (keys_per_node hash c keys g) [])
        ≡ (elem j (Dict.get_or o g []) || (elem j keys && elem o (owners hash c j)))
  unfolding keys_per_node
  elem-keys_per_node [] g o j = ground arith
  elem-keys_per_node (k ∷ keys) g o j = ground (
    arith,
    elem-keys_per_node keys (add_to_groups (owners hash c k) k g) o j,
    elem-add_to_groups (owners hash c k) k g o j,
    ap (λ t. elem o (owners hash c t)) {x = k} {y = j},
    ==_iff k j,
  )

  keys_per_node-Unique :
      (keys : List String) (g : Groups) → Unique g → Unique (keys_per_node hash c keys g)
  unfolding keys_per_node
  keys_per_node-Unique [] g u = u
  keys_per_node-Unique (k ∷ keys) g u =
      keys_per_node-Unique keys (add_to_groups (owners hash c k) k g)
        (add_to_groups-Unique (owners hash c k) k g u)

module _ (resolve : String → Option String) (link : String → Link) (k ep : String) where
  abbrev deletes : Groups → Bool
  deletes = touches resolve link (elem k) ep

  get-send_deletes :
      (g : Groups) (s : Shards)
      → Dict.get k (send_deletes resolve link g s ep)
        ≡ (if deletes g then none else Dict.get k (s ep))
  unfolding send_deletes
  get-send_deletes [] s = refl
  get-send_deletes ((node, keys) ∷ rest) s =
      let s' = send_to resolve link node (on_delete keys) s in
      get-send_deletes rest s'
      ∙ rw (send_to_at resolve link node ep (on_delete keys) s)
          (ground (arith, get-on_delete k keys (s ep)))

module _ (hash : String → ℕ) (c : Client) (resolve : String → Option String) (link : String → Link)
    (k ep : String) (keys : List String) where
  abbrev groups : Groups
  groups = keys_per_node hash c keys []

  deletes-groups :
      deletes resolve link k ep groups
      ≡ (elem k keys && any (λ o. reaches resolve link o ep) (owners hash c k))
  unfolding Dict.get_or Dict.get
  deletes-groups =
      let at = λ (o : String). elem-keys_per_node hash c keys [] o k in
      Bool-ext _ _
        (λ h.
          let (o, r, found) =
            of_touches resolve link (elem k) ep [] refl groups
              (keys_per_node-Unique hash c keys [] tt) h in
          let here = sym (at o) ∙ found in
          and_intro (and_left _ _ here) (
            any_of_elem (λ n. reaches resolve link n ep) o (owners hash c k) (and_right _ _ here)
              r))
        (λ h.
          let (o, m, r) =
            elem_of_any (λ n. reaches resolve link n ep) (owners hash c k) (and_right _ _ h) in
          touches_of resolve link (elem k) ep [] refl groups o r
            (at o ∙ and_intro (and_left _ _ h) m))

  -- After a delete the shard at an endpoint does not hold a key that is listed and of which the
  -- call to one of the owners is served there; of every other key it holds what it held before.
  pub shard-delete :
      (s : Shards)
      → Dict.get k (delete hash resolve link c keys s ep) ≡ (
          if elem k keys && any (λ o. reaches resolve link o ep) (owners hash c k)
          then none
          else Dict.get k (s ep))
  unfolding delete
  shard-delete s =
      get-send_deletes resolve link k ep groups s
      ∙ ap (λ b. if b then none else Dict.get k (s ep)) deletes-groups
