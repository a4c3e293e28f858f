-- ===== src/Directory/Publish.antt =====
-- `DirectoryClient.put`: every owner that the call reaches holds the published location.
use peer_cache.Base.{
  ℕ, ◌≡◌, refl, sym, ap, subst, ◌∙◌, inl, inr, arith, String, Option, none, some, Bool, true, false,
  List, [], ◌∷◌, ◌&&◌, ◌==◌, eq_ℕ, eq_string, ==_iff, str_eq_iff, elem, any, if◌then◌else◌,
  Bool-cases, Bool-ext, any_of_elem, elem_of_any, and_intro, and_left, and_right,
}
use peer_cache.Base.Dict
use peer_cache.Base.Dict.{Dict, Unique, get-put, get_or-put, Unique-put, All-entries, get-get_or}
use peer_cache.Types.{DataLocation}
use peer_cache.Directory.{
  Shards, Link, Client, add_entry, owners, add_entries, entries_per_node, put,
}
use peer_cache.Directory.Reach.{reaches, touches_of, of_touches}
use peer_cache.Directory.Put.{puts, Tells, get-send_puts}

abbrev PerNode : Type 0
PerNode = Dict String (Dict String DataLocation)

-- What `per_node` says of a key at a node.
abbrev entry : String → String → PerNode → Option DataLocation
entry o k d = Dict.get k (Dict.get_or o d [])

entry-add_entry :
    (owner k : String) (l : DataLocation) (d : PerNode) (o j : String)
    → entry o j (add_entry owner k l d) ≡ (if owner == o && k == j then some l else entry o j d)
unfolding add_entry
entry-add_entry owner k l d o j =
    ap (Dict.get j) (get_or-put owner o (Dict.put k l (Dict.get_or owner d [])) [] d)
    ∙ ground (
      arith,
      get-put k j l (Dict.get_or owner d []),
      ap (λ t. Dict.get_or t d []) {x = owner} {y = o},
      ==_iff owner o,
    )

entry-add_entries :
    (os : List String) (k : String) (l : DataLocation) (d : PerNode) (o j : String)
    → entry o j (add_entries os k l d) ≡ (if elem o os && k == j then some l else entry o j d)
unfolding add_entries
entry-add_entries [] k l d o j = refl
entry-add_entries (x ∷ os) k l d o j =
    ground (arith, entry-add_entries os k l (add_entry x k l d) o j, entry-add_entry x k l d o j)

module _ (hash : String → ℕ) (c : Client) where
  entry-entries_per_node :
      (entries : Dict String DataLocation) (d : PerNode) (o j : String)
      → Unique entries
      → entry o j (entries_per_node hash c entries d) ≡ (
          if Dict.has j entries && elem o (owners hash c j)
          then Dict.get j entries
          else entry o j d)
  unfolding entries_per_node Dict.has Dict.get
  entry-entries_per_node [] d o j u = refl
  entry-entries_per_node ((k, l) ∷ entries) d o j u =
      let d' = add_entries (owners hash c k) k l d in
      let new = entry-add_entries (owners hash c k) k l d o j in
      elim (Bool-cases (k == j)) [
        | inl same ↦
            let e = (str_eq_iff k j).0 same in
            let absent : Dict.get j entries ≡ none = subst (λ t. Dict.get t entries ≡ none) e u.0 in
            let os = ap (λ t. elem o (owners hash c t)) e in
            entry-entries_per_node entries d' o j u.1 ∙ ground (arith, new, absent, os)
        | inr other ↦ entry-entries_per_node entries d' o j u.1 ∙ ground (arith, new)
      ]

-- The dicts that `put` builds have no key twice.
add_entry-Unique :
    (owner k : String) (l : DataLocation) (d : PerNode)
    → Unique d
    → ((o : String) → Unique (Dict.get_or o d []))
    → Unique (add_entry owner k l d)
      × ((o : String) → Unique (Dict.get_or o (add_entry owner k l d) []))
unfolding add_entry
add_entry-Unique owner k l d u us =
    let inner = Dict.put k l (Dict.get_or owner d []) in
    (
      Unique-put owner inner d u,
      λ o. elim (Bool-cases (owner == o)) [
        | inl same ↦
            subst Unique (sym (get_or-put owner o inner [] d ∙ ground arith))
              (Unique-put k l (Dict.get_or owner d []) (us owner))
        | inr other ↦ subst Unique (sym (get_or-put owner o inner [] d ∙ ground arith)) (us o)
      ],
    )

add_entries-Unique :
    (os : List String) (k : String) (l : DataLocation) (d : PerNode)
    → Unique d
    → ((o : String) → Unique (Dict.get_or o d []))
    → Unique (add_entries os k l d)
      × ((o : String) → Unique (Dict.get_or o (add_entries os k l d) []))
unfolding add_entries
add_entries-Unique [] k l d u us = (u, us)
add_entries-Unique (x ∷ os) k l d u us =
    let (u', us') = add_entry-Unique x k l d u us in
    add_entries-Unique os k l (add_entry x k l d) u' us'

nothing : (o : String) → Unique (Dict.get_or {V = Dict String DataLocation} o [] [])
unfolding Dict.get_or Dict.get
nothing o = tt

silent : (k : String) → Dict.has {V = DataLocation} k [] ≡ false
unfolding Dict.has Dict.get
silent k = refl

module _ (k : String) (d e : Dict String DataLocation) (b : Bool)
    (at : Dict.get k d ≡ (if Dict.has k e && b then Dict.get k e else none)) where
  has_of_if : Dict.has k d ≡ true → (Dict.has k e && b) ≡ true
  unfolding Dict.has
  has_of_if h = ground (arith, at)

  if_of_has : Dict.has k e ≡ true → b ≡ true → Dict.has k d ≡ true
  unfolding Dict.has
  if_of_has h m = ground (arith, at)

tells_of_if :
    (b : Bool) {o : Option DataLocation} {x : DataLocation}
    → (if b then o else none) ≡ some x
    → o ≡ some x
tells_of_if b h = ground arith

module _ (hash : String → ℕ) (c : Client) where
  entries_per_node-Unique :
      (entries : Dict String DataLocation) (d : PerNode)
      → Unique d
      → ((o : String) → Unique (Dict.get_or o d []))
      → Unique (entries_per_node hash c entries d)
        × ((o : String) → Unique (Dict.get_or o (entries_per_node hash c entries d) []))
  unfolding entries_per_node
  entries_per_node-Unique [] d u us = (u, us)
  entries_per_node-Unique ((k, l) ∷ entries) d u us =
      let (u', us') = add_entries-Unique (owners hash c k) k l d u us in
      entries_per_node-Unique entries (add_entries (owners hash c k) k l d) u' us'

  module _ (resolve : String → Option String) (link : String → Link) (k ep : String)
      (entries : Dict String DataLocation) (unique : Unique entries) where
    -- The endpoint serves a call to one of the key's owners.
    abbrev pub reached : Bool
    reached = any (λ o. reaches resolve link o ep) (owners hash c k)

    abbrev per_node : PerNode
    per_node = entries_per_node hash c entries []

    entry-per_node :
        (o : String)
        → entry o k per_node
          ≡ (if Dict.has k entries && elem o (owners hash c k) then Dict.get k entries else none)
    unfolding Dict.get Dict.get_or
    entry-per_node o = entry-entries_per_node hash c entries [] o k unique

    puts-per_node : puts resolve link k ep per_node ≡ (Dict.has k entries && reached)
    puts-per_node =
        let (u, us) = entries_per_node-Unique entries [] tt (λ o. nothing o) in
        Bool-ext _ _
          (λ h.
            let (o, r, found) =
              of_touches resolve link (Dict.has k) ep [] (silent k) per_node u h in
            let here : Dict.has k entries && elem o (owners hash c k) ≡ true =
              has_of_if k (Dict.get_or o per_node []) entries (elem o (owners hash c k))
                (entry-per_node o) found in
            and_intro (and_left _ _ here) (
              any_of_elem (λ n. reaches resolve link n ep) o (owners hash c k) (and_right _ _ here)
                r))
          (λ h.
            let (o, m, r) =
              elem_of_any (λ n. reaches resolve link n ep) (owners hash c k) (and_right _ _ h) in
            touches_of resolve link (Dict.has k) ep [] (silent k) per_node o r (
              if_of_has k (Dict.get_or o per_node []) entries (elem o (owners hash c k))
                (entry-per_node o) (and_left _ _ h) m))

    -- After a publish of entries with distinct keys, the shard at an endpoint holds the published
    -- location of a key if the key is among the entries and the call to one of its owners is
    -- served there, and what it held before otherwise.
    pub shard-put :
        (s : Shards)
        → Dict.get k (put hash resolve link c entries s ep)
          ≡ (if Dict.has k entries && reached then Dict.get k entries else Dict.get k (s ep))
    unfolding put
    shard-put s =
        let (u, us) = entries_per_node-Unique entries [] tt (λ o. nothing o) in
        get-send_puts resolve link k ep (Dict.get k entries) per_node s (
          All-entries (Tells resolve link k ep (Dict.get k entries)) per_node u (λ o es m.
            let same : Dict.get_or o per_node [] ≡ es = get-get_or o es [] per_node m in
            (
              subst Unique same (us o),
              λ x found. tells_of_if _ (sym (entry-per_node o) ∙ ap (Dict.get k) same ∙ found),
            )))
        ∙ ap (λ b. if b then Dict.get k entries else Dict.get k (s ep)) puts-per_node
