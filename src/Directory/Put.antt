-- ===== src/Directory/Put.antt =====
-- What a publish leaves in the shards.
use peer_cache.Base.{
  ◌≡◌, refl, ◌∙◌, inl, inr, arith, String, Option, none, some, Bool, [], ◌∷◌, eq_ℕ, eq_string,
  ==_iff, All, if◌then◌else◌, Option-cases,
}
use peer_cache.Base.Dict
use peer_cache.Base.Dict.{Dict, Unique, get-put, get_or-put, Unique-put, All-entries, get-get_or}
use peer_cache.Types.{DataLocation}
use peer_cache.Directory.Reach.{send_to_at, touches}
use peer_cache.Directory.{Shards, Link, update, on_put, send_to, send_puts}

pub get-update :
    (k : String) (entries s : Dict String DataLocation)
    → Unique entries
    → Dict.get k (update entries s)
      ≡ elim (Dict.get k entries) [ none ↦ Dict.get k s | some l ↦ some l ]
unfolding update Dict.get
get-update k [] s u = refl
get-update k ((j, l) ∷ entries) s u =
    ground (arith, get-update k entries (Dict.put j l s), get-put j k l s, ==_iff j k, u.0)

module _ (resolve : String → Option String) (link : String → Link) (k ep : String) where
  abbrev pub puts : Dict String (Dict String DataLocation) → Bool
  puts = touches resolve link (Dict.has k) ep

  -- The entries of one node are a dict, and tell of the key what `l` says.
  abbrev pub Tells : Option DataLocation → String → Dict String DataLocation → Type 0
  Tells l node entries =
      Unique entries × ((x : DataLocation) → Dict.get k entries ≡ some x → l ≡ some x)

  step :
      (l : Option DataLocation) (node : String) (entries : Dict String DataLocation)
      (rest : Dict String (Dict String DataLocation)) (s : Shards)
      → Tells l node entries
      → (if puts rest then l else Dict.get k (send_to resolve link node (on_put entries) s ep))
        ≡ (if puts ((node, entries) ∷ rest) then l else Dict.get k (s ep))
  unfolding on_put Dict.has
  step l node entries rest s h =
      let at = send_to_at resolve link node ep (on_put entries) s in
      let new = get-update k entries (s ep) h.0 in
      elim (Option-cases (Dict.get k entries)) [
        | inl missing ↦ rw at (ground (arith, new))
        | inr (x, found) ↦ rw at (ground (arith, new, h.1 x found))
      ]

  pub get-send_puts :
      (l : Option DataLocation) (per_node : Dict String (Dict String DataLocation)) (s : Shards)
      → All (λ e. Tells l e.0 e.1) per_node
      → Dict.get k (send_puts resolve link per_node s ep)
        ≡ (if puts per_node then l else Dict.get k (s ep))
  unfolding send_puts
  get-send_puts l [] s h = refl
  get-send_puts l ((node, entries) ∷ rest) s h =
      let s' = send_to resolve link node (on_put entries) s in
      get-send_puts l rest s' h.1 ∙ step l node entries rest s h.0
