-- ===== src/Directory/Reach.antt =====
-- Which endpoints a round of calls, one for each node of a dict, is served by.
use peer_cache.Base.{
  ◌≡◌, ap, inl, inr, arith, String, Option, none, some, Bool, true, false, [], ◌∷◌, ◌&&◌, ◌||◌,
  ◌==◌, eq_string, ==_iff, ==_refl, str_eq_iff, if◌then◌else◌, Bool-cases, Option-cases,
}
use peer_cache.Base.Dict
use peer_cache.Base.Dict.{Dict, Unique}
use peer_cache.Directory.{Shard, Shards, Link, up, down, lost, send, send_to}

-- The call is served, whether or not its reply arrives.
abbrev pub served : Link → Bool
served up = true
served lost = true
served down = false

module _ (resolve : String → Option String) (link : String → Link) where
  abbrev reaches_by : Option String → String → Bool
  reaches_by none ep = false
  reaches_by (some e) ep = e == ep && served (link e)

  -- A call to the node is served by the endpoint `ep`.
  abbrev pub reaches : String → String → Bool
  reaches node ep = reaches_by (resolve node) ep

  pub send_to_at :
      (node ep : String) (f : Shard → Shard) (s : Shards)
      → send_to resolve link node f s ep ≡ (if reaches node ep then f (s ep) else s ep)
  unfolding send_to send
  send_to_at node ep f s = elim (Option-cases (resolve node)) [
    | inl unknown ↦ rw (unknown, send_to)
    | inr (e, known) ↦
        rw (known, send_to)
          (elim (Bool-cases (e == ep)) [
            | inr other ↦ rw other (ground arith)
            | inl same ↦ let p = (str_eq_iff e ep).0 same in rw p (ground (arith, ==_refl ep))
          ])
  ]

  module _ {ℓ} {V : Type ℓ} (mentions : V → Bool) (ep : String) where
    -- Some node of the dict is served by the endpoint, with a value that mentions the key.
    abbrev pub touches : Dict String V → Bool
    touches [] = false
    touches ((node, v) ∷ rest) = (reaches node ep && mentions v) || touches rest

    module _ (empty : V) (silent : mentions empty ≡ false) where
      pub touches_of :
          (d : Dict String V) (node : String)
          → reaches node ep ≡ true
          → mentions (Dict.get_or node d empty) ≡ true
          → touches d ≡ true
      unfolding Dict.get_or Dict.get
      touches_of [] node r h = absurd (cc)
      touches_of ((n, v) ∷ rest) node r h = elim (Bool-cases (n == node)) [
        | inl same ↦ let e = (str_eq_iff n node).0 same in ground (arith, ap (λ t. reaches t ep) e)
        | inr other ↦ ground (arith, touches_of rest node r)
      ]

      pub of_touches :
          (d : Dict String V)
          → Unique d
          → touches d ≡ true
          → (node : String) × (reaches node ep ≡ true)
            × (mentions (Dict.get_or node d empty) ≡ true)
      unfolding Dict.get_or Dict.get
      of_touches [] u h = absurd (cc)
      of_touches ((n, v) ∷ rest) u h = elim (Bool-cases (reaches n ep && mentions v)) [
        | inl here ↦ (n, ground arith, ground (arith, ==_refl n))
        | inr there ↦
            let (node, r, found) = of_touches rest u.1 (ground arith) in
            (node, r, ground (arith, ==_iff n node, u.0))
      ]
