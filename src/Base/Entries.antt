-- ===== src/Base/Entries.antt =====
-- What holds of every entry of a dict, through the operations on it.
use mathlib.Core.Path.{ap₂}
use peer_cache.Base.{
  ◌≡◌, sym, of_some, inl, inr, subst, some, [], ◌∷◌, All, Key, ◌==◌, ==_iff, Bool-cases,
}
use peer_cache.Base.Dict
use peer_cache.Base.Dict.{Dict}

module _ {ℓ κ ξ} {K : Type ℓ} {V : Type κ} ⦃e : Key K⦄ (P : K × V → Type ξ) where
  pub All-get : (k : K) (v : V) (d : Dict K V) → All P d → Dict.get k d ≡ some v → P (k, v)
  unfolding Dict.get
  All-get k v [] h found = absurd (cc)
  All-get k v ((j, w) ∷ d) h found = elim (Bool-cases (j == k)) [
    | inl same ↦
        subst P (ap₂ (λ i x. (i, x)) ((==_iff j k).0 same) (of_some (rw same at found))) h.0
    | inr other ↦ All-get k v d h.1 (rw other at found)
  ]

  pub All-remove : (k : K) (d : Dict K V) → All P d → All P (Dict.remove k d)
  unfolding Dict.remove
  All-remove k [] h = tt
  All-remove k ((j, w) ∷ d) h = elim (Bool-cases (j == k)) [
    | inl same ↦ rw same (All-remove k d h.1)
    | inr other ↦ rw other (h.0, All-remove k d h.1)
  ]

  pub All-put : (k : K) (v : V) (d : Dict K V) → P (k, v) → All P d → All P (Dict.put k v d)
  unfolding Dict.put
  All-put k v [] p h = (p, tt)
  All-put k v ((j, w) ∷ d) p h = elim (Bool-cases (j == k)) [
    | inl same ↦ rw same (subst (λ i. P (i, v)) (sym ((==_iff j k).0 same)) p, h.1)
    | inr other ↦ rw other (h.0, All-put k v d p h.1)
  ]
