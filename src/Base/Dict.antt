-- ===== src/Base/Dict.antt =====
-- Python's `dict` and `OrderedDict`: an association list in insertion order.
use peer_cache.Base.Tests.{if◌then◌else◌, Bool-cases, Option-cases}
use peer_cache.Base.Keys.{elem, Key, ◌==◌, ==_iff, ==_refl, elem}
use Prim.Native.Nat.{ℕ, ◌+◌, ◌≤◌}
use mathlib.Core.Path.{◌≡◌, refl}
use mathlib.Core.Logic.{◌≢◌, inl, inr}
use mathlib.Core.Bool.{not, ◌||◌, ◌&&◌, Bool, true, false, ◌||◌}
use mathlib.Core.Option.{Option, none, some}
use mathlib.Core.List.{List, [], ◌∷◌, ◌++◌, map}
use peer_cache.Base.Lists.{All}
use native.Mathlib.Omega.{arith}

abbrev pub Dict {ℓ κ} : Type ℓ → Type κ → Type (ℓ ⊔ κ)
Dict K V = List (K × V)

module _ {ℓ κ} {K : Type ℓ} {V : Type κ} where
  abbrev pub keys : Dict K V → List K
  keys = map (λ e. e.0)

  abbrev pub values : Dict K V → List V
  values = map (λ e. e.1)

  -- `sum(f(k, v) for k, v in d.items())`
  abbrev pub total : (K → V → ℕ) → Dict K V → ℕ
  total f [] = 0
  total f ((k, v) ∷ d) = f k v + total f d

module _ {ℓ κ} {K : Type ℓ} {V : Type κ} ⦃e : Key K⦄ where
  -- `d.get(k)`
  unfoldable pub get : K → Dict K V → Option V
  get k [] = none
  get k ((j, v) ∷ d) = if j == k then some v else get k d

  -- `k in d`
  unfoldable pub has : K → Dict K V → Bool
  has k d = elim (get k d) [ none ↦ false | some _ ↦ true ]

  -- `d.get(k, default)`
  unfoldable pub get_or : K → Dict K V → V → V
  get_or k d default = elim (get k d) [ none ↦ default | some v ↦ v ]

  -- `d.pop(k, None)`, whose value is `get k d`
  unfoldable pub remove : K → Dict K V → Dict K V
  remove k [] = []
  remove k ((j, v) ∷ d) = let rest = remove k d in if j == k then rest else (j, v) ∷ rest

  -- `d[k] = v`: in place for a key that is there, at the end for a new one
  unfoldable pub put : K → V → Dict K V → Dict K V
  put k v [] = (k, v) ∷ []
  put k v ((j, w) ∷ d) = let rest = put k v d in if j == k then (j, v) ∷ d else (j, w) ∷ rest

  -- `d.move_to_end(k)`
  unfoldable pub move_to_end : K → Dict K V → Dict K V
  move_to_end k d = elim (get k d) [ none ↦ d | some v ↦ remove k d ++ (k, v) ∷ [] ]

  -- What holds of every Python dict: no key occurs twice.
  abbrev pub Unique : Dict K V → Type κ
  Unique [] = Unit
  Unique ((k, v) ∷ d) = (get k d ≡ none) × Unique d

  pub get-remove :
      (k j : K) (d : Dict K V) → get j (remove k d) ≡ (if k == j then none else get j d)
  unfolding get remove
  get-remove k j [] = ground arith
  get-remove k j ((i, v) ∷ d) = ground (arith, get-remove k j d, ==_iff i k, ==_iff i j, ==_iff k j)

  pub get-put :
      (k j : K) (v : V) (d : Dict K V) → get j (put k v d) ≡ (if k == j then some v else get j d)
  unfolding get put
  get-put k j v [] = refl
  get-put k j v ((i, w) ∷ d) = ground (arith, get-put k j v d, ==_iff i k, ==_iff i j, ==_iff k j)

  pub get-append_one :
      (j k : K) (v : V) (d : Dict K V)
      → get k d ≡ none
      → get j (d ++ (k, v) ∷ []) ≡ (if k == j then some v else get j d)
  unfolding get
  get-append_one j k v [] h = refl
  get-append_one j k v ((i, w) ∷ d) h =
      ground (arith, get-append_one j k v d, ==_iff i k, ==_iff i j, ==_iff k j)

  pub get-put_self : (k : K) (v : V) (d : Dict K V) → get k (put k v d) ≡ some v
  get-put_self k v d = simp (get-put, ==_refl)

  pub get-remove_self : (k : K) (d : Dict K V) → get k (remove k d) ≡ none
  get-remove_self k d = simp (get-remove, ==_refl)

  -- A new key goes to the end.
  pub put-new : (k : K) (v : V) (d : Dict K V) → get k d ≡ none → put k v d ≡ d ++ (k, v) ∷ []
  unfolding get put
  put-new k v [] h = refl
  put-new k v ((j, w) ∷ d) h = ground (arith, put-new k v d)

  pub get-move_to_end : (k j : K) (d : Dict K V) → get j (move_to_end k d) ≡ get j d
  unfolding move_to_end
  get-move_to_end k j d = elim (Option-cases (get k d)) [
    | inl missing ↦ rw (missing, move_to_end)
    | inr (v, found) ↦
        rw (found, move_to_end, get-append_one j k v (remove k d) (get-remove_self k d))
          (ground (arith, ==_iff k j, get-remove k j d))
  ]

  pub Unique-append_one :
      (k : K) (v : V) (d : Dict K V) → get k d ≡ none → Unique d → Unique (d ++ (k, v) ∷ [])
  unfolding get
  Unique-append_one k v [] h u = (refl, tt)
  Unique-append_one k v ((j, w) ∷ d) h u =
      let other : get k d ≡ none = ground arith in
      (
        rw (get-append_one j k v d other) (ground (arith, ==_iff k j, ==_iff j k)),
        Unique-append_one k v d other u.1,
      )

  pub Unique-remove : (k : K) (d : Dict K V) → Unique d → Unique (remove k d)
  unfolding remove
  Unique-remove k [] u = tt
  Unique-remove k ((j, w) ∷ d) u = elim (Bool-cases (j == k)) [
    | inl same ↦ rw same (Unique-remove k d u.1)
    | inr other ↦ rw other (ground (arith, get-remove k j d), Unique-remove k d u.1)
  ]

  pub Unique-put : (k : K) (v : V) (d : Dict K V) → Unique d → Unique (put k v d)
  unfolding put get
  Unique-put k v [] u = (refl, tt)
  Unique-put k v ((j, w) ∷ d) u = elim (Bool-cases (j == k)) [
    | inl same ↦ rw same u
    | inr other ↦
        rw other (ground (arith, get-put k j v d, ==_iff j k, ==_iff k j), Unique-put k v d u.1)
  ]

  pub Unique-move_to_end : (k : K) (d : Dict K V) → Unique d → Unique (move_to_end k d)
  unfolding move_to_end
  Unique-move_to_end k d u = elim (Option-cases (get k d)) [
    | inl missing ↦ rw (missing, move_to_end) u
    | inr (v, found) ↦
        rw (found, move_to_end)
          (Unique-append_one k v (remove k d) (get-remove_self k d) (Unique-remove k d u))
  ]

  pub remove_absent : (k : K) (d : Dict K V) → get k d ≡ none → remove k d ≡ d
  unfolding get remove
  remove_absent k [] h = refl
  remove_absent k ((j, w) ∷ d) h = ground (arith, remove_absent k d)

  pub total-append_one :
      (f : K → V → ℕ) (k : K) (v : V) (d : Dict K V)
      → total f (d ++ (k, v) ∷ []) ≡ total f d + f k v
  total-append_one f k v [] = omega arith
  total-append_one f k v ((j, w) ∷ d) = omega (arith, total-append_one f k v d)

  pub total-put_new :
      (f : K → V → ℕ) (k : K) (v : V) (d : Dict K V)
      → get k d ≡ none
      → total f (put k v d) ≡ total f d + f k v
  total-put_new f k v d h = rw (put-new k v d h) (total-append_one f k v d)

  pub total-remove :
      (f : K → V → ℕ) (k : K) (v : V) (d : Dict K V)
      → Unique d
      → get k d ≡ some v
      → total f (remove k d) + f k v ≡ total f d
  unfolding get remove
  total-remove f k v [] u h = absurd (cc)
  total-remove f k v ((j, w) ∷ d) u h =
      ground (arith, ==_iff j k, total-remove f k v d, remove_absent k d)

  pub total-move_to_end :
      (f : K → V → ℕ) (k : K) (d : Dict K V) → Unique d → total f (move_to_end k d) ≡ total f d
  unfolding move_to_end
  total-move_to_end f k d u = elim (Option-cases (get k d)) [
    | inl missing ↦ rw (missing, move_to_end)
    | inr (v, found) ↦
        rw (found, move_to_end, total-append_one f k v (remove k d)) (total-remove f k v d u found)
  ]

  pub le-total :
      (f : K → V → ℕ) (k : K) (v : V) (d : Dict K V) → get k d ≡ some v → f k v ≤ total f d
  unfolding get
  le-total f k v [] h = absurd (cc)
  le-total f k v ((j, w) ∷ d) h = ground (arith, ==_iff j k, le-total f k v d)

  -- Two entries of different keys both count.
  pub add-le-total :
      (f : K → V → ℕ) (j k : K) (w v : V) (d : Dict K V)
      → j ≢ k
      → get j d ≡ some w
      → get k d ≡ some v
      → f j w + f k v ≤ total f d
  unfolding get
  add-le-total f j k w v [] h hj hk = absurd (cc)
  add-le-total f j k w v ((i, x) ∷ d) h hj hk = ground (
    arith,
    ==_iff i j,
    ==_iff i k,
    le-total f j w d,
    le-total f k v d,
    add-le-total f j k w v d h,
  )

  pub total_ext :
      (f g : K → V → ℕ) (d : Dict K V) → ((k : K) (v : V) → f k v ≡ g k v) → total f d ≡ total g d
  total_ext f g [] h = refl
  total_ext f g ((k, v) ∷ d) h = omega (arith, h k v, total_ext f g d h)

  pub total-put_old :
      (f : K → V → ℕ) (k : K) (v w : V) (d : Dict K V)
      → get k d ≡ some w
      → total f (put k v d) + f k w ≡ total f d + f k v
  unfolding get put
  total-put_old f k v w [] h = absurd (cc)
  total-put_old f k v w ((j, x) ∷ d) h = elim (Bool-cases (j == k)) [
    | inl same ↦
        let e : j ≡ k = (==_iff j k).0 same in
        let e' : x ≡ w = ground arith in rw (same, e, e') (omega arith)
    | inr other ↦ rw other (omega (arith, total-put_old f k v w d (ground arith)))
  ]

  -- Both at once, where the default counts nothing.
  pub total-put_or :
      (f : K → V → ℕ) (k : K) (v w : V) (d : Dict K V)
      → f k w ≡ 0
      → total f (put k v d) + f k (get_or k d w) ≡ total f d + f k v
  unfolding get_or
  total-put_or f k v w d h = elim (Option-cases (get k d)) [
    | inl missing ↦ rw (missing, get_or) (omega (arith, total-put_new f k v d missing))
    | inr (x, found) ↦ rw (found, get_or) (total-put_old f k v x d found)
  ]

  pub get-append :
      (k : K) (xs ys : Dict K V)
      → get k (xs ++ ys) ≡ elim (get k xs) [ none ↦ get k ys | some v ↦ some v ]
  unfolding get
  get-append k [] ys = refl
  get-append k ((j, v) ∷ xs) ys = ground (arith, get-append k xs ys)

  pub get-missing : (k : K) (d : Dict K V) → elem k (keys d) ≡ false → get k d ≡ none
  unfolding get
  get-missing k [] h = refl
  get-missing k ((j, v) ∷ d) h = ground (arith, get-missing k d)

  remove-append_one :
      (k : K) (v : V) (d : Dict K V) → get k d ≡ none → remove k (d ++ (k, v) ∷ []) ≡ d
  unfolding remove get
  remove-append_one k v [] h = ground (arith, ==_refl k)
  remove-append_one k v ((j, w) ∷ d) h = ground (arith, remove-append_one k v d)

  -- A new key is at the end already.
  pub move_to_end-new :
      (k : K) (v : V) (d : Dict K V) → get k d ≡ none → move_to_end k (put k v d) ≡ d ++ (k, v) ∷ []
  unfolding move_to_end
  move_to_end-new k v d h =
      rw (get-put_self k v d, move_to_end) (rw (put-new k v d h, remove-append_one k v d h))

  pub elem-keys : (k : K) (d : Dict K V) → elem k (keys d) ≡ has k d
  unfolding has get
  elem-keys k [] = refl
  elem-keys k ((j, v) ∷ d) = ground (arith, elem-keys k d)

  pub has-put : (k j : K) (v : V) (d : Dict K V) → has j (put k v d) ≡ (k == j || has j d)
  unfolding has
  has-put k j v d = ground (arith, get-put k j v d)

  pub has-remove : (k j : K) (d : Dict K V) → has j (remove k d) ≡ (not (k == j) && has j d)
  unfolding has
  has-remove k j d = ground (arith, get-remove k j d)

  -- What every lookup finds holds of every entry.
  pub All-entries {ξ} :
      (P : K → V → Type ξ) (d : Dict K V)
      → Unique d
      → ((k : K) (v : V) → get k d ≡ some v → P k v)
      → All (λ e. P e.0 e.1) d
  unfolding get
  All-entries P [] u h = tt
  All-entries P ((j, w) ∷ d) u h = (
    h j w (ground (arith, ==_refl j)),
    All-entries P d u.1 (λ k v m. h k v (ground (arith, ==_iff j k, u.0))),
  )

  pub get-get_or : (k : K) (v w : V) (d : Dict K V) → get k d ≡ some v → get_or k d w ≡ v
  unfolding get_or
  get-get_or k v w d h = rw (h, get_or)

  pub get_or-put :
      (k j : K) (v w : V) (d : Dict K V)
      → get_or j (put k v d) w ≡ (if k == j then v else get_or j d w)
  unfolding get_or
  get_or-put k j v w d = ground (arith, get-put k j v d)

  pub get_or-nil : (k : K) (w : V) → get_or k [] w ≡ w
  unfolding get_or get
  get_or-nil k w = refl

  pub get_or-cons :
      (k j : K) (v w : V) (d : Dict K V)
      → get_or k ((j, v) ∷ d) w ≡ (if j == k then v else get_or k d w)
  unfolding get_or get
  get_or-cons k j v w d = ground arith
