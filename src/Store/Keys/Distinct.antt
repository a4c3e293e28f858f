-- ===== src/Store/Keys/Distinct.antt =====
-- Which keys share a storage key, in python/peercache/store.py.
use Prim.Native.String.{count}
use text.Mathlib.TextLemmas.{
  length-append, append_cancel_left, append_cancel_right, append_inj, append_assoc,
}
use mathlib.Core.Path.{ap₂}
use peer_cache.Base.{
  ◌≡◌, ◌≢◌, refl, sym, ap, ◌∙◌, arith, String, true, false, List, [], ◌∷◌, map, ◌==◌, ==_iff,
  eq_string, if◌then◌else◌, Bool-cases, Bool-ext, inl, inr, elem, Distinct,
}
use peer_cache.Base.Text.{join}
use peer_cache.Store.Keys.{KeyLayout, tag, tag_keys, component, split_keys, component_keys}

eq_of_inj :
    (f : String → String)
    → ((a b : String) → f a ≡ f b → a ≡ b)
    → (a b : String) → (f a == f b) ≡ (a == b)
eq_of_inj f inj a b =
    Bool-ext (f a == f b) (a == b) (λ h. (==_iff a b).1 (inj a b ((==_iff (f a) (f b)).0 h)))
      (λ h. (==_iff (f a) (f b)).1 (ap f ((==_iff a b).0 h)))

ne_test : (a b : String) → a ≢ b → (a == b) ≡ false
ne_test a b h = elim (Bool-cases (a == b)) [
  | inl same ↦ absurd (h ((==_iff a b).0 same))
  | inr other ↦ other
]

module _ (f : String → String) (inj : (a b : String) → f a ≡ f b → a ≡ b) where
  elem-map : (a : String) (xs : List String) → elem (f a) (map f xs) ≡ elem a xs
  elem-map a [] = refl
  elem-map a (x ∷ xs) = rw (eq_of_inj f inj x a) (rw (elem-map a xs) refl)

  map-Distinct : (xs : List String) → Distinct xs → Distinct (map f xs)
  map-Distinct [] d = tt
  map-Distinct (x ∷ xs) d = (elem-map x xs ∙ d.0, map-Distinct xs d.1)

component_inj :
    (suffix part a b : String) → component suffix part a ≡ component suffix part b → a ≡ b
unfolding component join
component_inj suffix part a b e = append_cancel_right a b (join "_" (join suffix (join "_" part))) e

tag_inj : (p a b : String) → tag p a ≡ tag p b → a ≡ b
unfolding tag join
tag_inj p a b e = append_cancel_left "_" a b (append_cancel_left p (join "_" a) (join "_" b) e)

tail : String → String → String
tail suffix part = join "_" (join suffix (join "_" part))

count-tail : (suffix : String) → count (tail suffix "k") ≡ count (tail suffix "v")
unfolding tail join
count-tail suffix = omega (
  arith,
  length-append "_" (join suffix (join "_" "k")),
  length-append suffix (join "_" "k"),
  length-append "_" (join suffix (join "_" "v")),
  length-append suffix (join "_" "v"),
)

k-ne-v : (suffix a b : String) → component suffix "k" a ≢ component suffix "v" b
unfolding component join tail
k-ne-v suffix a b e =
    let sizes : count a ≡ count b = omega (
      arith,
      count-tail suffix,
      length-append a (tail suffix "k"),
      length-append b (tail suffix "v"),
      ap count e,
    ) in
    let tails =
      append_cancel_left "_" (join suffix "_k") (join suffix "_v") (append_inj e sizes).1 in
    not_same ((==_iff "_k" "_v").1 (append_cancel_left suffix "_k" "_v" tails))
  where
    not_same : false ≡ true → ⊥
    not_same h = cc

-- The keys of other pages are not among those of a page.
split_keys-fresh :
    (suffix k : String) (keys : List String)
    → elem k keys ≡ false
    → (elem (component suffix "k" k) (split_keys suffix keys) ≡ false)
      × (elem (component suffix "v" k) (split_keys suffix keys) ≡ false)
unfolding split_keys
split_keys-fresh suffix k [] h = (refl, refl)
split_keys-fresh suffix k (j ∷ keys) h =
    let rest = split_keys-fresh suffix k keys (ground arith) in
    let kk = eq_of_inj (component suffix "k") (component_inj suffix "k") j k in
    let vv = eq_of_inj (component suffix "v") (component_inj suffix "v") j k in
    let kv = ne_test (component suffix "k" j) (component suffix "v" k) (k-ne-v suffix j k) in
    let vk =
      ne_test (component suffix "v" j) (component suffix "k" k) (λ e. k-ne-v suffix k j (sym e)) in
    (ground (arith, kk, vk), ground (arith, kv, vv))

split_keys-Distinct :
    (suffix : String) (keys : List String) → Distinct keys → Distinct (split_keys suffix keys)
unfolding split_keys
split_keys-Distinct suffix [] d = tt
split_keys-Distinct suffix (k ∷ keys) d =
    let fresh = split_keys-fresh suffix k keys d.0 in
    let vk =
      ne_test (component suffix "v" k) (component suffix "k" k) (λ e. k-ne-v suffix k k (sym e)) in
    (ground (arith, vk, fresh.0), (fresh.1, split_keys-Distinct suffix keys d.1))

tag_keys-Distinct :
    (l : KeyLayout) (keys : List String) → Distinct keys → Distinct (tag_keys l keys)
unfolding tag_keys
tag_keys-Distinct l keys d = elim (Bool-cases (l.prefix == "")) [
  | inl plain ↦ rw plain d
  | inr tagged ↦ rw tagged (map-Distinct (tag l.prefix) (tag_inj l.prefix) keys d)
]

-- The storage keys of distinct pages are distinct, in both layouts: no component of a page takes
-- the place of another one, of the same page or of another.
pub component_keys-Distinct :
    (l : KeyLayout) (keys : List String) → Distinct keys → Distinct (component_keys l keys).0
unfolding component_keys
component_keys-Distinct l keys d = elim (Bool-cases l.is_mla) [
  | inl mla ↦ rw mla (
      map-Distinct (component l.mla_suffix "k") (component_inj l.mla_suffix "k") (tag_keys l keys)
        (tag_keys-Distinct l keys d))
  | inr mha ↦
      rw mha (split_keys-Distinct l.mha_suffix (tag_keys l keys) (tag_keys-Distinct l keys d))
]

tag_assoc : (p q k : String) → tag p (tag q k) ≡ tag (tag p q) k
unfolding tag join
tag_assoc p q k =
    sym (append_assoc p (join "_" q) (join "_" k) ∙ ap (join p) (append_assoc "_" q (join "_" k)))

tag-ne-nil : (p q : String) → (tag p q == "") ≡ false
unfolding tag join
tag-ne-nil p q =
    ne_test (tag p q) ""
      λ e. absurd (omega (arith, ap count e, length-append p (join "_" q), length-append "_" q))

map-tag-tag :
    (p q : String) (keys : List String) → map (tag p) (map (tag q) keys) ≡ map (tag (tag p q)) keys
map-tag-tag p q [] = refl
map-tag-tag p q (k ∷ keys) = ap₂ (λ x xs. x ∷ xs) (tag_assoc p q k) (map-tag-tag p q keys)

tag_keys_collide :
    (l : KeyLayout) (q : String) (keys : List String)
    → (l.prefix == "") ≡ false
    → tag_keys l (map (tag q) keys) ≡ tag_keys (record l { prefix = tag l.prefix q }) keys
unfolding tag_keys
tag_keys_collide l q keys h = rw h (rw (tag-ne-nil l.prefix q) (map-tag-tag l.prefix q keys))

-- Two deployments with different prefixes can have the same storage keys: the keys `q_k` of one
-- with the prefix `p` are those of the keys `k` of one with the prefix `p_q`, in the same layout.
prefixes_collide :
    (l : KeyLayout) (q : String) (keys : List String)
    → (l.prefix == "") ≡ false
    → component_keys l (map (tag q) keys)
      ≡ component_keys (record l { prefix = tag l.prefix q }) keys
unfolding component_keys
prefixes_collide l q keys h =
    ap
      (λ ks.
        if l.is_mla
        then (map (component l.mla_suffix "k") ks, 1)
        else (split_keys l.mha_suffix ks, 2))
      (tag_keys_collide l q keys h)
