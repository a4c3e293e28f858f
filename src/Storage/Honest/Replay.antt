-- ===== src/Storage/Honest/Replay.antt =====
-- The calls of the directory, applied in order.
use peer_cache.Base.{
  ◌≡◌, refl, ap, ◌⊎◌, inl, inr, subst, arith, String, Option, none, some, true, false, List, [],
  ◌∷◌, ◌++◌, ◌==◌, eq_string, ==_iff, elem, All, Bool-cases, of_some, Option-cases, ◌||◌,
}
use peer_cache.Base.Dict
use peer_cache.Base.Dict.{Dict, get-put, get-remove, has-put, elem-keys, keys}
use peer_cache.Base.Entries.{All-put}
use peer_cache.Types.{DataLocation}
use peer_cache.DiskStore.{DiskStore}
use peer_cache.Storage.{
  Effect, put_entries, delete_keys, StorageServer, emit, put_some, delete_some, evict_entry,
  evict_entries, evict_effects, on_pool_evict, after_evict, disk_location,
}

unfoldable pub put_all :
    Dict String DataLocation → Dict String DataLocation → Dict String DataLocation
put_all [] d = d
put_all ((k, loc) ∷ entries) d = put_all entries (Dict.put k loc d)

unfoldable pub delete_all : List String → Dict String DataLocation → Dict String DataLocation
delete_all [] d = d
delete_all (k ∷ ks) d = delete_all ks (Dict.remove k d)

unfoldable pub apply_effect : Effect → Dict String DataLocation → Dict String DataLocation
unfolding put_all delete_all
apply_effect (put_entries entries) d = put_all entries d
apply_effect (delete_keys ks) d = delete_all ks d

unfoldable pub replay : List Effect → Dict String DataLocation → Dict String DataLocation
unfolding apply_effect
replay [] d = d
replay (e ∷ es) d = replay es (apply_effect e d)

-- The directory as the calls of this server leave it.
unfoldable pub recorded : StorageServer → Dict String DataLocation
unfolding replay
recorded s = replay s.effects []

replay-append_one :
    (es : List Effect) (e : Effect) (d : Dict String DataLocation)
    → replay (es ++ e ∷ []) d ≡ apply_effect e (replay es d)
unfolding replay
replay-append_one [] e d = refl
replay-append_one (x ∷ es) e d = replay-append_one es e (apply_effect x d)

pub recorded-emit :
    (e : Effect) (s : StorageServer) → recorded (emit e s) ≡ apply_effect e (recorded s)
unfolding recorded emit
recorded-emit e s = replay-append_one s.effects e []

pub recorded-put_some :
    (entries : Dict String DataLocation) (s : StorageServer)
    → recorded (put_some entries s) ≡ put_all entries (recorded s)
unfolding put_some put_all apply_effect
recorded-put_some [] s = refl
recorded-put_some (e ∷ entries) s = recorded-emit (put_entries (e ∷ entries)) s

pub recorded-delete_some :
    (ks : List String) (s : StorageServer)
    → recorded (delete_some ks s) ≡ delete_all ks (recorded s)
unfolding delete_some delete_all apply_effect
recorded-delete_some [] s = refl
recorded-delete_some (k ∷ ks) s = recorded-emit (delete_keys (k ∷ ks)) s

has-nil : (k : String) → Dict.has {V = DataLocation} k [] ≡ false
unfolding Dict.has Dict.get
has-nil k = refl

has-cons :
    {V : Type 0} (k j : String) (v : V) (d : Dict String V)
    → Dict.has k ((j, v) ∷ d) ≡ (j == k || Dict.has k d)
unfolding Dict.has Dict.get
has-cons k j v d = ground arith

has-absent :
    {V : Type 0} (j k : String) (d : Dict String V)
    → Dict.get j d ≡ none
    → Dict.has k d ≡ true
    → (j == k) ≡ false
unfolding Dict.has
has-absent j k d missing known = elim (Bool-cases (j == k)) [
  | inr other ↦ other
  | inl same ↦
      let e : Dict.get k d ≡ none =
        subst (λ x. Dict.get x d ≡ none) ((==_iff j k).0 same) missing in
      absurd (cc (ap (λ o. elim o [ none ↦ false | some _ ↦ true ]) e))
]

-- What is found after puts is one of what was put, or what stood there before.
pub get-put_all :
    (P : String × DataLocation → Type 0) (entries d : Dict String DataLocation) (k : String)
    (loc : DataLocation)
    → All P entries
    → Dict.get k (put_all entries d) ≡ some loc
    → P (k, loc) ⊎ ((Dict.has k entries ≡ false) × (Dict.get k d ≡ some loc))
unfolding put_all Dict.has
get-put_all P [] d k loc h found = inr (has-nil k, found)
get-put_all P ((j, l) ∷ entries) d k loc h found =
    elim (get-put_all P entries (Dict.put j l d) k loc h.1 found) [
      | inl p ↦ inl p
      | inr out ↦ elim (Bool-cases (j == k)) [
        | inl same ↦
            let e : l ≡ loc = of_some (rw (get-put j k l d, same) at out.1) in
            inl (subst (λ x. P (k, x)) e (subst (λ x. P (x, l)) ((==_iff j k).0 same) h.0))
        | inr other ↦
            inr (rw (has-cons k j l entries, other) out.0, rw (get-put j k l d, other) at out.1)
      ]
    ]

pub get-delete_all :
    (ks : List String) (d : Dict String DataLocation) (k : String) (loc : DataLocation)
    → Dict.get k (delete_all ks d) ≡ some loc
    → (elem k ks ≡ false) × (Dict.get k d ≡ some loc)
unfolding delete_all
get-delete_all [] d k loc found = (refl, found)
get-delete_all (j ∷ ks) d k loc found =
    let (out, before) = get-delete_all ks (Dict.remove j d) k loc found in
    ground (arith, get-remove j k d, ==_iff j k, ==_iff k j)

abbrev Away : String × DataLocation → Type 0
Away e = e.1.resident ≡ false

evict_entry-Away :
    (s : StorageServer) (k : String) (len : Option _) (entries : Dict String DataLocation)
    → All Away entries
    → All Away (evict_entry s k len entries)
unfolding evict_entry disk_location
evict_entry-Away s k none entries h = h
evict_entry-Away s k (some len) entries h = All-put Away k (disk_location s len) entries refl h

evict_entries-Away :
    (s : StorageServer) (ks : List String) (entries : Dict String DataLocation)
    → All Away entries
    → All Away (evict_entries s ks entries)
unfolding evict_entries
evict_entries-Away s [] entries h = h
evict_entries-Away s (k ∷ ks) entries h =
    evict_entries-Away s ks (evict_entry s k (Dict.get k s.key_len) entries)
      (evict_entry-Away s k (Dict.get k s.key_len) entries h)

-- Every evicted page whose length is known gets an entry.
has-evict_entries :
    (s : StorageServer) (ks : List String) (entries : Dict String DataLocation) (k : String)
    → Dict.has k s.key_len ≡ true
    → (elem k ks || Dict.has k entries) ≡ true
    → Dict.has k (evict_entries s ks entries) ≡ true
unfolding evict_entries
has-evict_entries s [] entries k known h = h
has-evict_entries s (j ∷ ks) entries k known h =
    has-evict_entries s ks (evict_entry s j (Dict.get j s.key_len) entries) k known
      (elim (Option-cases (Dict.get j s.key_len)) [
        | inl missing ↦
            rw (missing, evict_entry)
              (ground (arith, ==_iff j k, ==_iff k j, has-absent j k s.key_len missing known))
        | inr (len, found) ↦
            rw (found, evict_entry, has-put) (ground (arith, ==_iff j k, ==_iff k j))
      ])

evict_effects-away :
    (disk : Option DiskStore) (ks : List String) (s : StorageServer) (k : String)
    (loc : DataLocation)
    → Dict.get k (recorded (evict_effects disk ks s)) ≡ some loc
    → loc.resident ≡ true
    → (Dict.get k (recorded s) ≡ some loc) × (Dict.has k s.key_len ≡ true → elem k ks ≡ false)
unfolding evict_effects apply_effect
evict_effects-away none ks s k loc found here =
    let (out, before) =
      get-delete_all ks (recorded s) k loc
        (subst (λ d. Dict.get k d ≡ some loc) (recorded-emit (delete_keys ks) s) found) in
    (before, λ known. out)
evict_effects-away (some disk) ks s k loc found here =
    elim (get-put_all Away (evict_entries s ks []) (recorded s) k loc
      (evict_entries-Away s ks [] tt)
      (subst (λ d. Dict.get k d ≡ some loc) (recorded-put_some (evict_entries s ks []) s) found)) [
        | inl away ↦ absurd (cc)
        | inr out ↦ (out.1, λ known. ground (arith, has-evict_entries s ks [] k known, out.0))
      ]

-- A resident location that is in the directory after an eviction was there before, and its page
-- was not evicted.
pub after_evict-away :
    (ks : List String) (s : StorageServer) (k : String) (loc : DataLocation)
    → Dict.get k (recorded (after_evict ks s)) ≡ some loc
    → loc.resident ≡ true
    → (Dict.get k (recorded s) ≡ some loc) × (Dict.has k s.key_len ≡ true → elem k ks ≡ false)
unfolding after_evict on_pool_evict
after_evict-away [] s k loc found here = (found, λ known. refl)
after_evict-away (j ∷ ks) s k loc found here = evict_effects-away s.disk (j ∷ ks) s k loc found here

-- The handlers' calls of the directory change nothing else.
abbrev pub Frame : StorageServer → StorageServer → Type 0
Frame s s' = (s'.pool ≡ s.pool) × (s'.key_len ≡ s.key_len) × (s'.memory ≡ s.memory)

pub put_some-Frame :
    (entries : Dict String DataLocation) (s : StorageServer) → Frame s (put_some entries s)
unfolding put_some emit
put_some-Frame [] s = (refl, refl, refl)
put_some-Frame (e ∷ entries) s = (refl, refl, refl)

pub delete_some-Frame : (ks : List String) (s : StorageServer) → Frame s (delete_some ks s)
unfolding delete_some emit
delete_some-Frame [] s = (refl, refl, refl)
delete_some-Frame (k ∷ ks) s = (refl, refl, refl)

evict_effects-Frame :
    (disk : Option DiskStore) (ks : List String) (s : StorageServer)
    → Frame s (evict_effects disk ks s)
unfolding evict_effects emit
evict_effects-Frame none ks s = (refl, refl, refl)
evict_effects-Frame (some disk) ks s = put_some-Frame (evict_entries s ks []) s

pub after_evict-Frame : (ks : List String) (s : StorageServer) → Frame s (after_evict ks s)
unfolding after_evict on_pool_evict
after_evict-Frame [] s = (refl, refl, refl)
after_evict-Frame (k ∷ ks) s = evict_effects-Frame s.disk (k ∷ ks) s
