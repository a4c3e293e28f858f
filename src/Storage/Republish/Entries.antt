-- ===== src/Storage/Republish/Entries.antt =====
-- Many entries put into the directory, in batches and over what stood there.
use peer_cache.Base.{
  ℕ, zero, suc, ◌-◌, ◌≤◌, ◌≡◌, refl, sym, ap, ◌∙◌, inl, inr, arith, String, Option, none, some, [],
  ◌∷◌, ◌++◌, map, length, take, drop, ◌==◌, eq_string, ==_iff, Bool-cases, if◌then◌else◌,
}
use peer_cache.Base.Dict
use peer_cache.Base.Dict.{Dict, Unique, get-put, Unique-put}
use peer_cache.Types.{DataLocation}
use peer_cache.Storage.{StorageServer, put_entries, emit}
use peer_cache.Storage.Ingest.{disk_only, put_chunks}
use peer_cache.Storage.Honest.Replay.{recorded, recorded-emit, apply_effect, put_all}

-- What stands under a key after an update that has a location for it, or none.
abbrev pub update {ℓ} : {A : Type ℓ} → Option A → Option A → Option A
update none before = before
update (some a) before = some a

take-drop : (n : ℕ) (es : Dict String DataLocation) → take n es ++ drop n es ≡ es
take-drop zero es = refl
take-drop (suc n) [] = refl
take-drop (suc n) (e ∷ es) = ap (λ xs. e ∷ xs) (take-drop n es)

length-drop : (n : ℕ) (es : Dict String DataLocation) → length (drop n es) ≡ length es - n
length-drop zero es = omega arith
length-drop (suc n) [] = omega arith
length-drop (suc n) (e ∷ es) = omega (arith, length-drop n es)

put_all-append :
    (xs ys d : Dict String DataLocation) → put_all (xs ++ ys) d ≡ put_all ys (put_all xs d)
unfolding put_all
put_all-append [] ys d = refl
put_all-append ((k, loc) ∷ xs) ys d = put_all-append xs ys (Dict.put k loc d)

pub recorded-put_chunks :
    (n : ℕ) (entries : Dict String DataLocation) (s : StorageServer)
    → length entries ≤ n
    → recorded (put_chunks n entries s) ≡ put_all entries (recorded s)
unfolding put_chunks put_all apply_effect
recorded-put_chunks zero [] s h = refl
recorded-put_chunks zero (e ∷ entries) s h = absurd (omega arith)
recorded-put_chunks (suc n) [] s h = refl
recorded-put_chunks (suc n) (e ∷ entries) s h =
    let es : Dict String DataLocation = e ∷ entries in
    let chunk = take 512 es in
    recorded-put_chunks n (drop 512 es) (emit (put_entries chunk) s)
      (omega (arith, length-drop 512 es))
    ∙ ap (put_all (drop 512 es)) (recorded-emit (put_entries chunk) s)
    ∙ sym (put_all-append chunk (drop 512 es) (recorded s))
    ∙ ap (λ xs. put_all xs (recorded s)) (take-drop 512 es)

pub get-put_all :
    (k : String) (entries d : Dict String DataLocation)
    → Unique entries
    → Dict.get k (put_all entries d) ≡ update (Dict.get k entries) (Dict.get k d)
unfolding put_all Dict.get
get-put_all k [] d u = refl
get-put_all k ((j, loc) ∷ entries) d u = elim (Bool-cases (j == k)) [
  | inl same ↦
      let e : j ≡ k = (==_iff j k).0 same in
      let absent : Dict.get k entries ≡ none = ap (λ x. Dict.get x entries) (sym e) ∙ u.0 in
      rw (same, get-put_all k entries (Dict.put j loc d) u.1, absent, get-put j k loc d, same) refl
  | inr other ↦
      rw (other, get-put_all k entries (Dict.put j loc d) u.1, get-put j k loc d, other) refl
]

module _ {A : Type 0} (f : A → DataLocation) where
  abbrev pub mapped : Option A → Option DataLocation
  mapped none = none
  mapped (some a) = some (f a)

  get-map :
      (k : String) (d : Dict String A)
      → Dict.get k (map (λ e. (e.0, f e.1)) d) ≡ mapped (Dict.get k d)
  unfolding Dict.get
  get-map k [] = refl
  get-map k ((j, a) ∷ d) = elim (Bool-cases (j == k)) [
    | inl same ↦ rw same refl
    | inr other ↦ rw other (get-map k d)
  ]

  Unique-map : (d : Dict String A) → Unique d → Unique (map (λ e. (e.0, f e.1)) d)
  Unique-map [] u = tt
  Unique-map ((j, a) ∷ d) u = (get-map j d ∙ ap mapped u.0, Unique-map d u.1)

  -- The entries made of a dict, put over what stood there.
  pub get-put_mapped :
      (k : String) (d : Dict String A) (before : Dict String DataLocation)
      → Unique d
      → Dict.get k (put_all (map (λ e. (e.0, f e.1)) d) before)
        ≡ update (mapped (Dict.get k d)) (Dict.get k before)
  get-put_mapped k d before u =
      get-put_all k (map (λ e. (e.0, f e.1)) d) before (Unique-map d u)
      ∙ ap (λ o. update o (Dict.get k before)) (get-map k d)

pub Unique-put_all : (entries d : Dict String DataLocation) → Unique d → Unique (put_all entries d)
unfolding put_all
Unique-put_all [] d u = u
Unique-put_all ((k, loc) ∷ entries) d u =
    Unique-put_all entries (Dict.put k loc d) (Unique-put k loc d u)

pub get-disk_only :
    (k : String) (entries : Dict String DataLocation) (lengths : Dict String ℕ)
    → Dict.get k (disk_only entries lengths)
      ≡ (if Dict.has k entries then none else Dict.get k lengths)
unfolding disk_only Dict.get
get-disk_only k entries [] = ground arith
get-disk_only k entries ((j, len) ∷ lengths) =
    ground (arith, get-disk_only k entries lengths, ==_iff j k)

pub disk_only-Unique :
    (entries : Dict String DataLocation) (lengths : Dict String ℕ)
    → Unique lengths
    → Unique (disk_only entries lengths)
unfolding disk_only
disk_only-Unique entries [] u = tt
disk_only-Unique entries ((j, len) ∷ lengths) u = elim (Bool-cases (Dict.has j entries)) [
  | inl there ↦ rw there (disk_only-Unique entries lengths u.1)
  | inr new ↦
      rw new (rw (get-disk_only j entries lengths, new) u.0, disk_only-Unique entries lengths u.1)
]
