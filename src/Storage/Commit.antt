-- ===== src/Storage/Commit.antt =====
-- What `_on_data_commit_writes` answers, and what it announces in the directory.
use peer_cache.Base.{
  ℕ, ◌+◌, ◌≡◌, refl, ap, sym, ◌∙◌, inl, inr, String, Option, none, some, Bool, true, false, List,
  [], ◌∷◌, ◌++◌, map, ◌==◌, ==_iff, eq_string, ◌||◌, if◌then◌else◌, Bool-cases, Option-cases, elem,
}
use peer_cache.Base.Dict
use peer_cache.Base.Dict.{Dict, get-move_to_end, get-put}
use peer_cache.Types.{DataLocation}
use peer_cache.Pool.{Pool, address_of, touch, contains}
use peer_cache.Storage.{
  put_entries, StorageServer, resident_location, emit, put_some, commit_page, commit_pages,
  commit_writes,
}

-- Where the pages of the pool are.
unfoldable location_at : StorageServer → Option (ℕ × ℕ) → Option DataLocation
location_at s none = none
location_at s (some page) = some (resident_location s (s.pool.base + page.0) page.1)

unfoldable announced : StorageServer → String → Option DataLocation
announced s key = location_at s (Dict.get key s.pool.entries)

unfoldable or_else : Option DataLocation → Option DataLocation → Option DataLocation
or_else none old = old
or_else (some loc) old = some loc

location_at-touch :
    (key : String) (s : StorageServer) (page : Option (ℕ × ℕ))
    → location_at (record s { pool = touch key s.pool }) page ≡ location_at s page
unfolding location_at touch resident_location
location_at-touch key s none = refl
location_at-touch key s (some page) = refl

-- A lookup only moves the key to the end of the order of use.
touch-announced :
    (key j : String) (s : StorageServer)
    → announced (record s { pool = touch key s.pool }) j ≡ announced s j
unfolding announced touch
touch-announced key j s =
    ap (location_at (record s { pool = touch key s.pool })) (get-move_to_end key j s.pool.entries)
    ∙ location_at-touch key s (Dict.get j s.pool.entries)

address_of-announced :
    (key j : String) (s : StorageServer)
    → announced (record s { pool = (address_of key s.pool).1 }) j ≡ announced s j
unfolding address_of
address_of-announced key j s = elim (Option-cases (Dict.get key s.pool.entries)) [
  | inl missing ↦ rw (missing, address_of) refl
  | inr (page, found) ↦ rw (found, address_of) (touch-announced key j s)
]

location_at-commit :
    (key : String) (al : Option (ℕ × ℕ)) (entries : Dict String DataLocation) (s : StorageServer)
    (page : Option (ℕ × ℕ))
    → location_at (commit_page key al entries s).2 page ≡ location_at s page
unfolding location_at commit_page resident_location
location_at-commit key none entries s page = refl
location_at-commit key (some al) entries s none = refl
location_at-commit key (some al) entries s (some page) = refl

commit_page-announced :
    (key j : String) (al : Option (ℕ × ℕ)) (entries : Dict String DataLocation) (s : StorageServer)
    → announced (commit_page key al entries s).2 j ≡ announced s j
unfolding announced commit_page
commit_page-announced key j none entries s = refl
commit_page-announced key j (some al) entries s =
    location_at-commit key (some al) entries s (Dict.get j s.pool.entries)

if_same : (b : Bool) (x : Option DataLocation) → (if b then or_else none x else x) ≡ x
unfolding or_else
if_same true x = refl
if_same false x = refl

commit_page-result :
    (key : String) (entries : Dict String DataLocation) (s : StorageServer)
    → (commit_page key
        (address_of key s.pool).0
        entries
        (record s { pool = (address_of key s.pool).1 })).0
      ≡ contains key s.pool
unfolding commit_page address_of contains Dict.has
commit_page-result key entries s = elim (Option-cases (Dict.get key s.pool.entries)) [
  | inl missing ↦ rw (missing, address_of, contains, Dict.has) refl
  | inr (page, found) ↦ rw (found, address_of, contains, Dict.has) refl
]

commit_page-get :
    (key j : String) (entries : Dict String DataLocation) (s : StorageServer)
    → Dict.get j
        (commit_page key
          (address_of key s.pool).0
          entries
          (record s { pool = (address_of key s.pool).1 })).1
      ≡ (if key == j then or_else (announced s key) (Dict.get j entries) else Dict.get j entries)
unfolding commit_page address_of announced location_at or_else touch resident_location
commit_page-get key j entries s = elim (Option-cases (Dict.get key s.pool.entries)) [
  | inl missing ↦ rw (missing, address_of) (sym (if_same (key == j) (Dict.get j entries)))
  | inr (page, found) ↦
      rw (found, address_of)
        (get-put key j (resident_location s (s.pool.base + page.0) page.1) entries)
]

one-announced :
    (key j : String) (entries : Dict String DataLocation) (s : StorageServer)
    → announced
        (commit_page key
          (address_of key s.pool).0
          entries
          (record s { pool = (address_of key s.pool).1 })).2
        j
      ≡ announced s j
one-announced key j entries s =
    commit_page-announced key j (address_of key s.pool).0 entries
      (record s { pool = (address_of key s.pool).1 })
    ∙ address_of-announced key j s

or_else_twice : (a x : Option DataLocation) → or_else a (or_else a x) ≡ or_else a x
unfolding or_else
or_else_twice none x = refl
or_else_twice (some loc) x = refl

-- How the announcement of one key and those of the rest combine.
announce_more :
    (here later : Bool) (a x : Option DataLocation)
    → (if later
        then or_else a (if here then or_else a x else x)
        else (if here then or_else a x else x))
      ≡ (if here || later then or_else a x else x)
announce_more true true a x = or_else_twice a x
announce_more true false a x = refl
announce_more false true a x = refl
announce_more false false a x = refl

same_key :
    (key j : String) (s : StorageServer) (x : Option DataLocation)
    → (if key == j then or_else (announced s key) x else x)
      ≡ (if key == j then or_else (announced s j) x else x)
same_key key j s x = elim (Bool-cases (key == j)) [
  | inl same ↦ rw same (ap (λ k. or_else (announced s k) x) ((==_iff key j).0 same))
  | inr other ↦ rw other refl
]

commit_pages-get :
    (keys : List String) (j : String) (entries : Dict String DataLocation) (s : StorageServer)
    → Dict.get j (commit_pages keys entries s).1
      ≡ (if elem j keys then or_else (announced s j) (Dict.get j entries) else Dict.get j entries)
unfolding commit_pages
commit_pages-get [] j entries s = refl
commit_pages-get (key ∷ keys) j entries s =
    let one =
      commit_page key (address_of key s.pool).0 entries
        (record s { pool = (address_of key s.pool).1 }) in
    let old = Dict.get j entries in
    commit_pages-get keys j one.1 one.2
    ∙ ap (λ a. if elem j keys then or_else a (Dict.get j one.1) else Dict.get j one.1)
        (one-announced key j entries s)
    ∙ ap (λ x. if elem j keys then or_else (announced s j) x else x)
        (commit_page-get key j entries s ∙ same_key key j s old)
    ∙ announce_more (key == j) (elem j keys) (announced s j) old

unfoldable answered : Option (ℕ × ℕ) → Bool
answered none = false
answered (some page) = true

has-answered : (j : String) (d : Dict String (ℕ × ℕ)) → Dict.has j d ≡ answered (Dict.get j d)
unfolding Dict.has answered
has-answered j d = elim (Option-cases (Dict.get j d)) [
  | inl missing ↦ rw (missing, Dict.has) refl
  | inr (page, found) ↦ rw (found, Dict.has) refl
]

has-address_of : (key j : String) (p : Pool) → contains j (address_of key p).1 ≡ contains j p
unfolding address_of contains touch
has-address_of key j p = elim (Option-cases (Dict.get key p.entries)) [
  | inl missing ↦ rw (missing, address_of) refl
  | inr (page, found) ↦
      rw (found, address_of)
        (has-answered j (Dict.move_to_end key p.entries)
          ∙ ap answered (get-move_to_end key j p.entries)
          ∙ sym (has-answered j p.entries))
]

commit_page-rest :
    (key : String) (al : Option (ℕ × ℕ)) (entries : Dict String DataLocation) (s : StorageServer)
    → ((commit_page key al entries s).2.pool ≡ s.pool)
      × ((commit_page key al entries s).2.effects ≡ s.effects)
unfolding commit_page
commit_page-rest key none entries s = (refl, refl)
commit_page-rest key (some al) entries s = (refl, refl)

commit_pages-effects :
    (keys : List String) (entries : Dict String DataLocation) (s : StorageServer)
    → (commit_pages keys entries s).2.effects ≡ s.effects
unfolding commit_pages
commit_pages-effects [] entries s = refl
commit_pages-effects (key ∷ keys) entries s =
    let s' = record s { pool = (address_of key s.pool).1 } in
    let one = commit_page key (address_of key s.pool).0 entries s' in
    commit_pages-effects keys one.1 one.2
    ∙ (commit_page-rest key (address_of key s.pool).0 entries s').1

commit_pages-results :
    (keys : List String) (entries : Dict String DataLocation) (s : StorageServer)
    → (commit_pages keys entries s).0 ≡ map (λ k. contains k s.pool) keys
unfolding commit_pages
commit_pages-results [] entries s = refl
commit_pages-results (key ∷ keys) entries s =
    let s' = record s { pool = (address_of key s.pool).1 } in
    let al = (address_of key s.pool).0 in
    let one = commit_page key al entries s' in
    ap (λ ok. ok ∷ (commit_pages keys one.1 one.2).0) (commit_page-result key entries s)
    ∙ ap (λ oks. contains key s.pool ∷ oks) (commit_pages-results keys one.1 one.2)
    ∙ ap (λ f. contains key s.pool ∷ map f keys)
        (λ i k.
          (ap (contains k) (commit_page-rest key al entries s').0 ∙ has-address_of key k s.pool) i)

put_some-effects :
    (j : String) (loc : DataLocation) (entries : Dict String DataLocation) (s : StorageServer)
    → Dict.get j entries ≡ some loc
    → (put_some entries s).effects ≡ s.effects ++ put_entries entries ∷ []
unfolding put_some emit Dict.get
put_some-effects j loc [] s h = absurd (cc)
put_some-effects j loc (e ∷ entries) s h = refl

commit_writes-results :
    (keys : List String) (s : StorageServer)
    → (commit_writes keys s).0 ≡ map (λ k. contains k s.pool) keys
unfolding commit_writes
commit_writes-results keys s = commit_pages-results keys [] s

-- A commit answers true for exactly the keys that have a page in the pool; and where one of the
-- keys has a page, the commit makes one call of `directory.put`, whose entry for that key is the
-- resident location of its page, with the page's address and length.
commit_writes_lem :
    (keys : List String) (j : String) (s : StorageServer) (page : ℕ × ℕ)
    → elem j keys ≡ true
    → Dict.get j s.pool.entries ≡ some page
    → ((commit_writes keys s).0 ≡ map (λ k. contains k s.pool) keys)
      × (entries : Dict String DataLocation) × ((commit_writes keys s).1.effects
          ≡ s.effects ++ put_entries entries ∷ [])
      × (Dict.get j entries ≡ some (resident_location s (s.pool.base + page.0) page.1))
unfolding commit_writes announced location_at or_else
commit_writes_lem keys j s page asked found =
    let done = commit_pages keys [] s in
    let listed =
      commit_pages-get keys j [] s
      ∙ ap (λ b. if b then or_else (announced s j) (Dict.get j []) else Dict.get j []) asked
      ∙ ap (λ page. or_else (location_at s page) (Dict.get j [])) found in
    (
      commit_writes-results keys s,
      done.1,
      put_some-effects j (resident_location s (s.pool.base + page.0) page.1) done.1 done.2 listed
          ∙ ap (λ effects. effects ++ put_entries done.1 ∷ []) (commit_pages-effects keys [] s),
      listed,
    )
