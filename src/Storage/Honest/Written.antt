-- ===== src/Storage/Honest/Written.antt =====
-- Remote writes: reservations and commits keep the directory honest.
use peer_cache.Base.{
  ℕ, ◌+◌, ◌≡◌, refl, sym, ap, ◌∙◌, subst, inl, inr, String, Option, none, some, Bool, List, [], ◌∷◌,
  ◌==◌, eq_string, eq_ℕ, ==_refl, ◌||◌, All, All-map, Bool-cases,
}
use peer_cache.Base.Dict
use peer_cache.Base.Dict.{Dict, has-put, has-remove, get-put_self}
use peer_cache.Base.Entries.{All-put}
use peer_cache.Types.{DataLocation}
use peer_cache.Pool
use peer_cache.Pool.{Pool}
use peer_cache.Pool.Keeps.{address_of-Keeps}
use peer_cache.Storage.{
  StorageServer, resident_location, known_page, prepare_page, prepare_writes, commit_page,
  commit_pages, commit_writes,
}
use peer_cache.Storage.Honest.Replay.{recorded}
use peer_cache.Storage.Honest.Steps.{
  Tells, IsHonest, IsAnnounced-Keeps, IsAnnounced-put, reserve_page-IsHonest, address_of-IsHonest,
  put_some-IsHonest,
}
use peer_cache.Storage.Honest.Pushed.{address_of-held}

known_page-IsHonest :
    (key : String) (len : ℕ) (al : Option (ℕ × ℕ)) (s : StorageServer)
    → IsHonest s
    → IsHonest (known_page key len al s).1
unfolding known_page
known_page-IsHonest key len none s h = reserve_page-IsHonest key len s h
known_page-IsHonest key len (some al) s h = h

prepare_page-IsHonest :
    (exists : String → Bool) (page : String × ℕ) (s : StorageServer)
    → IsHonest s
    → IsHonest (prepare_page exists page s).1
unfolding prepare_page
prepare_page-IsHonest exists (key, len) s h = elim (Bool-cases (key == "" || len == 0)) [
  | inl nothing ↦ rw nothing h
  | inr asked ↦ elim (Bool-cases (exists key)) [
    | inr new ↦ rw (asked, new) (reserve_page-IsHonest key len s h)
    | inl old ↦
        rw (asked, old)
          (known_page-IsHonest key len (Pool.address_of key s.pool).0
            (record s { pool = (Pool.address_of key s.pool).1 }) (address_of-IsHonest key s h))
  ]
]

pub prepare_writes-IsHonest :
    (exists : String → Bool) (pages : List (String × ℕ)) (s : StorageServer)
    → IsHonest s
    → IsHonest (prepare_writes exists pages s).1
unfolding prepare_writes
prepare_writes-IsHonest exists [] s h = h
prepare_writes-IsHonest exists (page ∷ pages) s h =
    prepare_writes-IsHonest exists pages (prepare_page exists page s).1
      (prepare_page-IsHonest exists page s h)

-- The loop's invariant: what is going to be put tells the truth, and so does the directory.
abbrev pub Told : Dict String DataLocation → StorageServer → Type 0
Told entries s = All (Tells s.key_len s.pool) entries × IsHonest s

Tells-put :
    (j : String) (len : ℕ) (lengths : Dict String ℕ) (p : Pool) (entries : Dict String DataLocation)
    → All (Tells lengths p) entries
    → All (Tells (Dict.put j len lengths) p) entries
Tells-put j len lengths p entries h =
    All-map (Tells lengths p) (Tells (Dict.put j len lengths) p) entries
      (λ e t here. IsAnnounced-put j e.0 len e.1 (t here)) h

-- A touched page stays where it is.
address_of-Told :
    (key : String) (entries : Dict String DataLocation) (s : StorageServer)
    → Told entries s
    → Told entries (record s { pool = (Pool.address_of key s.pool).1 })
address_of-Told key entries s h = (
  All-map (Tells s.key_len s.pool) (Tells s.key_len (Pool.address_of key s.pool).1) entries
      (λ e t here. IsAnnounced-Keeps e.0 e.1 (address_of-Keeps key s.pool) refl (t here)) h.0,
  address_of-IsHonest key s h.1,
)

-- A key whose page is in the pool is entered, and its length is known from then on.
pub enter-Told :
    (key : String) (len : ℕ) (page : ℕ × ℕ) (loc : DataLocation)
    (entries : Dict String DataLocation) (s s' : StorageServer)
    → Dict.get key s.pool.entries ≡ some page
    → loc.remote_addr ≡ s.pool.base + page.0
    → s' ≡ record s { key_len = Dict.put key len s.key_len; disk = s'.disk }
    → Told entries s
    → Told (Dict.put key loc entries) s'
unfolding recorded
enter-Told key len page loc entries s s' held there same h =
    let lengths = Dict.put key len s.key_len in
    subst (Told (Dict.put key loc entries)) (sym same) (
      All-put (Tells lengths s.pool) key loc entries
          (λ here. record {
            known = rw (has-put key key len s.key_len, ==_refl key) refl;
            page = page;
            held = held;
            there = there;
          })
          (Tells-put key len s.key_len s.pool entries h.0),
      λ k l found here. IsAnnounced-put key k len l (h.1 k l found here),
    )

commit_page-Told :
    (key : String) (al : Option (ℕ × ℕ)) (entries : Dict String DataLocation) (s : StorageServer)
    → ((x : ℕ × ℕ)
        → al ≡ some x
        → (page : ℕ × ℕ) × (Dict.get key s.pool.entries ≡ some page) × (x.0 ≡ s.pool.base + page.0))
    → Told entries s
    → Told (commit_page key al entries s).1 (commit_page key al entries s).2
unfolding commit_page resident_location
commit_page-Told key none entries s held h = h
commit_page-Told key (some al) entries s held h =
    let (page, found, there) = held al refl in
    enter-Told key al.1 page (resident_location s al.0 al.1) entries s
      (commit_page key (some al) entries s).2 found there refl h

commit_pages-Told :
    (keys : List String) (entries : Dict String DataLocation) (s : StorageServer)
    → Told entries s
    → Told (commit_pages keys entries s).1 (commit_pages keys entries s).2
unfolding commit_pages
commit_pages-Told [] entries s h = h
commit_pages-Told (key ∷ keys) entries s h =
    let found = Pool.address_of key s.pool in
    let s' = record s { pool = found.1 } in
    let one = commit_page key found.0 entries s' in
    commit_pages-Told keys one.1 one.2 (
      commit_page-Told key found.0 entries s'
        (λ x e.
          let (page, held, there) = address_of-held key s.pool x e in
          let kept = address_of-Keeps key s.pool in
          (page, kept.kept key page held refl, there ∙ ap (λ b. b + page.0) (sym kept.base)))
        (address_of-Told key entries s h))

pub commit_writes-IsHonest :
    (keys : List String) (s : StorageServer) → IsHonest s → IsHonest (commit_writes keys s).1
unfolding commit_writes
commit_writes-IsHonest keys s h =
    let done = commit_pages keys [] s in
    let told = commit_pages-Told keys [] s (tt, h) in put_some-IsHonest done.1 done.2 told.0 told.1
