-- ===== src/Storage/Honest/Pushed.antt =====
-- Pushed pages: the entries that `reconcile` gives tell where the pages are at the end of the batch.
use peer_cache.Base.{
  ℕ, ◌+◌, ◌≡◌, refl, sym, ap, ◌∙◌, inl, inr, subst, String, Option, none, some, Bool, List, [], ◌∷◌,
  ◌==◌, eq_string, All, Bool-cases, Option-cases, length, of_some,
}
use peer_cache.Base.Memory.{store}
use peer_cache.Base.Dict
use peer_cache.Base.Dict.{Dict}
use peer_cache.Types.{DataLocation}
use peer_cache.Pool
use peer_cache.Pool.{Pool}
use peer_cache.Pool.Keeps.{Keeps, address_of-Keeps}
use peer_cache.Storage.{StorageServer, disk_location}
use peer_cache.Storage.Ingest.{
  pool_publish, keep_page, ingest_data, ingest_page, ingest_pages, reconciled, reconcile, on_ingest,
}
use peer_cache.Storage.Honest.Replay.{recorded}
use peer_cache.Storage.Honest.Steps.{
  Tells, IsHonest, Known, IsAnnounced-Keeps, pool_publish-IsHonest, pool_publish-key_len,
  keep_page-IsHonest, address_of-IsHonest, put_some-IsHonest,
}

pub address_of-held :
    (key : String) (p : Pool) (al : ℕ × ℕ)
    → (Pool.address_of key p).0 ≡ some al
    → (page : ℕ × ℕ) × (Dict.get key p.entries ≡ some page) × (al.0 ≡ p.base + page.0)
unfolding Pool.address_of
address_of-held key p al = elim (Option-cases (Dict.get key p.entries)) [
  | inl missing ↦ rw (missing, Pool.address_of) (λ h. absurd (cc))
  | inr (page, found) ↦
      rw (found, Pool.address_of) (λ h. (page, refl, sym (ap (λ a. a.0) (of_some h))))
]

reconciled-Tells :
    (s : StorageServer) (key : String) (loc : DataLocation) (al : Option (ℕ × ℕ))
    → (Pool.address_of key s.pool).0 ≡ al
    → Known s.key_len (key, loc)
    → Tells s.key_len s.pool (key, reconciled s key al loc)
unfolding reconciled disk_location
reconciled-Tells s key loc none e known here = absurd (cc)
reconciled-Tells s key loc (some al) e known here =
    let (page, held, there) = address_of-held key s.pool al e in
    record { known = known; page = page; held = held; there = there }

pub reconcile-key_len :
    (entries : Dict String DataLocation) (s : StorageServer)
    → (reconcile entries s).1.key_len ≡ s.key_len
unfolding reconcile
reconcile-key_len [] s = refl
reconcile-key_len ((key, loc) ∷ entries) s =
    reconcile-key_len entries (record s { pool = (Pool.address_of key s.pool).1 })

pub reconcile-Keeps :
    (entries : Dict String DataLocation) (s : StorageServer)
    → Keeps s.pool (reconcile entries s).1.pool []
unfolding reconcile
reconcile-Keeps [] s = record { base = refl; capacity = refl; kept = λ k page found out. found }
reconcile-Keeps ((key, loc) ∷ entries) s =
    let one = address_of-Keeps key s.pool in
    let more = reconcile-Keeps entries (record s { pool = (Pool.address_of key s.pool).1 }) in
    record {
      base = more.base ∙ one.base;
      capacity = more.capacity ∙ one.capacity;
      kept = λ k page found out. more.kept k page (one.kept k page found out) out;
    }

pub reconcile-Tells :
    (entries : Dict String DataLocation) (s : StorageServer)
    → All (Known s.key_len) entries
    → All (Tells s.key_len (reconcile entries s).1.pool) (reconcile entries s).0
unfolding reconcile
reconcile-Tells [] s known = tt
reconcile-Tells ((key, loc) ∷ entries) s known =
    let found = Pool.address_of key s.pool in
    (
      λ here.
          IsAnnounced-Keeps key (reconciled s key found.0 loc)
            (reconcile-Keeps ((key, loc) ∷ entries) s) refl
            (reconciled-Tells s key loc found.0 refl known.0 here),
      reconcile-Tells entries (record s { pool = found.1 }) known.1,
    )

pub reconcile-IsHonest :
    (entries : Dict String DataLocation) (s : StorageServer)
    → IsHonest s
    → IsHonest (reconcile entries s).1
unfolding reconcile
reconcile-IsHonest [] s h = h
reconcile-IsHonest ((key, loc) ∷ entries) s h =
    reconcile-IsHonest entries (record s { pool = (Pool.address_of key s.pool).1 })
      (address_of-IsHonest key s h)

-- The loop's invariant: what it has kept has a known length, and the directory is honest.
abbrev pub Kept : Dict String DataLocation → StorageServer → Type 0
Kept entries s = All (Known s.key_len) entries × IsHonest s

-- The end of a batch.
pub put_reconciled-IsHonest :
    (entries : Dict String DataLocation) (s : StorageServer)
    → Kept entries s
    → All
        (Tells (reconcile entries s).1.key_len (reconcile entries s).1.pool)
        (reconcile entries s).0
      × IsHonest (reconcile entries s).1
put_reconciled-IsHonest entries s h = (
  subst (λ l. All (Tells l (reconcile entries s).1.pool) (reconcile entries s).0)
      (sym (reconcile-key_len entries s)) (reconcile-Tells entries s h.0),
  reconcile-IsHonest entries s h.1,
)

pub publish_page-Kept :
    (key : String) (page : List ℕ) (src len : ℕ) (entries : Dict String DataLocation)
    (s : StorageServer)
    → Kept entries s
    → Kept
        (keep_page key page len
          (pool_publish key src len s).0
          entries
          (pool_publish key src len s).1).1
        (keep_page key page len
          (pool_publish key src len s).0
          entries
          (pool_publish key src len s).1).2
publish_page-Kept key page src len entries s h =
    let r = pool_publish key src len s in
    keep_page-IsHonest key page len r.0 entries r.1
      (subst (λ l. All (Known l) entries) (sym (pool_publish-key_len key src len s)) h.0)
      (pool_publish-IsHonest key src len s h.1)

module _ (buf : String → ℕ) (exists : String → Bool) where
  ingest_page-Kept :
      (page : String × Option (List ℕ)) (entries : Dict String DataLocation) (s : StorageServer)
      → Kept entries s
      → Kept (ingest_page buf exists page entries s).1 (ingest_page buf exists page entries s).2
  unfolding ingest_page ingest_data recorded
  ingest_page-Kept (key, none) entries s h = h
  ingest_page-Kept (key, some page) entries s h = elim (Bool-cases (key == "")) [
    | inl no_key ↦ rw no_key h
    | inr a_key ↦ elim (Bool-cases (exists key)) [
      | inl old ↦ rw (a_key, old) h
      | inr new ↦
          rw (a_key, new)
            (publish_page-Kept key page (buf key) (length page) entries
              (record s { memory = store (buf key) page s.memory }) h)
    ]
  ]

  ingest_pages-Kept :
      (pages : List (String × Option (List ℕ))) (entries : Dict String DataLocation)
      (s : StorageServer)
      → Kept entries s
      → Kept (ingest_pages buf exists pages entries s).1 (ingest_pages buf exists pages entries s).2
  unfolding ingest_pages
  ingest_pages-Kept [] entries s h = h
  ingest_pages-Kept (page ∷ pages) entries s h =
      let one = ingest_page buf exists page entries s in
      ingest_pages-Kept pages one.1 one.2 (ingest_page-Kept page entries s h)

  pub on_ingest-IsHonest :
      (pages : List (String × Option (List ℕ))) (s : StorageServer)
      → IsHonest s
      → IsHonest (on_ingest buf exists pages s).1
  unfolding on_ingest
  on_ingest-IsHonest pages s h =
      let done = ingest_pages buf exists pages [] s in
      let last = put_reconciled-IsHonest done.1 done.2 (ingest_pages-Kept pages [] s (tt, h)) in
      put_some-IsHonest (reconcile done.1 done.2).0 (reconcile done.1 done.2).1 last.0 last.1
