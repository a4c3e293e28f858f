-- ===== src/Store/P2p/ReadBack.antt =====
-- What is published is what a reader of the directory's location gets.
use peer_cache.Base.{
  ℕ, ◌+◌, ◌≡◌, refl, sym, ap, subst, ◌∙◌, inl, inr, String, none, some, Bool, true, false, List, [],
  ◌∷◌, map, Distinct, All, All-map, get_elem?, zero, suc, eq_string, Bool-cases, of_some,
}
use peer_cache.Base.Memory.{string_at}
use peer_cache.Base.Ranges.{Apart}
use peer_cache.Base.Dict
use peer_cache.Base.Dict.{Dict, get-move_to_end}
use peer_cache.Types.{DataLocation}
use peer_cache.Pool
use peer_cache.Pool.{Pool}
use peer_cache.Pool.Tiling.{IsValid}
use peer_cache.Pool.Keeps.{address_of-Keeps, get-address_of}
use peer_cache.Storage.{StorageServer, put_some}
use peer_cache.Storage.Ingest.{pool_publish, reconcile}
use peer_cache.Storage.Honest.Replay.{recorded, put_some-Frame}
use peer_cache.Storage.Honest.Steps.{IsHonest, put_some-IsHonest}
use peer_cache.Storage.Honest.Pushed
use peer_cache.Storage.Honest.Pushed.{Kept, put_reconciled-IsHonest}
use peer_cache.Storage.Honest.Remote.{nothing_recorded}
use peer_cache.Store.Slots.Shared.{Page}
use peer_cache.Store.P2p.{publish_new, publish_page, publish_pages, publish_p2p}
use peer_cache.Store.P2p.Stands.{Stored, IsReady, Stands, publish_pages-Stands}

-- The page of the batch at an index.
all-get_elem :
    (P : Page → Type 0) (pages : List Page) (i : ℕ) (page : Page)
    → All P pages
    → get_elem? pages i ≡ some page
    → P page
all-get_elem P [] i page h found = absurd (cc)
all-get_elem P (x ∷ pages) zero page h found = subst P (of_some found) h.0
all-get_elem P (x ∷ pages) (suc i) page h found = all-get_elem P pages i page h.1 found

reconcile-Stored :
    (k : String) (len : ℕ) (bytes : List ℕ) (entries : Dict String DataLocation) (s : StorageServer)
    → Stored k len bytes s.pool s.memory
    → (let done = reconcile entries s in Stored k len bytes done.1.pool done.1.memory)
unfolding reconcile
reconcile-Stored k len bytes [] s h = h
reconcile-Stored k len bytes ((key, loc) ∷ entries) s h =
    let p = (Pool.address_of key s.pool).1 in
    reconcile-Stored k len bytes entries (record s { pool = p })
      (λ page found.
        let (old, here) = h page (sym (get-address_of k key s.pool) ∙ found) in
        (
          old,
          ap (λ b. string_at (b + page.0) len s.memory) (address_of-Keeps key s.pool).base ∙ here,
        ))

put_some-Stored :
    (k : String) (len : ℕ) (bytes : List ℕ) (entries : Dict String DataLocation) (s : StorageServer)
    → Stored k len bytes s.pool s.memory
    → (let s' = put_some entries s in Stored k len bytes s'.pool s'.memory)
put_some-Stored k len bytes entries s h =
    let frame = put_some-Frame entries s in
    subst (λ p. Stored k len bytes p (put_some entries s).memory) (sym frame.0)
      (subst (λ m. Stored k len bytes s.pool m) (sym frame.2) h)

publish_page-Kept :
    (old : Bool) (page : Page) (entries : Dict String DataLocation) (s : StorageServer)
    → Kept entries s
    → (let done = publish_page old page entries s in Kept done.1 done.2)
unfolding publish_page publish_new
publish_page-Kept true page entries s h = h
publish_page-Kept false page entries s h =
    let r = pool_publish page.key page.ptr page.size s in
    Pushed.publish_page-Kept page.key (string_at page.ptr page.size r.1.memory) page.ptr page.size
      entries s h

publish_pages-Kept :
    (pages : List Page) (existing : List Bool) (entries : Dict String DataLocation)
    (s : StorageServer)
    → Kept entries s
    → (let done = publish_pages pages existing entries s in Kept done.1 done.2)
unfolding publish_pages
publish_pages-Kept [] existing entries s h = h
publish_pages-Kept (page ∷ pages) [] entries s h = h
publish_pages-Kept (page ∷ pages) (old ∷ existing) entries s h =
    let one = publish_page old page entries s in
    publish_pages-Kept pages existing one.1 one.2 (publish_page-Kept old page entries s h)

-- The key is not in the pool, and the buffer lies outside the pool.
abbrev pub IsNew : Pool → Page → Type 0
IsNew p page = (Dict.get page.key p.entries ≡ none) × Apart page.ptr page.size p.base p.capacity

-- The directory tells what the pool has, and the pool has the bytes of the batch.
publish_p2p_sound :
    (update : Bool) (existing : List Bool) (pages : List Page) (s : StorageServer) (page : Page)
    (i : ℕ)
    → IsHonest s
    → IsValid s.pool
    → Distinct (map (λ page. page.key) pages)
    → All (IsNew s.pool) pages
    → get_elem? pages i ≡ some page
    → IsHonest (publish_p2p update existing pages s).1
      × Stored page.key page.size
          (string_at page.ptr page.size s.memory)
          (publish_p2p update existing pages s).1.pool
          (publish_p2p update existing pages s).1.memory
unfolding publish_p2p
publish_p2p_sound update existing pages s page i honest v d new found =
    let bytes : Page → List ℕ = λ x. string_at x.ptr x.size s.memory in
    let ready : All (IsReady bytes s.pool s.memory) pages =
      All-map (IsNew s.pool) (IsReady bytes s.pool s.memory) pages (λ x n. (n.0, n.1, refl)) new in
    let done = publish_pages pages existing [] s in
    let last = reconcile done.1 done.2 in
    let told =
      put_reconciled-IsHonest done.1 done.2 (publish_pages-Kept pages existing [] s (tt, honest)) in
    let stands = reconcile-Stored page.key page.size (bytes page) done.1 done.2 (
      all-get_elem (Stands bytes done.2.pool done.2.memory) pages i page
        (publish_pages-Stands bytes pages existing [] s v d ready) found) in
    elim (Bool-cases update) [
      | inr off ↦ rw off (told.1, stands)
      | inl on ↦ rw on (
        put_some-IsHonest last.0 last.1 told.0 told.1,
        put_some-Stored page.key page.size (bytes page) last.0 last.1 stands,
      )
    ]

-- A node that has not yet called the directory, with a valid pool, publishes a batch of pages with
-- different keys, none of them in the pool, from buffers outside the pool. Whatever the directory
-- had, however many pages are evicted on the way, and whether the batch itself is put into the
-- directory: a resident location that the node's calls leave under a key of the batch is one where
-- a reader of the page's size gets the bytes that the page's buffer had.
pub publish_p2p-read :
    (update : Bool) (existing : List Bool) (pages : List Page) (s : StorageServer) (i : ℕ)
    (page : Page) (loc : DataLocation)
    → s.effects ≡ []
    → IsValid s.pool
    → Distinct (map (λ page. page.key) pages)
    → All (IsNew s.pool) pages
    → get_elem? pages i ≡ some page
    → Dict.get page.key (recorded (publish_p2p update existing pages s).1) ≡ some loc
    → loc.resident ≡ true
    → string_at loc.remote_addr page.size (publish_p2p update existing pages s).1.memory
      ≡ string_at page.ptr page.size s.memory
publish_p2p-read update existing pages s i page loc none_yet v d new at found here =
    let s' = (publish_p2p update existing pages s).1 in
    let (honest, stored) =
      publish_p2p_sound update existing pages s page i (nothing_recorded s none_yet) v d new at in
    let a = honest page.key loc found here in
    ap (λ x. string_at x page.size s'.memory) a.there ∙ (stored a.page a.held).1
