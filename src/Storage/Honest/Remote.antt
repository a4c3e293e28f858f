-- ===== src/Storage/Honest/Remote.antt =====
-- The handlers together: no resident location in the directory is stale.
use peer_cache.Base.{
  ℕ, ◌+◌, ◌≤◌, ◌≡◌, refl, sym, subst, arith, String, Option, none, some, true, false, List, [], ◌∷◌,
  eq_string, eq_ℕ, ==_iff, elem, All, length,
}
use peer_cache.Base.Memory.{store}
use peer_cache.Base.Dict
use peer_cache.Base.Dict.{Dict, has-put, has-remove, get-put_self}
use peer_cache.Types.{DataLocation}
use peer_cache.Pool
use peer_cache.Pool.{Pool}
use peer_cache.Pool.Keeps.{publish-Keeps, publish-held}
use peer_cache.Storage.{
  StorageServer, resident_location, delete_keys, put_some, after_evict, prepare_writes,
  commit_writes, promoted_page, publish_page, promote_page, promote_pages, ensure_resident, misses,
  on_promote, read_disk, pop_lengths, on_disk_evict,
}
use peer_cache.Storage.Ingest.{on_ingest}
use peer_cache.Storage.Requests.{
  Request, prepare, commit, promote, ingest, disk_evict, serve, serve_all,
}
use peer_cache.Storage.Honest.Replay.{
  recorded, replay, recorded-emit, apply_effect, get-delete_all, after_evict-Frame,
}
use peer_cache.Storage.Honest.Steps.{
  IsHonest, after_evict-IsHonest, address_of-IsHonest, put_some-IsHonest, delete_some-IsHonest,
}
use peer_cache.Storage.Honest.Pushed.{on_ingest-IsHonest}
use peer_cache.Storage.Honest.Written.{
  Told, enter-Told, prepare_writes-IsHonest, commit_writes-IsHonest,
}

promoted_page-Told :
    (key : String) (len : ℕ) (addr : Option ℕ) (s : StorageServer)
    → ((x : ℕ)
        → addr ≡ some x
        → (page : ℕ × ℕ) × (Dict.get key s.pool.entries ≡ some page) × (x ≡ s.pool.base + page.0))
    → IsHonest s
    → Told (promoted_page key len addr [] s).1 (promoted_page key len addr [] s).2
unfolding promoted_page resident_location
promoted_page-Told key len none s held h = (tt, h)
promoted_page-Told key len (some addr) s held h =
    let (page, found, there) = held addr refl in
    enter-Told key len page (resident_location s addr len) [] s
      (promoted_page key len (some addr) [] s).2 found there refl (tt, h)

publish_page-Told :
    (buf : String → ℕ) (key : String) (page : Option (List ℕ)) (s : StorageServer)
    → IsHonest s
    → Told (publish_page buf key page [] s).1 (publish_page buf key page [] s).2
unfolding publish_page recorded
publish_page-Told buf key none s h = (tt, h)
publish_page-Told buf key (some page) s h =
    let m = store (buf key) page s.memory in
    let r = Pool.publish key (buf key) (length page) s.pool m in
    let s' : StorageServer = record s { pool = r.pool; memory = r.memory } in
    let there : (x : ℕ)
        → r.addr ≡ some x
        → (page : ℕ × ℕ) × (Dict.get key (after_evict r.evicted s').pool.entries ≡ some page)
          × (x ≡ (after_evict r.evicted s').pool.base + page.0) =
      λ x e.
        subst (λ q. (page : ℕ × ℕ) × (Dict.get key q.entries ≡ some page) × (x ≡ q.base + page.0))
          (sym (after_evict-Frame r.evicted s').0)
          (publish-held key (buf key) (length page) s.pool m x e) in
    promoted_page-Told key (length page) r.addr (after_evict r.evicted s') there (
      after_evict-IsHonest r.evicted s' s.pool (publish-Keeps key (buf key) (length page) s.pool m)
        h)

promote_page-Told :
    (buf : String → ℕ) (key : String) (al : Option (ℕ × ℕ)) (s : StorageServer)
    → IsHonest s
    → Told (promote_page buf key al [] s).1 (promote_page buf key al [] s).2
unfolding promote_page recorded
promote_page-Told buf key none s h =
    let found = read_disk key s.disk in
    publish_page-Told buf key found.0 (record s { disk = found.1 }) h
promote_page-Told buf key (some al) s h = (tt, h)

promote_one-Told :
    (buf : String → ℕ) (keys : List String) (s : StorageServer)
    → length keys ≤ 1
    → IsHonest s
    → Told (promote_pages buf keys [] s).1 (promote_pages buf keys [] s).2
unfolding promote_pages
promote_one-Told buf [] s few h = (tt, h)
promote_one-Told buf (key ∷ []) s few h =
    let found = Pool.address_of key s.pool in
    promote_page-Told buf key found.0 (record s { pool = found.1 }) (address_of-IsHonest key s h)
promote_one-Told buf (key ∷ j ∷ keys) s few h = absurd (omega arith)

on_promote-IsHonest :
    (buf : String → ℕ) (keys : List String) (s : StorageServer)
    → length keys ≤ 1
    → IsHonest s
    → IsHonest (on_promote buf keys s).1
unfolding on_promote ensure_resident
on_promote-IsHonest buf keys s few h =
    let done = promote_pages buf keys [] s in
    let told = promote_one-Told buf keys s few h in
    delete_some-IsHonest (misses keys done.0) (put_some done.1 done.2)
      (put_some-IsHonest done.1 done.2 told.0 told.1)

has-pop_lengths :
    (ks : List String) (lengths : Dict String ℕ) (k : String)
    → elem k ks ≡ false
    → Dict.has k lengths ≡ true
    → Dict.has k (pop_lengths ks lengths) ≡ true
unfolding pop_lengths
has-pop_lengths [] lengths k out known = known
has-pop_lengths (j ∷ ks) lengths k out known =
    has-pop_lengths ks (Dict.remove j lengths) k (ground arith)
      (rw (has-remove j k lengths) (ground (arith, ==_iff j k, ==_iff k j)))

on_disk_evict-IsHonest :
    (evicted : List String) (s : StorageServer) → IsHonest s → IsHonest (on_disk_evict evicted s)
unfolding on_disk_evict apply_effect recorded
on_disk_evict-IsHonest evicted s h k loc found here =
    let s' : StorageServer = record s { key_len = pop_lengths evicted s.key_len } in
    let (out, before) =
      get-delete_all evicted (recorded s') k loc
        (subst (λ d. Dict.get k d ≡ some loc) (recorded-emit (delete_keys evicted) s') found) in
    let a = h k loc before here in
    record {
      known = has-pop_lengths evicted s.key_len k out a.known;
      page = a.page;
      held = a.held;
      there = a.there;
    }

-- A request that has no more than one page promoted.
abbrev pub PromotesOne : Request → Type 0
PromotesOne (promote keys) = length keys ≤ 1
PromotesOne _ = Unit

serve_all-IsHonest :
    (buf : String → ℕ) (requests : List Request) (s : StorageServer)
    → All PromotesOne requests
    → IsHonest s
    → IsHonest (serve_all buf requests s)
unfolding serve_all serve
serve_all-IsHonest buf [] s one h = h
serve_all-IsHonest buf (prepare exists pages ∷ rest) s one h =
    serve_all-IsHonest buf rest (prepare_writes exists pages s).1 one.1
      (prepare_writes-IsHonest exists pages s h)
serve_all-IsHonest buf (commit keys ∷ rest) s one h =
    serve_all-IsHonest buf rest (commit_writes keys s).1 one.1 (commit_writes-IsHonest keys s h)
serve_all-IsHonest buf (promote keys ∷ rest) s one h =
    serve_all-IsHonest buf rest (on_promote buf keys s).1 one.1
      (on_promote-IsHonest buf keys s one.0 h)
serve_all-IsHonest buf (ingest exists pages ∷ rest) s one h =
    serve_all-IsHonest buf rest (on_ingest buf exists pages s).1 one.1
      (on_ingest-IsHonest buf exists pages s h)
serve_all-IsHonest buf (disk_evict keys ∷ rest) s one h =
    serve_all-IsHonest buf rest (on_disk_evict keys s) one.1 (on_disk_evict-IsHonest keys s h)

pub nothing_recorded : (s : StorageServer) → s.effects ≡ [] → IsHonest s
unfolding recorded replay Dict.get
nothing_recorded s none_yet k loc found here =
    let e : Dict.get k (replay [] []) ≡ some loc =
      subst (λ es. Dict.get k (replay es []) ≡ some loc) none_yet found in
    absurd (cc)

-- A server starts with no calls of the directory made, and handles any sequence of requests for
-- remote writes, commits, pushed pages, evictions from the disk, and promotions of at most one
-- page each. Then each resident location that its calls have left in the directory is that of a
-- page that its pool holds under the key, at that address.
pub serve_all-current :
    (buf : String → ℕ) (requests : List Request) (s : StorageServer) (k : String)
    (loc : DataLocation)
    → s.effects ≡ []
    → All PromotesOne requests
    → Dict.get k (recorded (serve_all buf requests s)) ≡ some loc
    → loc.resident ≡ true
    → (page : ℕ × ℕ) × (Dict.get k (serve_all buf requests s).pool.entries ≡ some page)
      × (loc.remote_addr ≡ (serve_all buf requests s).pool.base + page.0)
serve_all-current buf requests s k loc new one found here =
    let a = serve_all-IsHonest buf requests s one (nothing_recorded s new) k loc found here in
    (a.page, a.held, a.there)
