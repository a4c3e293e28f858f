-- ===== src/Store/P2p/Stands.antt =====
-- The pages of a batch in the pool, through the publications of the batch.
use peer_cache.Base.{
  ℕ, ◌+◌, ◌≡◌, ◌≢◌, sym, ap, subst, ◌∙◌, inl, inr, arith, String, Option, none, some, Bool, true,
  false, List, [], ◌∷◌, map, elem, Distinct, All, All-map, eq_string, ==_iff, Option-cases,
}
use peer_cache.Base.Memory.{Memory, string_at}
use peer_cache.Base.Ranges.{Apart}
use peer_cache.Base.Dict
use peer_cache.Base.Dict.{Dict, get-move_to_end}
use peer_cache.Types.{DataLocation}
use peer_cache.Pool
use peer_cache.Pool.{Pool}
use peer_cache.Pool.Tiling.{IsValid}
use peer_cache.Pool.Operations.{publish-IsValid}
use peer_cache.Pool.Keeps.{publish-Keeps}
use peer_cache.Pool.Copies.{
  publish-back, publish-copied, publish-length, publish-unmoved, publish-outside,
}
use peer_cache.Storage.{StorageServer, after_evict}
use peer_cache.Storage.Ingest.{pool_publish, keep_page}
use peer_cache.Storage.Honest.Replay.{after_evict-Frame}
use peer_cache.Store.Slots.Shared.{Page}
use peer_cache.Store.P2p.{publish_new, publish_page, publish_pages}

-- The page of a key, where the pool has one, has this length and these bytes.
abbrev pub Stored : String → ℕ → List ℕ → Pool → Memory → Type 0
Stored k len bytes p m =
    (page : ℕ × ℕ)
    → Dict.get k p.entries ≡ some page
    → (page.1 ≡ len) × (string_at (p.base + page.0) len m ≡ bytes)

-- A page of a batch before it is published: its key is not in the pool, and its buffer lies outside.
abbrev pub IsReady : (Page → List ℕ) → Pool → Memory → Page → Type 0
IsReady bytes p m page =
    (Dict.get page.key p.entries ≡ none)
    × Apart page.ptr page.size p.base p.capacity
    × (string_at page.ptr page.size m ≡ bytes page)

missing-Stored :
    (k : String) (len : ℕ) (bytes : List ℕ) (p : Pool) (m : Memory)
    → Dict.get k p.entries ≡ none
    → Stored k len bytes p m
missing-Stored k len bytes p m missing page found = absurd (cc)

module _ (key : String) (src size : ℕ) (p : Pool) (m : Memory) (v : IsValid p) where
  -- Another page, and its bytes, through a publication.
  publish-Stored :
      (k : String) (len : ℕ) (bytes : List ℕ)
      → key ≢ k
      → Stored k len bytes p m
      → Stored k len bytes
          (Pool.publish key src size p m).pool
          (Pool.publish key src size p m).memory
  publish-Stored k len bytes ne h page found =
      let (old, here) = h page (publish-back key src size p m k page v.unique ne found).0 in
      let q = Pool.publish key src size p m in
      (
        old,
        ap (λ n. string_at (q.pool.base + page.0) n q.memory) (sym old)
            ∙ publish-unmoved key src size p m k page v ne found
            ∙ ap (λ n. string_at (p.base + page.0) n m) old
            ∙ here,
      )

  publish-IsReady :
      (bytes : Page → List ℕ) (page : Page)
      → key ≢ page.key
      → IsReady bytes p m page
      → IsReady bytes
          (Pool.publish key src size p m).pool
          (Pool.publish key src size p m).memory
          page
  publish-IsReady bytes page ne h =
      let q = Pool.publish key src size p m in
      let kept = publish-Keeps key src size p m in
      (
        elim (Option-cases (Dict.get page.key q.pool.entries)) [
          | inl missing ↦ missing
          | inr (own, found) ↦
              absurd (cc ((publish-back key src size p m page.key own v.unique ne found).0, h.0))
        ],
        subst (λ b. Apart page.ptr page.size b q.pool.capacity) (sym kept.base)
            (subst (λ c. Apart page.ptr page.size p.base c) (sym kept.capacity) h.1),
        publish-outside key src size p m page.ptr page.size v h.1 ∙ h.2,
      )

keep_page-state :
    (Q : Pool → Memory → Type 0) (key : String) (bytes : List ℕ) (len : ℕ) (addr : Option ℕ)
    (entries : Dict String DataLocation) (s : StorageServer)
    → Q s.pool s.memory
    → (let done = keep_page key bytes len addr entries s in Q done.2.pool done.2.memory)
unfolding keep_page
keep_page-state Q key bytes len none entries s h = h
keep_page-state Q key bytes len (some addr) entries s h = h

pool_publish-state :
    (Q : Pool → Memory → Type 0) (key : String) (src size : ℕ) (s : StorageServer)
    → (let q = Pool.publish key src size s.pool s.memory in Q q.pool q.memory)
    → (let done = pool_publish key src size s in Q done.1.pool done.1.memory)
unfolding pool_publish
pool_publish-state Q key src size s h =
    let q = Pool.publish key src size s.pool s.memory in
    let s' : StorageServer = record s { pool = q.pool; memory = q.memory } in
    let frame = after_evict-Frame q.evicted s' in
    subst (λ p. Q p (after_evict q.evicted s').memory) (sym frame.0)
      (subst (λ m. Q q.pool m) (sym frame.2) h)

-- The pool and the memory after one page are those of before, or those of a publication.
publish_page-state :
    (Q : Pool → Memory → Type 0) (old : Bool) (page : Page) (entries : Dict String DataLocation)
    (s : StorageServer)
    → Q s.pool s.memory
    → (let q = Pool.publish page.key page.ptr page.size s.pool s.memory in Q q.pool q.memory)
    → (let done = publish_page old page entries s in Q done.2.pool done.2.memory)
unfolding publish_page publish_new
publish_page-state Q true page entries s before after = before
publish_page-state Q false page entries s before after =
    let r = pool_publish page.key page.ptr page.size s in
    keep_page-state Q page.key (string_at page.ptr page.size r.1.memory) page.size r.0 entries r.1
      (pool_publish-state Q page.key page.ptr page.size s after)

not_head :
    (k j : String) (ks : List String) → elem k (j ∷ ks) ≡ false → (j ≢ k) × (elem k ks ≡ false)
not_head k j ks out = (λ e. ground (arith, out, ==_iff j k, ==_iff k j), ground (arith, out))

-- A page whose key the batch does not have stays, or leaves the pool.
publish_pages-Stored :
    (k : String) (len : ℕ) (bytes : List ℕ) (pages : List Page) (existing : List Bool)
    (entries : Dict String DataLocation) (s : StorageServer)
    → IsValid s.pool
    → elem k (map (λ page. page.key) pages) ≡ false
    → Stored k len bytes s.pool s.memory
    → (let done = publish_pages pages existing entries s in
        Stored k len bytes done.2.pool done.2.memory)
unfolding publish_pages
publish_pages-Stored k len bytes [] existing entries s v out h = h
publish_pages-Stored k len bytes (page ∷ pages) [] entries s v out h = h
publish_pages-Stored k len bytes (page ∷ pages) (old ∷ existing) entries s v out h =
    let one = publish_page old page entries s in
    let (ne, out') = not_head k page.key (map (λ x. x.key) pages) out in
    publish_pages-Stored k len bytes pages existing one.1 one.2
      (publish_page-state (λ p m. IsValid p) old page entries s v
        (publish-IsValid page.key page.ptr page.size s.memory v))
      out'
      (publish_page-state (Stored k len bytes) old page entries s h
        (publish-Stored page.key page.ptr page.size s.pool s.memory v k len bytes ne h))

module _ (bytes : Page → List ℕ) where
  abbrev pub Stands : Pool → Memory → Page → Type 0
  Stands p m page = Stored page.key page.size (bytes page) p m

  ready-Stands :
      (p : Pool) (m : Memory) (pages : List Page)
      → All (IsReady bytes p m) pages
      → All (Stands p m) pages
  ready-Stands p m pages h =
      All-map (IsReady bytes p m) (Stands p m) pages
        (λ page r. missing-Stored page.key page.size (bytes page) p m r.0) h

  publish-own :
      (page : Page) (p : Pool) (m : Memory)
      → IsReady bytes p m page
      → (let q = Pool.publish page.key page.ptr page.size p m in Stands q.pool q.memory page)
  publish-own page p m r own found = (
    publish-length page.key page.ptr page.size p m own r.0 found,
    publish-copied page.key page.ptr page.size p m own r.0 found ∙ r.2,
  )

  rest-IsReady :
      (page : Page) (pages : List Page) (p : Pool) (m : Memory)
      → IsValid p
      → elem page.key (map (λ x. x.key) pages) ≡ false
      → All (IsReady bytes p m) pages
      → (let q = Pool.publish page.key page.ptr page.size p m in
          All (IsReady bytes q.pool q.memory) pages)
  rest-IsReady page [] p m v out h = tt
  rest-IsReady page (next ∷ pages) p m v out h =
      let (ne, out') = not_head page.key next.key (map (λ x. x.key) pages) out in
      (
        publish-IsReady page.key page.ptr page.size p m v bytes next (λ e. ne (sym e)) h.0,
        rest-IsReady page pages p m v out' h.1,
      )

  pub publish_pages-Stands :
      (pages : List Page) (existing : List Bool) (entries : Dict String DataLocation)
      (s : StorageServer)
      → IsValid s.pool
      → Distinct (map (λ page. page.key) pages)
      → All (IsReady bytes s.pool s.memory) pages
      → (let done = publish_pages pages existing entries s in
          All (Stands done.2.pool done.2.memory) pages)
  unfolding publish_pages
  publish_pages-Stands [] existing entries s v d h = tt
  publish_pages-Stands (page ∷ pages) [] entries s v d h =
      ready-Stands s.pool s.memory (page ∷ pages) h
  publish_pages-Stands (page ∷ pages) (old ∷ existing) entries s v d h =
      let one = publish_page old page entries s in
      let valid =
        publish_page-state (λ p m. IsValid p) old page entries s v
          (publish-IsValid page.key page.ptr page.size s.memory v) in
      (
        publish_pages-Stored page.key page.size (bytes page) pages existing one.1 one.2 valid d.0 (
            publish_page-state (λ p m. Stands p m page) old page entries s
              (missing-Stored page.key page.size (bytes page) s.pool s.memory h.0.0)
              (publish-own page s.pool s.memory h.0)),
        publish_pages-Stands pages existing one.1 one.2 valid d.1 (
            publish_page-state (λ p m. All (IsReady bytes p m) pages) old page entries s h.1
              (rest-IsReady page pages s.pool s.memory v d.0 h.1)),
      )
