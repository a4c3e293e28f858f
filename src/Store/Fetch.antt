-- ===== src/Store/Fetch.antt =====
-- python/peercache/store.py: `_fetch` from the directory's locations, and `_resolve_non_resident`.
-- The answer of a peer to `data_promote` is the parameter `promote_at`, none where the peer is
-- unknown or the call fails. `world` is the memory of each peer at its endpoint; `up` says which
-- READs succeed. The metrics, with the set of the promoted indices, are left out.
pub mod Local
use peer_cache.Base.{
  ℕ, zero, suc, ◌+◌, String, Option, none, some, Bool, true, false, not, List, [], ◌∷◌, map, ◌==◌,
  eq_string, eq_ℕ, ◌&&◌, elem, if◌then◌else◌,
}
use peer_cache.Base.Memory.{Memory, memmove, store, string_at}
use peer_cache.Types.{DataLocation}
use peer_cache.Pool
use peer_cache.Storage.{StorageServer, ensure_resident}
use peer_cache.Store.Cache.{Cache, take_primed, dir_cache_invalidate}
use peer_cache.Store.Slots.Shared.{Page}

-- `loc is not None and not loc.resident`, with the owner.
unfoldable pub away_at : Option DataLocation → Option String
away_at none = none
away_at (some loc) = if loc.resident then none else some loc.node_id

unfoldable pub is_at : String → Option String → Bool
is_at owner none = false
is_at owner (some o) = o == owner

-- `remote_by_owner`: the owners in the order of their first key.
unfoldable pub owners : String → List (Option DataLocation) → List String → List String
unfolding away_at
owners self [] seen = []
owners self (loc ∷ locs) seen = elim (away_at loc) [
  | none ↦ owners self locs seen
  | some o ↦
      let rest = owners self locs seen in
      let more = owners self locs (o ∷ seen) in
      if o == self then rest else if elem o seen then rest else o ∷ more
]

unfoldable pub keys_at : String → List String → List (Option DataLocation) → List String
unfolding away_at is_at
keys_at owner (k ∷ keys) (loc ∷ locs) =
    let rest = keys_at owner keys locs in if is_at owner (away_at loc) then k ∷ rest else rest
keys_at owner _ _ = []

-- `zip(idxs, newlocs)`: a key without an answer keeps its location.
unfoldable pub place :
    String
    → Option (List (Option DataLocation))
    → List (Option DataLocation)
    → List (Option DataLocation)
    → List (Option DataLocation)
unfolding away_at is_at
place owner answer (old ∷ olds) (loc ∷ locs) =
    let other = loc ∷ place owner answer olds locs in
    if is_at owner (away_at old)
    then elim answer [
      | none ↦ none ∷ place owner none olds locs
      | some [] ↦ loc ∷ place owner (some []) olds locs
      | some (new ∷ news) ↦ new ∷ place owner (some news) olds locs
    ]
    else other
place owner answer _ locs = locs

-- `self._ensure_resident([key])[0]`
unfoldable pub new_of : List (Option DataLocation) → Option DataLocation
new_of [] = none
new_of (loc ∷ _) = loc

-- The keys of this node, one by one.
unfoldable pub promote_own :
    (String → ℕ)
    → List String
    → List (Option DataLocation)
    → StorageServer
    → List (Option DataLocation) × StorageServer
unfolding away_at is_at ensure_resident new_of
promote_own buf (k ∷ keys) (loc ∷ locs) s =
    if is_at s.node_id (away_at loc)
    then (let (new, s') = ensure_resident buf (k ∷ []) s in
        let (rest, s'') = promote_own buf keys locs s' in (new_of new ∷ rest, s''))
    else (let (rest, s') = promote_own buf keys locs s in (loc ∷ rest, s'))
promote_own buf _ locs s = (locs, s)

-- A READ of a page from a peer.
pub record Read : Type 0 where
  pub page : Page
  pub endpoint : String
  pub addr : ℕ
  pub len : ℕ

pub data Reading : Type 0 where
  decided : Bool → Reading
  pending : Read → Reading

-- `self.config.node_id == loc.node_id`, or a READ from the owner.
unfoldable pub read_at : Page → DataLocation → StorageServer → Reading × StorageServer
read_at page loc s =
    if loc.node_id == s.node_id
    then (decided true, record s { memory = memmove page.ptr loc.remote_addr loc.length s.memory })
    else (
      pending (record {
        page = page;
        endpoint = loc.rdma_endpoint;
        addr = loc.remote_addr;
        len = loc.length;
      }),
      s,
    )

-- The copy in the node's own pool, where it has the size.
unfoldable pub read_copy :
    Page → Option (ℕ × ℕ) → DataLocation → StorageServer → Reading × StorageServer
unfolding read_at
read_copy page none loc s = read_at page loc s
read_copy page (some al) loc s =
    if al.1 == page.size
    then (decided true, record s { memory = memmove page.ptr al.0 al.1 s.memory })
    else read_at page loc s

-- `dual` is a hybrid node with the write policy "both".
unfoldable pub read_resident : Bool → Page → DataLocation → StorageServer → Reading × StorageServer
unfolding read_copy read_at
read_resident dual page loc s =
    if dual
    then (let (al, pool) = Pool.address_of page.key s.pool in
        read_copy page al loc (record s { pool = pool }))
    else read_at page loc s

unfoldable pub read_location :
    Bool → Page → Option DataLocation → StorageServer → Reading × StorageServer
unfolding read_resident
read_location dual page none s = (decided false, s)
read_location dual page (some loc) s =
    if not loc.resident
    then (decided false, s)
    else if not (loc.length == page.size)
    then (decided false, s)
    else read_resident dual page loc s

-- The loop over the locations.
unfoldable pub read_locations :
    Bool → List Page → List (Option DataLocation) → StorageServer → List Reading × StorageServer
unfolding read_location
read_locations dual (page ∷ pages) (loc ∷ locs) s =
    let (r, s') = read_location dual page loc s in
    let (rs, s'') = read_locations dual pages locs s' in (r ∷ rs, s'')
read_locations dual _ _ s = ([], s)

-- `transport.batch_read_multi`, from READ `j` on, and `results[op_index[j]] = ok`.
unfoldable pub read_pending :
    (ℕ → Bool) → (String → Memory) → ℕ → List Reading → Memory → List Bool × Memory
read_pending up world j [] m = ([], m)
read_pending up world j (decided ok ∷ rs) m =
    let (oks, m') = read_pending up world j rs m in (ok ∷ oks, m')
read_pending up world j (pending r ∷ rs) m =
    let m' = if up j then store r.page.ptr (string_at r.addr r.len (world r.endpoint)) m else m in
    let (oks, m'') = read_pending up world (j + 1) rs m' in (up j ∷ oks, m'')

-- `[k for i, k in enumerate(comp_keys) if not results[i]]`
unfoldable pub failed_keys : List Page → List Bool → List String
failed_keys (page ∷ pages) (ok ∷ oks) =
    let rest = failed_keys pages oks in if ok then rest else page.key ∷ rest
failed_keys _ _ = []

module _ (buf : String → ℕ)
    (promote_at : String → List String → Option (List (Option DataLocation))) where
  -- The answers of the owners, one after the other.
  unfoldable pub place_all :
      List String
      → List String
      → List (Option DataLocation)
      → List (Option DataLocation)
      → List (Option DataLocation)
  unfolding place keys_at
  place_all [] keys olds locs = locs
  place_all (o ∷ os) keys olds locs =
      place_all os keys olds (place o (promote_at o (keys_at o keys olds)) olds locs)

  unfoldable pub resolve_non_resident :
      List String
      → List (Option DataLocation)
      → StorageServer
      → List (Option DataLocation) × StorageServer
  unfolding promote_own place_all owners
  resolve_non_resident keys locs s =
      let (locs', s') = promote_own buf keys locs s in
      (place_all (owners s.node_id locs []) keys locs locs', s')

  unfoldable pub fetch :
      (List String → List (Option DataLocation))
      → ℕ
      → Bool
      → (ℕ → Bool)
      → (String → Memory)
      → List Page
      → Cache
      → StorageServer
      → List Bool × Cache × StorageServer
  unfolding take_primed resolve_non_resident read_locations read_pending failed_keys
      dir_cache_invalidate
  fetch ask now dual up world pages cache s =
      let keys = map (λ page. page.key) pages in
      let (found, cache') = take_primed ask now keys cache in
      let (locs, s') = resolve_non_resident keys found s in
      let (rs, s'') = read_locations dual pages locs s' in
      let (oks, m) = read_pending up world 0 rs s''.memory in
      (oks, dir_cache_invalidate (failed_keys pages oks) cache', record s'' { memory = m })
