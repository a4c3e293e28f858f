-- ===== src/Store/Slots/Fetch.antt =====
-- python/peercache/store.py: `_fetch_slotmap` and `_exists_slotmap`.
pub mod Clean
use peer_cache.Base.{
  ℕ, zero, suc, ◌+◌, ◌*◌, String, Option, none, some, Bool, true, false, List, [], ◌∷◌, ◌==◌,
  eq_string, if◌then◌else◌, length,
}
use peer_cache.Base.Memory.{Memory, store}
use peer_cache.Directory.{Link}
use peer_cache.Node.{data_owner_all}
use peer_cache.SlotMap.{SlotGeometry, slot_matches, slot_present}
use peer_cache.SlotMap.Region.{SlotRegion, read_local, exists_local}
use peer_cache.Store.Slots.{Layout, SlotNode, peer_layout}
use peer_cache.Store.Slots.Shared.{
  World, Page, Remote, Outcome, decided, pending, remotes, fill_results, remote_outcome,
  read_buckets, slot_header, slot_payload,
}

module _ (digest16 digest8 : String → List ℕ) where
  -- The scan of the ways of a bucket from `way` on, `n` of them.
  unfoldable pub scan_bucket : SlotGeometry → Page → List ℕ → ℕ → ℕ → Memory → Bool × Memory
  unfolding slot_header slot_payload
  scan_bucket g page bucket way zero m = (false, m)
  scan_bucket g page bucket way (suc n) m =
      let rest = scan_bucket g page bucket (way + 1) n m in
      if slot_matches digest16 (slot_header g way bucket) page.key page.size
      then (true, store page.ptr (slot_payload g way page.size bucket) m)
      else rest

  unfoldable pub take_bucket : Remote → Option (List ℕ) → Memory → Bool × Memory
  unfolding scan_bucket
  take_bucket r none m = (false, m)
  take_bucket r (some bucket) m = scan_bucket r.layout.geom r.page bucket 0 r.layout.geom.ways m

  -- The loop over the READs that were issued.
  unfoldable pub take_buckets : List Remote → List (Option (List ℕ)) → Memory → List Bool × Memory
  unfolding take_bucket
  take_buckets (r ∷ rs) (scratch ∷ scratches) m =
      let (ok, m') = take_bucket r scratch m in
      let (oks, m'') = take_buckets rs scratches m' in (ok ∷ oks, m'')
  take_buckets _ _ m = ([], m)

  unfoldable pub fetch_own : Page → Option SlotRegion → SlotNode → Outcome × SlotNode
  fetch_own page none s = (decided false, s)
  fetch_own page (some r) s =
      let (ok, m) = read_local digest16 digest8 r page.key page.ptr page.size s.memory in
      (decided ok, record s { memory = m })

  unfoldable pub has_way : SlotGeometry → String → List ℕ → ℕ → ℕ → Bool
  unfolding slot_header
  has_way g key bucket way zero = false
  has_way g key bucket way (suc n) =
      let rest = has_way g key bucket (way + 1) n in
      elim (slot_present digest16 (slot_header g way bucket) key) [ none ↦ rest | some len ↦ true ]

  unfoldable pub has_key : Remote → Option (List ℕ) → Bool
  unfolding has_way
  has_key r none = false
  has_key r (some bucket) = has_way r.layout.geom r.page.key bucket 0 r.layout.geom.ways

  unfoldable pub has_keys : List Remote → List (Option (List ℕ)) → List Bool
  unfolding has_key
  has_keys (r ∷ rs) (scratch ∷ scratches) = has_key r scratch ∷ has_keys rs scratches
  has_keys _ _ = []

  unfoldable pub is_held : Option ℕ → Bool
  is_held none = false
  is_held (some len) = true

  unfoldable pub exists_own : String → Option SlotRegion → Memory → Bool
  unfolding is_held
  exists_own key none m = false
  exists_own key (some r) m = is_held (exists_local digest16 digest8 r key m)

  module _ (hash : String → ℕ) (ask : String → Option Layout) where
    unfoldable pub fetch_from : Page → Option String → SlotNode → Outcome × SlotNode
    unfolding fetch_own remote_outcome
    fetch_from page none s = (decided false, s)
    fetch_from page (some owner) s =
        if owner == s.node_id then fetch_own page s.region s else remote_outcome ask page owner s

    -- The first loop of `_fetch_slotmap`.
    unfoldable pub fetch_pages : List Page → SlotNode → List Outcome × SlotNode
    unfolding fetch_from
    fetch_pages [] s = ([], s)
    fetch_pages (page ∷ pages) s =
        let (first, s') = fetch_from page (data_owner_all hash page.key s.runtime) s in
        let (rest, s'') = fetch_pages pages s' in (first ∷ rest, s'')

    unfoldable pub fetch_slotmap : (ℕ → Link) → World → List Page → SlotNode → List Bool × SlotNode
    unfolding fetch_pages take_buckets
    fetch_slotmap link world pages s =
        let (outcomes, s') = fetch_pages pages s in
        let rs = remotes outcomes in
        let (oks, m) = take_buckets rs (read_buckets digest8 link world 0 rs) s'.memory in
        (fill_results outcomes oks, record s' { memory = m })

    -- No length is known here: every key with a layout is probed.
    unfoldable pub probe_layout : String → String → Option Layout → Outcome
    probe_layout key owner none = decided false
    probe_layout key owner (some l) =
        pending
          (record { page = record { key = key; ptr = 0; size = 0 }; owner = owner; layout = l })

    unfoldable pub exists_at : String → Option String → SlotNode → Outcome × SlotNode
    unfolding exists_own probe_layout
    exists_at key none s = (decided false, s)
    exists_at key (some owner) s =
        if owner == s.node_id
        then (decided (exists_own key s.region s.memory), s)
        else (let (layout, s') = peer_layout ask owner s in (probe_layout key owner layout, s'))

    unfoldable pub exists_keys : List String → SlotNode → List Outcome × SlotNode
    unfolding exists_at
    exists_keys [] s = ([], s)
    exists_keys (key ∷ keys) s =
        let (first, s') = exists_at key (data_owner_all hash key s.runtime) s in
        let (rest, s'') = exists_keys keys s' in (first ∷ rest, s'')

    unfoldable pub exists_slotmap :
        (ℕ → Link) → World → List String → SlotNode → List Bool × SlotNode
    unfolding exists_keys has_keys
    exists_slotmap link world keys s =
        let (outcomes, s') = exists_keys keys s in
        let rs = remotes outcomes in
        (fill_results outcomes (has_keys rs (read_buckets digest8 link world 0 rs)), s')
