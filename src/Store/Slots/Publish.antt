-- ===== src/Store/Slots/Publish.antt =====
-- python/peercache/store.py: `_publish_slotmap`. `none` as a result is `struct.error`, raised for a
-- header field that does not fit.
use peer_cache.Base.{
  ℕ, ◌+◌, ◌*◌, String, Option, none, some, Bool, true, false, List, [], ◌∷◌, ◌++◌, take, drop, ◌==◌,
  eq_ℕ, eq_string, ◌&&◌, if◌then◌else◌, ◌>>=◌,
}
use peer_cache.Base.Bytes.{zeros}
use peer_cache.Base.Memory.{Memory, store, string_at}
use peer_cache.Directory.{Link, up, down, lost}
use peer_cache.Node.{data_owner_all}
use peer_cache.SlotMap.{
  header_size, SlotGeometry, slot_offset, bucket_index, encode_header, pick_way_from_bucket,
}
use peer_cache.SlotMap.Region.{SlotRegion, write_local}
use peer_cache.Store.Slots.{Layout, SlotNode}
use peer_cache.Store.Slots.Shared.{
  World, Page, Remote, Outcome, decided, remotes, fill_results, remote_outcome, read_buckets,
}

-- A way that an earlier key of the batch takes, with the header it will have.
pub record Claim : Type 0 where
  pub owner : String
  pub bucket : ℕ
  pub way : ℕ
  pub header : List ℕ

-- `snap[off:off + HEADER_SIZE] = hdr`
unfoldable pub splice : ℕ → List ℕ → List ℕ → List ℕ
splice off hdr snap = take off snap ++ (hdr ++ drop (off + header_size) snap)

-- The claims on the bucket, in the order of the batch, folded into its snapshot.
unfoldable pub fold_claims : SlotGeometry → String → ℕ → List Claim → List ℕ → List ℕ
unfolding splice
fold_claims g owner bucket [] snap = snap
fold_claims g owner bucket (c ∷ claims) snap = fold_claims g owner bucket claims (
    if c.owner == owner && c.bucket == bucket
    then splice (c.way * g.slot_stride) c.header snap
    else snap)

-- `bytearray(scratches[j]) if rd_ok[j] else bytearray(geom.bucket_stride)`
unfoldable pub snapshot : SlotGeometry → Option (List ℕ) → List ℕ
snapshot g none = zeros g.bucket_stride
snapshot g (some bytes) = bytes

pub record Write : Type 0 where
  pub endpoint : String
  pub addr : ℕ
  pub bytes : List ℕ

-- One WRITE: `lost` is one that landed and is reported as failed.
unfoldable pub land : Link → Write → World → Bool × World
land up w world =
    (true, λ ep. if ep == w.endpoint then store w.addr w.bytes (world ep) else world ep)
land lost w world =
    (false, λ ep. if ep == w.endpoint then store w.addr w.bytes (world ep) else world ep)
land down w world = (false, world)

unfoldable pub batch_write : (ℕ → Link) → ℕ → List Write → World → List Bool × World
unfolding land
batch_write link j [] world = ([], world)
batch_write link j (w ∷ ws) world =
    let (ok, world') = land (link j) w world in
    let (oks, world'') = batch_write link (j + 1) ws world' in (ok ∷ oks, world'')

module _ (digest16 digest8 : String → List ℕ) where
  unfoldable pub pack_slot : String → ℕ → ℕ → ℕ → Memory → Option (List ℕ)
  pack_slot key src_ptr length seq m = do
    hdr ← encode_header digest16 key length seq
    some (hdr ++ string_at src_ptr length m)

  -- The way and the seq for a key, with the earlier picks of the batch.
  unfoldable pub pick : List Claim → Remote → Option (List ℕ) → ℕ × ℕ
  unfolding fold_claims snapshot
  pick claims r scratch =
      let g = r.layout.geom in
      pick_way_from_bucket digest16
        (fold_claims g r.owner (bucket_index digest8 g r.page.key) claims (snapshot g scratch)) g
        r.page.key

  unfoldable pub claim_of : Remote → ℕ → List ℕ → Claim
  claim_of r way hdr = record {
    owner = r.owner;
    bucket = bucket_index digest8 r.layout.geom r.page.key;
    way = way;
    header = hdr;
  }

  unfoldable pub write_of : Remote → ℕ → List ℕ → Write
  write_of r way bytes = record {
    endpoint = r.layout.endpoint;
    addr =
        r.layout.base_addr
        + slot_offset r.layout.geom (bucket_index digest8 r.layout.geom r.page.key) way;
    bytes = bytes;
  }

  -- Phase B of `_publish_slotmap_remote`.
  unfoldable pub plan_writes :
      Memory → List Claim → List Remote → List (Option (List ℕ)) → Option (List Write)
  unfolding pick claim_of write_of pack_slot
  plan_writes m claims (r ∷ rest) (scratch ∷ scratches) =
      let (way, seq) = pick claims r scratch in
      do
        hdr ← encode_header digest16 r.page.key r.page.size seq
        bytes ← pack_slot r.page.key r.page.ptr r.page.size seq m
        writes ← plan_writes m (claims ++ claim_of r way hdr ∷ []) rest scratches
        some (write_of r way bytes ∷ writes)
  plan_writes m claims _ _ = some []

  unfoldable pub publish_slotmap_remote :
      (ℕ → Link) → (ℕ → Link) → Memory → List Remote → World → Option (List Bool × World)
  unfolding plan_writes batch_write
  publish_slotmap_remote reads writes m rs world = do
    ws ← plan_writes m [] rs (read_buckets digest8 reads world 0 rs)
    some (batch_write writes 0 ws world)

  -- `off is not None`
  unfoldable pub wrote : SlotNode → Option ℕ × SlotRegion × Memory → Outcome × SlotNode
  wrote s (none, r, m) = (decided false, record s { region = some r; memory = m })
  wrote s (some off, r, m) = (decided true, record s { region = some r; memory = m })

  unfoldable pub publish_own : Page → Option SlotRegion → SlotNode → Option (Outcome × SlotNode)
  unfolding wrote
  publish_own page none s = some (decided false, s)
  publish_own page (some r) s = do
    done ← write_local digest16 digest8 r page.key page.ptr page.size s.memory
    some (wrote s done)

  module _ (hash : String → ℕ) (ask : String → Option Layout) where
    unfoldable pub publish_to : Page → Option String → SlotNode → Option (Outcome × SlotNode)
    unfolding publish_own remote_outcome
    publish_to page none s = some (decided false, s)
    publish_to page (some owner) s =
        if owner == s.node_id
        then publish_own page s.region s
        else some (remote_outcome ask page owner s)

    -- The first loop of `_publish_slotmap`.
    unfoldable pub publish_pages : List Page → SlotNode → Option (List Outcome × SlotNode)
    unfolding publish_to
    publish_pages [] s = some ([], s)
    publish_pages (page ∷ pages) s = do
      first ← publish_to page (data_owner_all hash page.key s.runtime) s
      rest ← publish_pages pages first.1
      some (first.0 ∷ rest.0, rest.1)

    unfoldable pub publish_slotmap :
        (ℕ → Link)
        → (ℕ → Link)
        → List Page
        → SlotNode
        → World
        → Option (List Bool × SlotNode × World)
    unfolding publish_pages publish_slotmap_remote
    publish_slotmap reads writes pages s world = do
      first ← publish_pages pages s
      done ← publish_slotmap_remote reads writes first.1.memory (remotes first.0) world
      some (fill_results first.0 done.0, first.1, done.1)
