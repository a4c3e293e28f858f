-- ===== src/Store/Slots/Shared.antt =====
-- python/peercache/store.py: what the publish and the fetch of the slot-map mode share. One batch
-- of one-sided operations is served as `link` says for each of its indices: done and reported, not
-- done, or done and reported as failed. An exception of the transport is a failure of all.
use peer_cache.Base.{
  ℕ, ◌+◌, ◌*◌, String, Option, none, some, Bool, false, List, [], ◌∷◌, take, drop, ltb, eq_string,
  if◌then◌else◌,
}
use peer_cache.Base.Memory.{Memory, string_at}
use peer_cache.Directory.{Link, up, down, lost}
use peer_cache.SlotMap.{header_size, SlotGeometry, bucket_index}
use peer_cache.Store.Slots.{Layout, SlotNode, peer_layout}

-- The memory of the process behind each endpoint.
abbrev pub World : Type 0
World = String → Memory

-- One component: `comp_keys[i]`, `ptrs[i]`, `sizes[i]`.
pub record Page : Type 0 where
  pub key : String
  pub ptr : ℕ
  pub size : ℕ

pub record Remote : Type 0 where
  pub page : Page
  pub owner : String
  pub layout : Layout

-- The result of a component, or the remote operation that decides it.
pub data Outcome : Type 0 where
  decided : Bool → Outcome
  pending : Remote → Outcome

unfoldable pub remotes : List Outcome → List Remote
remotes [] = []
remotes (decided ok ∷ rest) = remotes rest
remotes (pending r ∷ rest) = r ∷ remotes rest

-- `results[w_idx[j]] = True`, for each operation `j` that succeeded
unfoldable pub fill_results : List Outcome → List Bool → List Bool
fill_results [] oks = []
fill_results (decided ok ∷ rest) oks = ok ∷ fill_results rest oks
fill_results (pending r ∷ rest) [] = false ∷ fill_results rest []
fill_results (pending r ∷ rest) (ok ∷ oks) = ok ∷ fill_results rest oks

unfoldable pub outcome_of : Page → String → Option Layout → Outcome
outcome_of page owner none = decided false
outcome_of page owner (some l) =
    if ltb l.geom.max_payload page.size
    then decided false
    else pending (record { page = page; owner = owner; layout = l })

-- A component of another owner: `lay is None or length > lay["geom"].max_payload`.
unfoldable pub remote_outcome :
    (String → Option Layout) → Page → String → SlotNode → Outcome × SlotNode
unfolding outcome_of
remote_outcome ask page owner s =
    let (layout, s') = peer_layout ask owner s in (outcome_of page owner layout, s')

-- Where the bucket of a key is in its owner's memory.
unfoldable pub bucket_addr : (String → List ℕ) → Remote → ℕ
bucket_addr digest8 r =
    r.layout.base_addr + bucket_index digest8 r.layout.geom r.page.key * r.layout.geom.bucket_stride

-- One READ of a whole bucket; `none` is a failed one.
unfoldable pub read_bucket : (String → List ℕ) → Link → World → Remote → Option (List ℕ)
unfolding bucket_addr
read_bucket digest8 up world r =
    some (string_at (bucket_addr digest8 r) r.layout.geom.bucket_stride (world r.layout.endpoint))
read_bucket digest8 lost world r = none
read_bucket digest8 down world r = none

unfoldable pub read_buckets :
    (String → List ℕ) → (ℕ → Link) → World → ℕ → List Remote → List (Option (List ℕ))
unfolding read_bucket
read_buckets digest8 link world j [] = []
read_buckets digest8 link world j (r ∷ rest) =
    read_bucket digest8 (link j) world r ∷ read_buckets digest8 link world (j + 1) rest

-- `scratch[off:off + HEADER_SIZE]`, of the slot of a way
unfoldable pub slot_header : SlotGeometry → ℕ → List ℕ → List ℕ
slot_header g way bucket = take header_size (drop (way * g.slot_stride) bucket)

unfoldable pub slot_payload : SlotGeometry → ℕ → ℕ → List ℕ → List ℕ
slot_payload g way len bucket = take len (drop (way * g.slot_stride + header_size) bucket)
