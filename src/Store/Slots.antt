-- ===== src/Store/Slots.antt =====
-- python/peercache/store.py: the slot region of a node and the layouts of its peers. A layout has
-- the first rail endpoint, by which the transport knows the peer; the rkeys and the other rails are
-- the transport's own. `_slot_geom` is the geometry of `_slot_region`, with which it is set.
pub mod Publish
pub mod Fetch
pub mod Sizing
pub mod Shared
pub mod RoundTrip
use peer_cache.Base.{
  ℕ, zero, suc, ◌+◌, ◌*◌, ◌/◌, max, String, Option, none, some, Bool, true, false, List, [], ◌∷◌,
  ltb, ◌==◌, eq_ℕ, eq_string, ◌&&◌, if◌then◌else◌,
}
use peer_cache.Base.Dict
use peer_cache.Base.Dict.{Dict}
use peer_cache.Base.Memory.{Memory}
use peer_cache.Node.{NodeRuntime}
use peer_cache.SlotMap.{SlotGeometry, slot_geometry}
use peer_cache.SlotMap.Region.{SlotRegion, init}

pub record Layout : Type 0 where
  pub base_addr : ℕ
  pub endpoint : String
  pub geom : SlotGeometry

pub record SlotNode : Type 0 where
  pub node_id : String
  pub endpoint : String
  pub runtime : NodeRuntime
  pub region : Option SlotRegion
  pub peer_layouts : Dict String Layout
  pub memory : Memory

-- The configuration that the region's geometry depends on.
pub record SlotConfig : Type 0 where
  pub slot_max_page_bytes : ℕ
  pub slot_ways : ℕ
  pub slot_num_buckets : ℕ
  pub global_segment_size : ℕ
  pub tp_size : ℕ

unfoldable pub region_geometry : SlotConfig → SlotGeometry
unfolding slot_geometry
region_geometry c =
    let ways = max 1 c.slot_ways in
    let stride = (slot_geometry c.slot_max_page_bytes 1 ways).slot_stride in
    let cap = max 1 (c.global_segment_size / c.tp_size) in
    let num_buckets =
      if c.slot_num_buckets == 0 then max 1 (cap / (stride * ways)) else c.slot_num_buckets in
    slot_geometry c.slot_max_page_bytes num_buckets ways

-- `_alloc_host_buffer` returns the address `base_addr`.
unfoldable pub with_region : SlotConfig → ℕ → SlotNode → Option SlotRegion → SlotNode
unfolding region_geometry
with_region c base_addr s (some r) = s
with_region c base_addr s none = record s { region = some (init base_addr (region_geometry c)) }

unfoldable pub ensure_slot_region : SlotConfig → ℕ → SlotNode → SlotNode
unfolding with_region
ensure_slot_region c base_addr s = with_region c base_addr s s.region

-- `none` is `{"ok": False}`.
unfoldable pub layout_of : String → Option SlotRegion → Option Layout
layout_of endpoint none = none
layout_of endpoint (some r) =
    some (record { base_addr = r.base; endpoint = endpoint; geom = r.geom })

unfoldable pub on_slot_layout : SlotNode → Option Layout
unfolding layout_of
on_slot_layout s = layout_of s.endpoint s.region

-- The geometry is made anew of the three numbers in the reply.
unfoldable pub received : Layout → Layout
received l = record l { geom = slot_geometry l.geom.max_payload l.geom.num_buckets l.geom.ways }

unfoldable pub cache_layout : String → Layout → SlotNode → Option Layout × SlotNode
cache_layout node_id l s = (some l, record s { peer_layouts = Dict.put node_id l s.peer_layouts })

unfoldable pub cache_received : String → Option Layout → SlotNode → Option Layout × SlotNode
unfolding received cache_layout
cache_received node_id none s = (none, s)
cache_received node_id (some l) s = cache_layout node_id (received l) s

unfoldable pub fetch_layout :
    (String → Option Layout) → String → Option Layout → SlotNode → Option Layout × SlotNode
unfolding cache_received
fetch_layout ask node_id (some l) s = (some l, s)
fetch_layout ask node_id none s = cache_received node_id (ask node_id) s

-- This node's own layout, where it has a region.
unfoldable pub own_layout :
    String → Option Layout → Option Layout → SlotNode → Option Layout × SlotNode
unfolding cache_layout
own_layout node_id (some l) own s = (some l, s)
own_layout node_id none (some l) s = cache_layout node_id l s
own_layout node_id none none s = (none, s)

-- `ask` is the call of `slot_layout`: `none` for an unknown endpoint, a failed call or a refusal.
unfoldable pub peer_layout : (String → Option Layout) → String → SlotNode → Option Layout × SlotNode
unfolding fetch_layout own_layout on_slot_layout layout_of
peer_layout ask node_id s =
    let cached = Dict.get node_id s.peer_layouts in
    elim s.region [
      | none ↦ fetch_layout ask node_id cached s
      | some r ↦
          if node_id == s.node_id
          then own_layout node_id cached (layout_of s.endpoint (some r)) s
          else fetch_layout ask node_id cached s
    ]

unfoldable pub invalidate_peer_layouts : SlotNode → SlotNode
invalidate_peer_layouts s = record s { peer_layouts = [] }
