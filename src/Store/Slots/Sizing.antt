-- ===== src/Store/Slots/Sizing.antt =====
-- The slot region of python/peercache/store.py and what its peers know of it.
use native.Mathlib.Nat.{div-mul-le_self, mul_comm}
use peer_cache.Base.{
  ℕ, ◌*◌, ◌/◌, ◌≤◌, ◌<◌, ◌≡◌, ◌⊎◌, inl, inr, refl, ap, ◌∙◌, max, arith, none, some, Bool-cases,
  ◌==◌, eq_ℕ, if◌then◌else◌,
}
use peer_cache.SlotMap.{slot_geometry, capacity}
use peer_cache.SlotMap.Layout.{IsLaidOut, slot_geometry-IsLaidOut}
use peer_cache.SlotMap.Region.{init}
use peer_cache.Store.Slots.{
  Layout, SlotConfig, SlotNode, region_geometry, with_region, ensure_slot_region, layout_of,
  on_slot_layout, received,
}

bucket_count : (n q : ℕ) → n ≡ 0 → (if n == 0 then max 1 q else n) ≡ max 1 q
bucket_count n q unset = ground arith

some_bucket : (n q : ℕ) → 0 < (if n == 0 then max 1 q else n)
some_bucket n q = ground arith

module _ (c : SlotConfig) where
  abbrev ways : ℕ
  ways = max 1 c.slot_ways

  abbrev stride : ℕ
  stride = (slot_geometry c.slot_max_page_bytes 1 ways).slot_stride

  abbrev segment : ℕ
  segment = max 1 (c.global_segment_size / c.tp_size)

  fits : (buckets : ℕ) → buckets ≡ segment / (stride * ways) → stride * ways * buckets ≤ segment
  fits buckets e = omega (
    arith,
    e,
    div-mul-le_self segment (stride * ways),
    mul_comm (stride * ways) buckets,
    ap (λ b. stride * ways * b) e,
    mul_comm (stride * ways) (segment / (stride * ways)),
  )

  -- Without a number of buckets in the configuration, the slot region of a node takes no more than
  -- the rank's share of the segment, unless a single bucket is larger than that.
  region_within :
      c.slot_num_buckets ≡ 0
      → (capacity (region_geometry c) ≤ segment) ⊎ ((region_geometry c).num_buckets ≡ 1)
  unfolding region_geometry capacity slot_geometry
  region_within unset =
      let q = segment / (stride * ways) in
      let num : (region_geometry c).num_buckets ≡ max 1 q =
        bucket_count c.slot_num_buckets q unset in
      elim (Bool-cases (q == 0)) [
        | inl none_fits ↦ inr (num ∙ ground arith)
        | inr some_fit ↦
            let all : (region_geometry c).num_buckets ≡ q = num ∙ ground arith in
            inl (fits (region_geometry c).num_buckets all)
      ]

-- A node that makes its slot region at `base_addr` has one whose slots do not overlap, of at least
-- one bucket and one way, and a peer that asks for its layout computes with the same base and the
-- same geometry: what it reconstructs of the three numbers in the reply is the owner's geometry.
received-own :
    (c : SlotConfig) (base_addr : ℕ) (s : SlotNode)
    → s.region ≡ none
    → (l : Layout) × (on_slot_layout (ensure_slot_region c base_addr s) ≡ some l)
      × (received l ≡ l)
      × (l.base_addr ≡ base_addr)
      × (l.endpoint ≡ s.endpoint)
      × IsLaidOut l.geom
      × (0 < l.geom.ways)
      × (0 < l.geom.num_buckets)
unfolding on_slot_layout ensure_slot_region with_region layout_of received region_geometry
    slot_geometry init
received-own c base_addr s unset =
    let l : Layout = record {
      base_addr = base_addr;
      endpoint = s.endpoint;
      geom = region_geometry c;
    } in
    (
      l,
      ap (λ r. on_slot_layout (with_region c base_addr s r)) unset,
      refl,
      refl,
      refl,
      slot_geometry-IsLaidOut c.slot_max_page_bytes (region_geometry c).num_buckets
          (max 1 c.slot_ways),
      ground arith,
      some_bucket c.slot_num_buckets (segment c / (stride c * ways c)),
    )
