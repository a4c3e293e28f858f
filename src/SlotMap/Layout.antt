-- ===== src/SlotMap/Layout.antt =====
-- Where the slots of a region lie.
use native.Mathlib.Nat.{add-mul, mul_assoc, mul_comm, mul-le-mul_right}
use peer_cache.Base.{
  ℕ, ◌+◌, ◌*◌, ◌<◌, ◌≤◌, ◌≡◌, ◌≢◌, ◌⊎◌, inl, inr, refl, sym, ap, ◌∙◌, arith, ltb, Bool-cases,
}
use peer_cache.SlotMap.{header_size, SlotGeometry, align, slot_geometry, capacity, slot_offset}

-- What `SlotGeometry.__init__` makes of its arguments.
pub record IsLaidOut (g : SlotGeometry) : Type 0 where
  pub room : header_size + g.max_payload ≤ g.slot_stride
  pub buckets : g.bucket_stride ≡ g.slot_stride * g.ways

pub slot_geometry-IsLaidOut :
    (max_payload num_buckets ways : ℕ) → IsLaidOut (slot_geometry max_payload num_buckets ways)
unfolding slot_geometry align
slot_geometry-IsLaidOut max_payload num_buckets ways = record { room = omega arith; buckets = refl }

-- The slots of a region are numbered through.
offset-numbered :
    (g : SlotGeometry) (bucket way : ℕ)
    → IsLaidOut g
    → slot_offset g bucket way ≡ (bucket * g.ways + way) * g.slot_stride
unfolding slot_offset
offset-numbered g bucket way v =
    ap (λ t. bucket * t + way * g.slot_stride) (v.buckets ∙ mul_comm g.slot_stride g.ways)
    ∙ ap (λ t. t + way * g.slot_stride) (sym (mul_assoc bucket g.ways g.slot_stride))
    ∙ sym (add-mul (bucket * g.ways) way g.slot_stride)

number-lt : (b b' w w' ways : ℕ) → b < b' → w < ways → b * ways + w < b' * ways + w'
number-lt b b' w w' ways lt in_bucket =
    let next : (b + 1) * ways ≤ b' * ways = mul-le-mul_right ways (omega arith) in
    omega (arith, next, add-mul b 1 ways)

number-apart :
    (b b' w w' ways : ℕ)
    → w < ways
    → w' < ways
    → (b ≡ b' → w ≢ w')
    → (b * ways + w < b' * ways + w') ⊎ (b' * ways + w' < b * ways + w)
number-apart b b' w w' ways lt lt' ne = elim (Bool-cases (ltb b b')) [
  | inl below ↦ inl (number-lt b b' w w' ways (ground arith) lt)
  | inr h ↦ elim (Bool-cases (ltb b' b)) [
    | inl above ↦ inr (number-lt b' b w' w ways (ground arith) lt')
    | inr k ↦
        let same : b ≡ b' = ground arith in
        let at = ap (λ t. t * ways) same in
        elim (Bool-cases (ltb w w')) [
          | inl before ↦ inl (ground (arith, at))
          | inr l ↦ elim (Bool-cases (ltb w' w)) [
            | inl behind ↦ inr (ground (arith, at))
            | inr n ↦ absurd (ne same (ground arith))
          ]
        ]
  ]
]

step-le : (i j s : ℕ) → i < j → i * s + s ≤ j * s
step-le i j s lt =
    let next : (i + 1) * s ≤ j * s = mul-le-mul_right s (omega arith) in
    omega (arith, next, add-mul i 1 s)

-- In a geometry as the constructor makes it, the slots of two ways, of the same bucket or of two
-- buckets, do not overlap.
pub slots_disjoint :
    (g : SlotGeometry) (b b' w w' : ℕ)
    → IsLaidOut g
    → w < g.ways
    → w' < g.ways
    → (b ≡ b' → w ≢ w')
    → (slot_offset g b w + g.slot_stride ≤ slot_offset g b' w')
      ⊎ (slot_offset g b' w' + g.slot_stride ≤ slot_offset g b w)
slots_disjoint g b b' w w' v lt lt' ne =
    let at = offset-numbered g b w v in
    let at' = offset-numbered g b' w' v in
    elim (number-apart b b' w w' g.ways lt lt' ne) [
      | inl before ↦ inl (omega (arith, at, at', step-le _ _ g.slot_stride before))
      | inr behind ↦ inr (omega (arith, at, at', step-le _ _ g.slot_stride behind))
    ]

-- In a geometry as the constructor makes it, the slot of a way of a bucket ends within the
-- capacity of the region.
pub slot-in-capacity :
    (g : SlotGeometry) (b w : ℕ)
    → IsLaidOut g
    → b < g.num_buckets
    → w < g.ways
    → slot_offset g b w + g.slot_stride ≤ capacity g
unfolding capacity
slot-in-capacity g b w v in_region in_bucket =
    let total : capacity g ≡ g.num_buckets * g.ways * g.slot_stride =
      ap (λ t. t * g.num_buckets) (v.buckets ∙ mul_comm g.slot_stride g.ways)
      ∙ mul_comm (g.ways * g.slot_stride) g.num_buckets
      ∙ sym (mul_assoc g.num_buckets g.ways g.slot_stride) in
    omega (
      arith,
      offset-numbered g b w v,
      total,
      step-le (b * g.ways + w) (g.num_buckets * g.ways + 0) g.slot_stride
          (number-lt b g.num_buckets w 0 g.ways in_region in_bucket),
      add-mul (g.num_buckets * g.ways) 0 g.slot_stride,
    )
