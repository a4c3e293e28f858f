-- ===== src/Store/Slots/Fetch/Clean.antt =====
-- What a read of a remote bucket returns, in python/peercache/store.py.
use native.Mathlib.Nat.{mul-le-mul_right, add-mul, mul_comm}
use peer_cache.Base.{
  ℕ, zero, suc, ◌+◌, ◌-◌, ◌*◌, ◌≤◌, ◌<◌, ◌≡◌, ◌⊎◌, inl, inr, refl, sym, ap, ◌∙◌, arith, String,
  Bool, true, false, List, take, Bool-cases, ◌==◌, ==_iff, eq_ℕ,
}
use peer_cache.Base.Memory.{Memory, store, string_at}
use peer_cache.Base.Ranges.{take-string_at, drop-string_at}
use peer_cache.Directory.{Link, up, down, lost}
use peer_cache.SlotMap.{header_size, SlotGeometry, slot_matches}
use peer_cache.SlotMap.Gate.{IsStamped, slot_matches-IsStamped, IsStamped-slot_matches}
use peer_cache.SlotMap.Layout.{IsLaidOut}
use peer_cache.Store.Slots.Shared.{
  World, Page, Remote, bucket_addr, read_bucket, slot_header, slot_payload,
}
use peer_cache.Store.Slots.Fetch.{scan_bucket, take_bucket}

way-in-bucket :
    (g : SlotGeometry) (way : ℕ)
    → IsLaidOut g
    → way < g.ways
    → way * g.slot_stride + g.slot_stride ≤ g.bucket_stride
way-in-bucket g way v lt =
    let next : (way + 1) * g.slot_stride ≤ g.ways * g.slot_stride =
      mul-le-mul_right g.slot_stride (omega arith) in
    omega (arith, next, add-mul way 1 g.slot_stride, mul_comm g.slot_stride g.ways, v.buckets)

module _ (g : SlotGeometry) (addr : ℕ) (m : Memory) (v : IsLaidOut g) (way : ℕ)
    (lt : way < g.ways) where
  pub slot_header-read :
      slot_header g way (string_at addr g.bucket_stride m)
      ≡ string_at (addr + way * g.slot_stride) header_size m
  unfolding slot_header
  slot_header-read =
      let within = way-in-bucket g way v lt in
      ap (take header_size)
        (drop-string_at (way * g.slot_stride) g.bucket_stride addr m (omega (arith, within)))
      ∙ take-string_at header_size (g.bucket_stride - way * g.slot_stride)
          (addr + way * g.slot_stride) m (omega (arith, within, v.room))

  pub slot_payload-read :
      (len : ℕ)
      → len ≤ g.max_payload
      → slot_payload g way len (string_at addr g.bucket_stride m)
        ≡ string_at (addr + (way * g.slot_stride + header_size)) len m
  unfolding slot_payload
  slot_payload-read len small =
      let within = way-in-bucket g way v lt in
      let start = way * g.slot_stride + header_size in
      ap (take len) (drop-string_at start g.bucket_stride addr m (omega (arith, within, v.room)))
      ∙ take-string_at len (g.bucket_stride - start) (addr + start) m
          (omega (arith, within, v.room))

module _ (digest16 digest8 : String → List ℕ) where
  -- The scan stops at the first way that matches.
  pub scan_bucket-first :
      (g : SlotGeometry) (page : Page) (bucket : List ℕ) (m : Memory) (k n way : ℕ)
      → k ≤ way
      → way < k + n
      → slot_matches digest16 (slot_header g way bucket) page.key page.size ≡ true
      → ((u : ℕ)
          → k ≤ u
          → u < way
          → slot_matches digest16 (slot_header g u bucket) page.key page.size ≡ false)
      → scan_bucket digest16 digest8 g page bucket k n m
        ≡ (true, store page.ptr (slot_payload g way page.size bucket) m)
  unfolding scan_bucket
  scan_bucket-first g page bucket m k zero way le lt hit before = absurd (omega arith)
  scan_bucket-first g page bucket m k (suc n) way le lt hit before = elim (Bool-cases (k == way)) [
    | inl at ↦
        let same : k ≡ way = (==_iff k way).0 at in
        let here =
          ap (λ w. slot_matches digest16 (slot_header g w bucket) page.key page.size) same ∙ hit in
        rw here (ap (λ w. (true, store page.ptr (slot_payload g w page.size bucket) m)) same)
    | inr past ↦
        let later : k < way = ground arith in
        rw (before k (omega arith) later) (
          scan_bucket-first g page bucket m (k + 1) n way (omega arith) (omega arith) hit
            (λ u low high. before u (omega arith) high))
  ]

  scan_bucket-cases :
      (g : SlotGeometry) (page : Page) (bucket : List ℕ) (m : Memory) (k n : ℕ)
      → ((way : ℕ) × (way < k + n)
          × (slot_matches digest16 (slot_header g way bucket) page.key page.size ≡ true)
          × (scan_bucket digest16 digest8 g page bucket k n m
              ≡ (true, store page.ptr (slot_payload g way page.size bucket) m)))
        ⊎ ((scan_bucket digest16 digest8 g page bucket k n m ≡ (false, m))
            × ((way : ℕ)
                → k ≤ way
                → way < k + n
                → slot_matches digest16 (slot_header g way bucket) page.key page.size ≡ false))
  unfolding scan_bucket
  scan_bucket-cases g page bucket m k zero = inr (refl, λ way le lt. absurd (omega arith))
  scan_bucket-cases g page bucket m k (suc n) =
      elim (Bool-cases (slot_matches digest16 (slot_header g k bucket) page.key page.size)) [
        | inl here ↦ inl (k, omega arith, here, rw here refl)
        | inr other ↦ elim (scan_bucket-cases g page bucket m (k + 1) n) [
          | inl (way, lt, hit, e) ↦ inl (way, omega arith, hit, rw other e)
          | inr (e, none_hit) ↦ inr (
            rw other e,
            λ way le lt. elim (Bool-cases (way == k)) [
              | inl at ↦
                  ap (λ w. slot_matches digest16 (slot_header g w bucket) page.key page.size)
                    ((==_iff way k).0 at)
                  ∙ other
              | inr past ↦ none_hit way (ground arith) (omega arith)
            ],
          )
        ]
      ]

  -- The header and the payload of a way in the memory of the owner.
  abbrev pub header_there : World → Remote → ℕ → List ℕ
  header_there world r way =
      string_at (bucket_addr digest8 r + way * r.layout.geom.slot_stride) header_size
        (world r.layout.endpoint)

  abbrev pub payload_there : World → Remote → ℕ → List ℕ
  payload_there world r way =
      string_at (bucket_addr digest8 r + (way * r.layout.geom.slot_stride + header_size))
        r.page.size (world r.layout.endpoint)

  -- A read of a page that fits goes by the header that the READ of the remote bucket found. Either
  -- it succeeds: the READ was served, the header of a way decodes as one of the key's hash and the
  -- length with an even seq, and the destination gets the payload of that way, taken in the same
  -- READ. Or it fails and changes nothing: if the READ was served, the header of no way does.
  pub fetch_clean :
      (l : Link) (world : World) (r : Remote) (m : Memory)
      → IsLaidOut r.layout.geom
      → r.page.size ≤ r.layout.geom.max_payload
      → ((way : ℕ) × (way < r.layout.geom.ways)
          × (l ≡ up)
          × IsStamped digest16 r.page.key r.page.size (header_there world r way)
          × (take_bucket digest16 digest8 r (read_bucket digest8 l world r) m
              ≡ (true, store r.page.ptr (payload_there world r way) m)))
        ⊎ ((take_bucket digest16 digest8 r (read_bucket digest8 l world r) m ≡ (false, m))
            × (l ≡ up
                → (way : ℕ) → way < r.layout.geom.ways
                → ¬ IsStamped digest16 r.page.key r.page.size (header_there world r way)))
  unfolding take_bucket read_bucket
  fetch_clean down world r m v small = inr (refl, λ e. absurd (cc))
  fetch_clean lost world r m v small = inr (refl, λ e. absurd (cc))
  fetch_clean up world r m v small =
      let g = r.layout.geom in
      let addr = bucket_addr digest8 r in
      let there = world r.layout.endpoint in
      let gate : List ℕ → Bool = λ h. slot_matches digest16 h r.page.key r.page.size in
      elim (scan_bucket-cases g r.page (string_at addr g.bucket_stride there) m 0 g.ways) [
        | inl (way, lt, hit, e) ↦ inl (
          way,
          omega arith,
          refl,
          slot_matches-IsStamped digest16 r.page.key r.page.size (header_there world r way)
              (ap gate (sym (slot_header-read g addr there v way (omega arith))) ∙ hit),
          e
              ∙ ap (λ bytes. (true, store r.page.ptr bytes m))
                  (slot_payload-read g addr there v way (omega arith) r.page.size small),
        )
        | inr (e, none_hit) ↦ inr (
          e,
          λ served way lt stamped.
              let miss =
                ap gate (sym (slot_header-read g addr there v way lt))
                ∙ none_hit way (omega arith) (omega arith) in
              let hit =
                IsStamped-slot_matches digest16 r.page.key r.page.size (header_there world r way)
                  stamped in
              absurd (cc (miss, hit)),
        )
      ]
