-- ===== src/SlotMap/Region/Torn.antt =====
-- What a reader sees while `write_local` is at work.
use peer_cache.Base.{
  of_some, ℕ, ◌+◌, ◌^◌, ◌<◌, ◌≤◌, ◌≡◌, ◌⊎◌, sym, ap, ◌∙◌, arith, String, some, true, List, length,
  All,
}
use peer_cache.Base.Memory.{Memory, memmove_at}
use peer_cache.SlotMap.{header_size, slot_offset, capacity, bucket_index}
use peer_cache.SlotMap.Region.{SlotRegion, write_local, read_local_during}
use peer_cache.SlotMap.Region.Ways.{read_ways_first}
use peer_cache.SlotMap.Region.RoundTrip.{IsValid, bucket, way, write_local-stores, outside_source}
use peer_cache.SlotMap.Region.Isolation.{FoundAt}

module _ (digest16 digest8 : String → List ℕ) (r : SlotRegion) (v : IsValid r) (key : String)
    (src len : ℕ) (m : Memory) (sized : length (digest16 key) ≡ 16)
    (bytes : All (λ b. b < 256) (digest16 key)) (small : len ≤ r.geom.max_payload)
    (narrow : r.geom.max_payload < 2 ^ 32) (young : (b w : ℕ) → r.seq b w + 3 < 2 ^ 64) where
  -- `read_local` takes no lock, and tests the header of a slot before it copies the payload, but
  -- not after. On a region with at least one slot, where a page of a key is found: when a write of
  -- another page of the same length (that fits, of a key of 16 digest bytes, from a source outside
  -- the region, with a length below 2 ^ 32 and seqs below 2 ^ 64) comes between the test and the
  -- copy, and takes the slot, then the read reports success, with the bytes of that other page.
  pub displaced_read :
      ((src + len ≤ r.base) ⊎ (r.base + capacity r.geom ≤ src))
      → (j : String) (x : ℕ) → FoundAt digest16 digest8 r m j len x
      → (off : ℕ) (r' : SlotRegion) (m' : Memory)
      → write_local digest16 digest8 r key src len m ≡ some (some off, r', m')
      → slot_offset r.geom (bucket_index digest8 r.geom j) x ≡ off
      → (dst : ℕ)
      → ((read_local_during digest16 digest8 (λ t. m') r j dst len m).0 ≡ true)
        × ((i : ℕ)
            → i < len
            → (read_local_during digest16 digest8 (λ t. m') r j dst len m).1 (dst + i)
              ≡ m (src + i))
  unfolding read_local_during
  displaced_read apart j x found off r' m' e here dst =
      let (m₀, e₀, wrote) =
        write_local-stores digest16 digest8 r v key src len m sized bytes small narrow young in
      let b = bucket digest16 digest8 r v key src len m sized bytes small narrow young in
      let w = way digest16 digest8 r v key src len m sized bytes small narrow young in
      let bj = bucket_index digest8 r.geom j in
      let same = of_some (sym e₀ ∙ e) in
      let eo : slot_offset r.geom b w ≡ slot_offset r.geom bj x =
        of_some (ap (λ t. t.0) same) ∙ sym here in
      let read =
        read_ways_first digest16 digest8 r j bj m (λ t. m') dst len 0 r.geom.ways x (omega arith)
          (omega (arith, found.in_bucket)) found.hit (λ u lo hi. found.first u hi) in
      (
        ap (λ t. t.0) read,
        λ i lt.
            ap (λ t. t.1 (dst + i)) read
            ∙ memmove_at dst (r.base + slot_offset r.geom bj x + header_size) len i m' lt
            ∙ ap (λ t. t (r.base + slot_offset r.geom bj x + header_size + i))
                (ap (λ t. t.2) (sym same))
            ∙ ap (λ t. m₀ (r.base + t + header_size + i)) (sym eo)
            ∙ wrote.copied i lt (
                outside_source digest16 digest8 r v key src len m sized bytes small narrow young
                  apart),
      )
