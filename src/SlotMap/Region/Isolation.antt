-- ===== src/SlotMap/Region/Isolation.antt =====
-- A write leaves the pages in the other slots readable.
use mathlib.Core.Path.{ap₂}
use peer_cache.Base.{
  of_some, ℕ, ◌+◌, ◌^◌, ◌<◌, ◌≤◌, ◌≡◌, ◌≢◌, sym, ap, subst, ◌∙◌, inl, inr, arith, String, some,
  true, false, List, length, ◌==◌, eq_ℕ, ==_iff, Bool-cases, All, ◌&&◌,
}
use peer_cache.Base.Memory.{Memory, memmove, memmove_at}
use peer_cache.SlotMap.{header_size, slot_offset, bucket_index, slot_matches, key_hash128}
use peer_cache.SlotMap.Gate.{matches-encode}
use peer_cache.SlotMap.Layout.{slots_disjoint}
use peer_cache.SlotMap.Region.{
  SlotRegion, next_even, set_seq, header_at, write_local, read_local, read_local_during,
}
use peer_cache.SlotMap.Region.Ways.{read_ways_first}
use peer_cache.SlotMap.Region.Write.{Wrote}
use peer_cache.SlotMap.Region.RoundTrip.{
  IsValid, header-kept, bucket, way, way-lt, write_local-stores,
}

-- Where `read_local` finds the page of a key: in the first way of its bucket that matches.
pub record FoundAt (digest16 digest8 : String → List ℕ) (r : SlotRegion) (m : Memory) (key : String)
    (len w : ℕ) : Type 0 where
  pub in_bucket : w < r.geom.ways
  pub hit : slot_matches digest16 (header_at r (bucket_index digest8 r.geom key) w m) key len ≡ true
  pub first :
      (u : ℕ)
      → u < w
      → slot_matches digest16 (header_at r (bucket_index digest8 r.geom key) u m) key len ≡ false

module _ (digest16 digest8 : String → List ℕ) (r : SlotRegion) (v : IsValid r) (key : String)
    (src len : ℕ) (m : Memory) (sized : length (digest16 key) ≡ 16)
    (bytes : All (λ b. b < 256) (digest16 key)) (small : len ≤ r.geom.max_payload)
    (narrow : r.geom.max_payload < 2 ^ 32) (young : (b w : ℕ) → r.seq b w + 3 < 2 ^ 64) where
  abbrev b : ℕ
  b = bucket digest16 digest8 r v key src len m sized bytes small narrow young

  abbrev w : ℕ
  w = way digest16 digest8 r v key src len m sized bytes small narrow young

  w-lt : w < r.geom.ways
  w-lt = way-lt digest16 digest8 r v key src len m sized bytes small narrow young

  module _ (j : String) (n x : ℕ) (other : key_hash128 digest16 j ≢ key_hash128 digest16 key)
      (fitting : n ≤ r.geom.max_payload) (found : FoundAt digest16 digest8 r m j n x) (m' : Memory)
      (wrote : Wrote digest16 digest8 r key src len m b w m')
      (elsewhere : slot_offset r.geom (bucket_index digest8 r.geom j) x
        ≢ slot_offset r.geom b w) where
    abbrev bj : ℕ
    bj = bucket_index digest8 r.geom j

    kept : (u : ℕ) → u < r.geom.ways → (bj ≡ b → u ≢ w) → header_at r bj u m' ≡ header_at r bj u m
    kept u lt ne =
        header-kept digest16 digest8 r key src len m m' b w bj u v.layout small w-lt lt ne wrote

    other_slot : bj ≡ b → x ≢ w
    other_slot e e' = elsewhere (ap₂ (slot_offset r.geom) e e')

    still_hit : slot_matches digest16 (header_at r bj x m') j n ≡ true
    still_hit =
        ap (λ h. slot_matches digest16 h j n) (kept x found.in_bucket other_slot) ∙ found.hit

    overwritten : slot_matches digest16 (header_at r b w m') j n ≡ false
    overwritten = elim (Bool-cases (slot_matches digest16 (header_at r b w m') j n)) [
      | inr miss ↦ miss
      | inl dirty ↦ absurd (
          other (
            sym
              ((matches-encode digest16 key j len (next_even (r.seq b w)) n wrote.header
                  wrote.encoded).0
                (ap (λ h. slot_matches digest16 h j n) (sym wrote.stamped) ∙ dirty)).2))
    ]

    still_first : (u : ℕ) → u < x → slot_matches digest16 (header_at r bj u m') j n ≡ false
    still_first u lt = elim (Bool-cases (bj == b && u == w)) [
      | inl same ↦
          let eb : bj ≡ b = ground (arith, ==_iff bj b) in
          let ew : u ≡ w = ground (arith, ==_iff u w) in
          ap₂ (λ p q. slot_matches digest16 (header_at r p q m') j n) eb ew ∙ overwritten
      | inr differ ↦
          ap (λ h. slot_matches digest16 h j n)
            (kept u (omega (arith, found.in_bucket))
              (λ eb ew. ground (arith, differ, ==_iff bj b, ==_iff u w)))
          ∙ found.first u lt
    ]

    bytes_kept :
        (i : ℕ)
        → i < n
        → m' (r.base + slot_offset r.geom bj x + header_size + i)
          ≡ m (r.base + slot_offset r.geom bj x + header_size + i)
    bytes_kept i lt =
        wrote.outside (r.base + slot_offset r.geom bj x + header_size + i)
          (elim (slots_disjoint r.geom bj b x w v.layout found.in_bucket w-lt other_slot) [
            | inl before ↦ inl (omega (arith, v.layout.room))
            | inr behind ↦ inr (omega (arith, v.layout.room))
          ])

    still_read :
        (s dst : ℕ)
        → read_local digest16 digest8 (set_seq b w s r) j dst n m'
          ≡ (true, memmove dst (r.base + slot_offset r.geom bj x + header_size) n m')
    unfolding read_local read_local_during header_at set_seq
    still_read s dst =
        read_ways_first digest16 digest8 (set_seq b w s r) j bj m' (λ t. t) dst n 0 r.geom.ways x
          (omega arith) (omega (arith, found.in_bucket)) still_hit (λ u le lt. still_first u lt)

  -- On a region with at least one slot, after a write of a key (of 16 digest bytes, a page that
  -- fits, with a length below 2 ^ 32 and seqs below 2 ^ 64), `read_local` still finds the page of
  -- a key with another 128-bit hash that it found before in another slot, and copies the bytes
  -- that the page had.
  pub write_local-keeps :
      (j : String) (n x : ℕ)
      → key_hash128 digest16 j ≢ key_hash128 digest16 key
      → n ≤ r.geom.max_payload
      → FoundAt digest16 digest8 r m j n x
      → (off : ℕ) (r' : SlotRegion) (m' : Memory)
      → write_local digest16 digest8 r key src len m ≡ some (some off, r', m')
      → slot_offset r.geom (bucket_index digest8 r.geom j) x ≢ off
      → (dst : ℕ)
      → ((read_local digest16 digest8 r' j dst n m').0 ≡ true)
        × ((i : ℕ)
            → i < n
            → (read_local digest16 digest8 r' j dst n m').1 (dst + i)
              ≡ m (r.base + slot_offset r.geom (bucket_index digest8 r.geom j) x + header_size + i))
  write_local-keeps j n x other fitting found off r' m' e elsewhere dst =
      let (m₀, e₀, wrote₀) =
        write_local-stores digest16 digest8 r v key src len m sized bytes small narrow young in
      let same = of_some (sym e₀ ∙ e) in
      let eo : slot_offset r.geom b w ≡ off = of_some (ap (λ t. t.0) same) in
      let em : m₀ ≡ m' = ap (λ t. t.2) same in
      let wrote = subst (Wrote digest16 digest8 r key src len m b w) em wrote₀ in
      let apart : slot_offset r.geom (bucket_index digest8 r.geom j) x ≢ slot_offset r.geom b w =
        λ p. elsewhere (p ∙ eo) in
      let read =
        subst
          (λ q. read_local digest16 digest8 q j dst n m' ≡ (
            true,
            memmove dst
                (r.base + slot_offset r.geom (bucket_index digest8 r.geom j) x + header_size) n m',
          ))
          (ap (λ t. t.1) same)
          (still_read j n x other fitting found m' wrote apart (next_even (r.seq b w)) dst) in
      (
        ap (λ t. t.0) read,
        λ i lt.
            ap (λ t. t.1 (dst + i)) read
            ∙ memmove_at dst
                (r.base + slot_offset r.geom (bucket_index digest8 r.geom j) x + header_size) n i m'
                lt
            ∙ bytes_kept j n x other fitting found m' wrote apart i lt,
      )
