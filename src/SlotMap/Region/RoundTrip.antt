-- ===== src/SlotMap/Region/RoundTrip.antt =====
-- A page that `write_local` stored is read back, and pages in other slots stay.
use native.Mathlib.Nat.{mod-lt}
use peer_cache.Base.{
  ℕ, ◌+◌, ◌^◌, ◌<◌, ◌≤◌, ◌≡◌, ◌≢◌, ◌⊎◌, refl, sym, ap, ◌∙◌, inl, inr, arith, String, none, some,
  true, false, List, length, ltb, eq_ℕ, Bool-cases, All,
}
use peer_cache.Base.Memory.{Memory, memmove, string_at_same, memmove_at}
use peer_cache.SlotMap.{header_size, slot_offset, capacity, bucket_index, slot_matches}
use peer_cache.SlotMap.Gate.{encode_header-total, matches-encode}
use peer_cache.SlotMap.Layout.{IsLaidOut, slots_disjoint, slot-in-capacity}
use peer_cache.SlotMap.Region.{
  SlotRegion, odd_of, next_even, set_seq, header_at, pick_way, write_local, read_local,
  read_local_during,
}
use peer_cache.SlotMap.Region.Ways.{
  keyed, pick_loop-lt, pick_loop-first, matches-keyed, read_ways_first,
}
use peer_cache.SlotMap.Region.Write.{Wrote, write_slot_lem, next_even-even}

-- A region that the constructors made, with at least one slot.
pub record IsValid (r : SlotRegion) : Type 0 where
  pub layout : IsLaidOut r.geom
  pub some_bucket : 0 < r.geom.num_buckets
  pub some_way : 0 < r.geom.ways

-- The header of another slot is not touched by a write.
pub header-kept :
    (digest16 digest8 : String → List ℕ) (r : SlotRegion) (key : String) (src len : ℕ)
    (m m' : Memory) (b w b' w' : ℕ)
    → IsLaidOut r.geom
    → len ≤ r.geom.max_payload
    → w < r.geom.ways
    → w' < r.geom.ways
    → (b' ≡ b → w' ≢ w)
    → Wrote digest16 digest8 r key src len m b w m'
    → header_at r b' w' m' ≡ header_at r b' w' m
unfolding header_at
header-kept digest16 digest8 r key src len m m' b w b' w' v small lt lt' ne wrote =
    string_at_same (r.base + slot_offset r.geom b' w') header_size m' m (λ a lo hi.
      wrote.outside a (elim (slots_disjoint r.geom b' b w' w v lt' lt ne) [
        | inl before ↦ inl (omega (arith, v.room))
        | inr behind ↦ inr (omega (arith, v.room))
      ]))

module _ (digest16 digest8 : String → List ℕ) (r : SlotRegion) (v : IsValid r) (key : String)
    (src len : ℕ) (m : Memory) (sized : length (digest16 key) ≡ 16)
    (bytes : All (λ b. b < 256) (digest16 key)) (small : len ≤ r.geom.max_payload)
    (narrow : r.geom.max_payload < 2 ^ 32) (young : (b w : ℕ) → r.seq b w + 3 < 2 ^ 64) where
  abbrev pub bucket : ℕ
  bucket = (pick_way digest16 digest8 r key m).0

  abbrev pub way : ℕ
  way = (pick_way digest16 digest8 r key m).1

  pub way-lt : way < r.geom.ways
  unfolding pick_way
  way-lt =
      pick_loop-lt digest16 digest8 r key (bucket_index digest8 r.geom key) m r.geom.ways 0
        r.geom.ways _ (omega arith) (record { empty = λ w e. absurd (cc); oldest = v.some_way })

  pub bucket-lt : bucket < r.geom.num_buckets
  unfolding pick_way bucket_index
  bucket-lt = mod-lt _ v.some_bucket

  no_keyed : (w : ℕ) → w < way → keyed digest16 digest8 r key bucket m w ≡ false
  unfolding pick_way
  no_keyed w lt =
      pick_loop-first digest16 digest8 r key (bucket_index digest8 r.geom key) m 0 r.geom.ways
        (record { empty_way = none; oldest_way = 0; oldest_seq = none }) w (omega arith)
        (omega (arith, way-lt)) lt

  odd_of-le : (s : ℕ) → odd_of (next_even s) ≤ s + 3
  unfolding odd_of next_even
  odd_of-le s = ground arith

  next_even-le : (s : ℕ) → next_even s ≤ s + 3
  unfolding next_even
  next_even-le s = ground arith

  -- `write_local` stores the page.
  pub write_local-stores :
      (m' : Memory) × (write_local digest16 digest8 r key src len m
        ≡ some (
          some (slot_offset r.geom bucket way),
          set_seq bucket way (next_even (r.seq bucket way)) r,
          m',
        ))
      × Wrote digest16 digest8 r key src len m bucket way m'
  unfolding write_local
  write_local-stores =
      let s = r.seq bucket way in
      let fits : len < 2 ^ 32 = omega (arith, small, narrow) in
      let room = young bucket way in
      let (first, f) =
        encode_header-total digest16 key len (odd_of (next_even s)) sized bytes fits
          (omega (arith, room, odd_of-le s)) in
      let (last, l) =
        encode_header-total digest16 key len (next_even s) sized bytes fits
          (omega (arith, room, next_even-le s)) in
      let (m', e, wrote) =
        write_slot_lem digest16 digest8 r key src len m bucket way first last f l in
      let fitting : ltb r.geom.max_payload len ≡ false = ground arith in (m', rw fitting e, wrote)

  pub outside_source :
      ((src + len ≤ r.base) ⊎ (r.base + capacity r.geom ≤ src))
      → ((src + len ≤ r.base + slot_offset r.geom bucket way)
          ⊎ (r.base + slot_offset r.geom bucket way + header_size ≤ src))
  outside_source h =
      let below = slot-in-capacity r.geom bucket way v.layout bucket-lt way-lt in
      ground (arith, v.layout.room, below)

  module _ (m' : Memory) (wrote : Wrote digest16 digest8 r key src len m bucket way m') where
    hit : slot_matches digest16 (header_at r bucket way m') key len ≡ true
    hit = rw wrote.stamped (
        (matches-encode digest16 key key len (next_even (r.seq bucket way)) len wrote.header
            wrote.encoded).1
          (next_even-even (r.seq bucket way), refl, refl))

    no_earlier :
        (w : ℕ) → 0 ≤ w → w < way → slot_matches digest16 (header_at r bucket w m') key len ≡ false
    no_earlier w le lt =
        elim (Bool-cases (slot_matches digest16 (header_at r bucket w m') key len)) [
          | inr miss ↦ miss
          | inl found ↦
              let kept =
                header-kept digest16 digest8 r key src len m m' bucket way bucket w v.layout small
                  way-lt (omega (arith, way-lt)) (λ e same. omega (arith, same)) wrote in
              let there =
                matches-keyed digest16 digest8 r key bucket m w len
                  (ap (λ h. slot_matches digest16 h key len) (sym kept) ∙ found) in
              absurd (cc (there, no_keyed w lt))
        ]

    found_there :
        (b w s dst : ℕ)
        → read_local digest16 digest8 (set_seq b w s r) key dst len m'
          ≡ (true, memmove dst (r.base + slot_offset r.geom bucket way + header_size) len m')
    unfolding read_local read_local_during pick_way header_at set_seq
    found_there b w s dst =
        read_ways_first digest16 digest8 (set_seq b w s r) key (bucket_index digest8 r.geom key) m'
          (λ t. t) dst len 0 r.geom.ways way (omega arith) (omega (arith, way-lt)) hit no_earlier

  -- On a region with at least one slot, a page that fits, of a source outside the region, is
  -- stored by `write_local`, given 16 digest bytes, lengths below 2 ^ 32 and seqs that stay below
  -- 2 ^ 64, and `read_local` then finds it: it copies the bytes of the source.
  pub write-read :
      (dst : ℕ)
      → ((src + len ≤ r.base) ⊎ (r.base + capacity r.geom ≤ src))
      → (off : ℕ) × (r' : SlotRegion) × (m' : Memory) × (write_local digest16 digest8 r key src len
            m
          ≡ some (some off, r', m'))
        × ((read_local digest16 digest8 r' key dst len m').0 ≡ true)
        × ((i : ℕ)
            → i < len
            → (read_local digest16 digest8 r' key dst len m').1 (dst + i) ≡ m (src + i))
  write-read dst apart =
      let (m', e, wrote) = write_local-stores in
      let seq = next_even (r.seq bucket way) in
      let found = found_there m' wrote bucket way seq dst in
      (
        slot_offset r.geom bucket way,
        set_seq bucket way seq r,
        m',
        e,
        ap (λ t. t.0) found,
        λ i lt.
            ap (λ t. t.1 (dst + i)) found
            ∙ memmove_at dst (r.base + slot_offset r.geom bucket way + header_size) len i m' lt
            ∙ wrote.copied i lt (outside_source apart),
      )
