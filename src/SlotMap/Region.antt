-- ===== src/SlotMap/Region.antt =====
-- python/peercache/slotmap.py: `SlotRegion`, the slots of the node that owns them.
-- `none` as the result of a write is `struct.error`, raised for a header field that does not fit.
pub mod Ways
pub mod Write
pub mod RoundTrip
pub mod Isolation
pub mod Torn
use peer_cache.Base.{
  ℕ, zero, suc, ◌+◌, ◌%◌, String, Option, none, some, Bool, true, false, not, List, ltb, ◌==◌, eq_ℕ,
  ◌&&◌, if◌then◌else◌, ◌>>=◌,
}
use peer_cache.Base.Memory.{Memory, memmove, store, string_at}
use peer_cache.SlotMap.{
  header_size, Header, decode_header, SlotGeometry, slot_offset, key_hash128, encode_header,
  slot_matches, slot_present, first_empty, bucket_index,
}

pub record SlotRegion : Type 0 where
  pub base : ℕ
  pub geom : SlotGeometry
  -- `_seq.get((bucket, way), 0)`
  pub seq : ℕ → ℕ → ℕ

unfoldable pub init : ℕ → SlotGeometry → SlotRegion
init base_addr geom = record { base = base_addr; geom = geom; seq = λ bucket way. 0 }

unfoldable pub key_of : Option Header → Option (ℕ × ℕ)
key_of none = none
key_of (some h) = if not h.valid then none else some (h.key_hi, h.key_lo)

unfoldable pub header_at : SlotRegion → ℕ → ℕ → Memory → List ℕ
header_at r bucket way m = string_at (r.base + slot_offset r.geom bucket way) header_size m

unfoldable pub slot_key_hash : SlotRegion → ℕ → ℕ → Memory → Option (ℕ × ℕ)
slot_key_hash r bucket way m = key_of (decode_header (header_at r bucket way m))

unfoldable pub is_key : ℕ × ℕ → Option (ℕ × ℕ) → Bool
is_key k none = false
is_key k (some h) = h.0 == k.0 && h.1 == k.1

-- The variables of the loop of `pick_way`.
pub record Candidate : Type 0 where
  pub empty_way : Option ℕ
  pub oldest_way : ℕ
  pub oldest_seq : Option ℕ

unfoldable pub note_empty : ℕ → Option (ℕ × ℕ) → Candidate → Candidate
unfolding first_empty
note_empty way none c = record c { empty_way = first_empty way c.empty_way }
note_empty way (some _) c = c

unfoldable pub note_oldest : ℕ → ℕ → Candidate → Option ℕ → Candidate
note_oldest way s c none = record c { oldest_way = way; oldest_seq = some s }
note_oldest way s c (some q) =
    if ltb s q then record c { oldest_way = way; oldest_seq = some s } else c

unfoldable pub fallback : Candidate → Option ℕ → ℕ
fallback c none = c.oldest_way
fallback c (some way) = way

-- `s if s & 1 else s + 1`, that is `s | 1`
unfoldable pub odd_of : ℕ → ℕ
odd_of s = if s % 2 == 1 then s else s + 1

unfoldable pub next_even : ℕ → ℕ
next_even seq = if seq % 2 == 0 then seq + 2 else seq + 1

unfoldable pub set_seq : ℕ → ℕ → ℕ → SlotRegion → SlotRegion
set_seq bucket way s r = record r { seq = λ b w. if b == bucket && w == way then s else r.seq b w }

module _ (digest16 digest8 : String → List ℕ) where
  -- The rounds of `pick_way` from `way` on, `n` of them.
  unfoldable pub pick_loop : SlotRegion → String → ℕ → Memory → ℕ → ℕ → Candidate → ℕ
  unfolding note_empty note_oldest fallback
  pick_loop r key bucket m way zero c = fallback c c.empty_way
  pick_loop r key bucket m way (suc n) c =
      let kh = slot_key_hash r bucket way m in
      let c' = note_empty way kh c in
      let rest =
        pick_loop r key bucket m (way + 1) n
          (note_oldest way (r.seq bucket way) c' c'.oldest_seq) in
      if is_key (key_hash128 digest16 key) kh then way else rest

  unfoldable pub pick_way : SlotRegion → String → Memory → ℕ × ℕ
  pick_way r key m =
      let bucket = bucket_index digest8 r.geom key in
      (
        bucket,
        pick_loop r key bucket m 0 r.geom.ways
            (record { empty_way = none; oldest_way = 0; oldest_seq = none }),
      )

  -- `_mark_seq`, which `_write_header` calls with the final seq
  unfoldable pub mark_seq : SlotRegion → ℕ → ℕ → String → ℕ → Memory → Option Memory
  mark_seq r off seq key length m = do
    header ← encode_header digest16 key length seq
    some (store (r.base + off) header m)

  unfoldable pub write_slot :
      SlotRegion → String → ℕ → ℕ → Memory → ℕ → ℕ → Option (Option ℕ × SlotRegion × Memory)
  write_slot r key src length m bucket way =
      let off = slot_offset r.geom bucket way in
      let new_seq = next_even (r.seq bucket way) in
      do
        marked ← mark_seq r off (odd_of new_seq) key length m
        let copied = memmove (r.base + off + header_size) src length marked
        written ← mark_seq r off new_seq key length copied
        some (some off, set_seq bucket way new_seq r, written)

  unfoldable pub write_local :
      SlotRegion → String → ℕ → ℕ → Memory → Option (Option ℕ × SlotRegion × Memory)
  write_local r key src length m =
      let (bucket, way) = pick_way r key m in
      if ltb r.geom.max_payload length
      then some (none, r, m)
      else write_slot r key src length m bucket way

  -- The rounds of `read_local` from `way` on, `n` of them. It takes no lock: `meanwhile` is what
  -- other threads do to the memory between the test of the header that matches and the copy.
  unfoldable pub read_ways :
      (Memory → Memory) → SlotRegion → String → ℕ → ℕ → ℕ → Memory → ℕ → ℕ → Bool × Memory
  read_ways meanwhile r key bucket dst length m way zero = (false, m)
  read_ways meanwhile r key bucket dst length m way (suc n) =
      let rest = read_ways meanwhile r key bucket dst length m (way + 1) n in
      if slot_matches digest16 (header_at r bucket way m) key length
      then (
        true,
        memmove dst (r.base + slot_offset r.geom bucket way + header_size) length (meanwhile m),
      )
      else rest

  unfoldable pub read_local_during :
      (Memory → Memory) → SlotRegion → String → ℕ → ℕ → Memory → Bool × Memory
  unfolding read_ways
  read_local_during meanwhile r key dst length m =
      read_ways meanwhile r key (bucket_index digest8 r.geom key) dst length m 0 r.geom.ways

  -- `read_local` with nothing between the test and the copy
  unfoldable pub read_local : SlotRegion → String → ℕ → ℕ → Memory → Bool × Memory
  unfolding read_local_during
  read_local r key dst length m = read_local_during (λ m'. m') r key dst length m

  unfoldable pub first_present : Option ℕ → Option ℕ → Option ℕ
  first_present none rest = rest
  first_present (some n) rest = some n

  unfoldable pub exists_ways : SlotRegion → String → ℕ → Memory → ℕ → ℕ → Option ℕ
  unfolding first_present
  exists_ways r key bucket m way zero = none
  exists_ways r key bucket m way (suc n) =
      first_present (slot_present digest16 (header_at r bucket way m) key)
        (exists_ways r key bucket m (way + 1) n)

  unfoldable pub exists_local : SlotRegion → String → Memory → Option ℕ
  exists_local r key m = exists_ways r key (bucket_index digest8 r.geom key) m 0 r.geom.ways
