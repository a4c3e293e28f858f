-- ===== src/Tests/SlotMap.antt =====
-- Runs of the slot map: one bucket of two ways for pages of up to four bytes.
use peer_cache.Base.{
  ℕ, zero, suc, ◌+◌, ◌%◌, ◌^◌, ◌≡◌, ◌≢◌, ◌<◌, ◌≤◌, ◌⊎◌, inl, refl, ap, arith, String, Option, none,
  some, true, List, ◌∷◌, ◌++◌, ◌==◌, eq_ℕ, eq_string, length, if◌then◌else◌, All, ltb,
}
use peer_cache.Base.Bytes.{pack_le, unpack_le, values, zeros}
use peer_cache.Base.Memory.{Memory, memmove, store, string_at}
use peer_cache.SlotMap.{
  header_size, fits, header_body, checked, decode_fields, decode_header, SlotGeometry, align,
  slot_geometry, capacity, slot_offset, key_hash128, encode_header, header_matches, slot_matches,
  header_present, slot_present, first_empty, older, empty_here, held_here, scan_way, scan_ways,
  choose, next_seq, pick_way_from_bucket, bucket_hash, bucket_index,
}
use peer_cache.SlotMap.Layout.{slot_geometry-IsLaidOut, slots_disjoint}
use peer_cache.SlotMap.Choice.{header_in, is_empty}
use peer_cache.SlotMap.Region.{
  SlotRegion, init, key_of, header_at, slot_key_hash, is_key, note_empty, note_oldest, fallback,
  odd_of, next_even, set_seq, pick_loop, pick_way, mark_seq, write_slot, write_local, read_ways,
  read_local_during, read_local,
}
use peer_cache.SlotMap.Region.RoundTrip.{IsValid, write-read}
use peer_cache.SlotMap.Region.Isolation.{FoundAt, write_local-keeps}
use peer_cache.SlotMap.Region.Torn.{displaced_read}

program : Unit {0}
unfolding pack_le unpack_le values zeros memmove store string_at fits header_body checked
    decode_fields decode_header align slot_geometry capacity slot_offset key_hash128 encode_header
    header_matches slot_matches header_present slot_present first_empty older empty_here held_here
    scan_way scan_ways choose next_seq pick_way_from_bucket bucket_hash bucket_index init key_of
    header_at slot_key_hash is_key note_empty note_oldest fallback odd_of next_even set_seq
    pick_loop pick_way mark_seq write_slot write_local read_ways read_local_during read_local
program = tt

abbrev digest16 : String → List ℕ
digest16 s = if s == "a" then 1 ∷ zeros 15 else if s == "b" then 2 ∷ zeros 15 else 3 ∷ zeros 15

abbrev digest8 : String → List ℕ
digest8 s = zeros 8

abbrev geometry : SlotGeometry
geometry = slot_geometry 4 1 2

abbrev region : SlotRegion
region = init 1000 geometry

-- The source pages are below the region, which is zero.
abbrev memory : Memory
memory x = if ltb x 1000 then x % 256 else 0

region-IsValid : IsValid region
unfolding program
region-IsValid = record {
  layout = slot_geometry-IsLaidOut 4 1 2;
  some_bucket = omega arith;
  some_way = omega arith;
}

sized : (s : String) → length (digest16 s) ≡ 16
unfolding program
sized s = ground arith

zeros_bytes : (n : ℕ) → All (λ b. b < 256) (zeros n)
unfolding zeros
zeros_bytes zero = tt
zeros_bytes (suc n) = (omega arith, zeros_bytes n)

bytes : (x : ℕ) → x < 256 → All (λ b. b < 256) (x ∷ zeros 15)
bytes x h = (h, zeros_bytes 15)

a_bytes : All (λ b. b < 256) (digest16 "a")
a_bytes = bytes 1 (omega arith)

b_bytes : All (λ b. b < 256) (digest16 "b")
b_bytes = bytes 2 (omega arith)

small : 4 ≤ region.geom.max_payload
unfolding program
small = omega arith

narrow : region.geom.max_payload < 2 ^ 32
unfolding program
narrow = omega arith

young : (b w : ℕ) → region.seq b w + 3 < 2 ^ 64
unfolding program
young b w = omega arith

below : (8 + 4 ≤ region.base) ⊎ (region.base + capacity region.geom ≤ 8)
unfolding program
below = inl (omega arith)

write-read_example :
    (off : ℕ) × (r' : SlotRegion) × (m' : Memory) × (write_local digest16 digest8 region "a" 8 4
        memory
      ≡ some (some off, r', m'))
    × ((read_local digest16 digest8 r' "a" 5000 4 m').0 ≡ true)
    × ((i : ℕ)
        → i < 4
        → (read_local digest16 digest8 r' "a" 5000 4 m').1 (5000 + i) ≡ memory (8 + i))
write-read_example =
    write-read digest16 digest8 region region-IsValid "a" 8 4 memory (sized "a") a_bytes small
      narrow young 5000 below

stored : Option (Option ℕ × SlotRegion × Memory) → SlotRegion × Memory
stored none = (region, memory)
stored (some t) = (t.1, t.2)

abbrev one : SlotRegion × Memory
one = stored (write_local digest16 digest8 region "a" 8 4 memory)

one-FoundAt : FoundAt digest16 digest8 one.0 one.1 "a" 4 0
unfolding program stored
one-FoundAt = record { in_bucket = omega arith; hit = refl; first = λ u lt. absurd (omega arith) }

one-IsValid : IsValid one.0
unfolding program stored
one-IsValid = record {
  layout = slot_geometry-IsLaidOut 4 1 2;
  some_bucket = omega arith;
  some_way = omega arith;
}

one_young : (b w : ℕ) → one.0.seq b w + 3 < 2 ^ 64
unfolding program stored
one_young b w = ground arith

one_small : 4 ≤ one.0.geom.max_payload
unfolding program stored
one_small = omega arith

one_narrow : one.0.geom.max_payload < 2 ^ 32
unfolding program stored
one_narrow = omega arith

abbrev two : SlotRegion × Memory
two = stored (write_local digest16 digest8 one.0 "b" 16 4 one.1)

-- The second key of the bucket gets the second way.
b_written : write_local digest16 digest8 one.0 "b" 16 4 one.1 ≡ some (some 128, two.0, two.1)
unfolding program stored
b_written = refl

other_hash : key_hash128 digest16 "a" ≢ key_hash128 digest16 "b"
unfolding program
other_hash e = absurd (omega (arith, ap (λ t. t.0) e))

other_slot : slot_offset one.0.geom (bucket_index digest8 one.0.geom "a") 0 ≢ 128
unfolding program stored
other_slot e = absurd (omega (arith, e))

write_local-keeps_example :
    ((read_local digest16 digest8 two.0 "a" 5000 4 two.1).0 ≡ true)
    × ((i : ℕ)
        → i < 4
        → (read_local digest16 digest8 two.0 "a" 5000 4 two.1).1 (5000 + i)
          ≡ one.1 (
              one.0.base
              + slot_offset one.0.geom (bucket_index digest8 one.0.geom "a") 0
              + header_size
              + i))
write_local-keeps_example =
    write_local-keeps digest16 digest8 one.0 one-IsValid "b" 16 4 one.1 (sized "b") b_bytes
      one_small one_narrow one_young "a" 4 0 other_hash one_small one-FoundAt 128 two.0 two.1
      b_written other_slot 5000

-- With one way, the second key displaces the first.
abbrev narrow_region : SlotRegion
narrow_region = init 1000 (slot_geometry 4 1 1)

abbrev held : SlotRegion × Memory
held = stored (write_local digest16 digest8 narrow_region "a" 8 4 memory)

abbrev lost : SlotRegion × Memory
lost = stored (write_local digest16 digest8 held.0 "b" 16 4 held.1)

held-FoundAt : FoundAt digest16 digest8 held.0 held.1 "a" 4 0
unfolding program stored
held-FoundAt = record { in_bucket = omega arith; hit = refl; first = λ u lt. absurd (omega arith) }

held-IsValid : IsValid held.0
unfolding program stored
held-IsValid = record {
  layout = slot_geometry-IsLaidOut 4 1 1;
  some_bucket = omega arith;
  some_way = omega arith;
}

held_young : (b w : ℕ) → held.0.seq b w + 3 < 2 ^ 64
unfolding program stored
held_young b w = ground arith

held_small : 4 ≤ held.0.geom.max_payload
unfolding program stored
held_small = omega arith

held_narrow : held.0.geom.max_payload < 2 ^ 32
unfolding program stored
held_narrow = omega arith

held_below : (16 + 4 ≤ held.0.base) ⊎ (held.0.base + capacity held.0.geom ≤ 16)
unfolding program stored
held_below = inl (omega arith)

displaced : write_local digest16 digest8 held.0 "b" 16 4 held.1 ≡ some (some 0, lost.0, lost.1)
unfolding program stored
displaced = refl

same_slot : slot_offset held.0.geom (bucket_index digest8 held.0.geom "a") 0 ≡ 0
unfolding program stored
same_slot = refl

-- A reader of "a" that tested the header before gets the bytes of "b".
displaced_read_example :
    ((read_local_during digest16 digest8 (λ t. lost.1) held.0 "a" 5000 4 held.1).0 ≡ true)
    × ((i : ℕ)
        → i < 4
        → (read_local_during digest16 digest8 (λ t. lost.1) held.0 "a" 5000 4 held.1).1 (5000 + i)
          ≡ held.1 (16 + i))
displaced_read_example =
    displaced_read digest16 digest8 held.0 held-IsValid "b" 16 4 held.1 (sized "b") b_bytes
      held_small held_narrow held_young held_below "a" 0 held-FoundAt 0 lost.0 lost.1 displaced
      same_slot 5000

slots_disjoint_example :
    (slot_offset geometry 0 0 + geometry.slot_stride ≤ slot_offset geometry 0 1)
    ⊎ (slot_offset geometry 0 1 + geometry.slot_stride ≤ slot_offset geometry 0 0)
unfolding slot_geometry
slots_disjoint_example =
    slots_disjoint geometry 0 0 0 1 (slot_geometry-IsLaidOut 4 1 2) (omega arith) (omega arith)
      (λ e k. absurd (omega (arith, k)))

-- "a" was written once more: its way has the seq 10, the other way is empty.
bucket : List ℕ
unfolding program
bucket = header_body 1 0 4 10 (zeros 88) ++ zeros 128

second_in : 1 < geometry.ways
unfolding program
second_in = omega arith

second_empty : is_empty (header_in digest16 "a" bucket geometry 1) ≡ true
unfolding program bucket
second_empty = refl

refreshed : (pick_way_from_bucket digest16 bucket geometry "a").0 ≡ 0
unfolding program bucket
refreshed = refl

marked : Option Memory → Memory
marked none = memory
marked (some m) = m

abbrev during : Memory
during = marked (mark_seq digest16 digest8 region 0 (odd_of 2) "a" 4 memory)
