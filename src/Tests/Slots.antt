-- ===== src/Tests/Slots.antt =====
-- The slot-map mode of python/peercache/store.py on small inputs: a page of three bytes for a peer
-- with one bucket of two ways.
use peer_cache.Base.{
  ℕ, zero, suc, ◌+◌, ◌≤◌, ◌<◌, ◌≡◌, ◌⊎◌, refl, arith, String, some, Bool, true, false, List, [],
  ◌∷◌, ◌++◌, ◌==◌, eq_string, if◌then◌else◌, take,
}
use peer_cache.Base.Bytes.{zeros, pack_le, unpack_le, values}
use peer_cache.Base.Memory.{Memory, store, string_at}
use peer_cache.Directory.{Link, up}
use peer_cache.SlotMap.{
  header_size, slot_geometry, encode_header, align, bucket_index, bucket_hash, pick_way_from_bucket,
  scan_ways, scan_way, empty_here, held_here, older, first_empty, choose, next_seq, decode_header,
  decode_fields, checked, key_hash128,
}
use peer_cache.SlotMap.Choice.{holds}
use peer_cache.SlotMap.Layout.{IsLaidOut, slot_geometry-IsLaidOut}
use peer_cache.SlotMap.Gate.{IsStamped, encode_header-total}
use peer_cache.Store.Slots.Shared.{World, Remote, read_bucket, bucket_addr, slot_header}
use peer_cache.Store.Slots.Publish.{batch_write, write_of, pack_slot}
use peer_cache.Store.Slots.Fetch.{take_bucket}
use peer_cache.Store.Slots.Fetch.Clean.{header_there, payload_there, fetch_clean}
use peer_cache.Store.Slots.RoundTrip.{
  bucket_read, picked, slot_addr, OnePlace, publish_one, publish-fetch, half_landed,
}

program : Unit {0}
unfolding pack_le unpack_le values zeros string_at align bucket_index bucket_hash
    pick_way_from_bucket scan_ways scan_way empty_here held_here older first_empty choose next_seq
    decode_header decode_fields checked key_hash128 slot_geometry bucket_addr slot_header
program = tt

abbrev digest16 : String → List ℕ
digest16 s = if s == "a" then 1 ∷ zeros 15 else 3 ∷ zeros 15

abbrev digest8 : String → List ℕ
digest8 s = zeros 8

abbrev remote : Remote
remote = record {
  page = record { key = "a"; ptr = 8; size = 3 };
  owner = "n2";
  layout = record { base_addr = 1000; endpoint = "10.0.0.2:9"; geom = slot_geometry 4 1 2 };
}

-- The slots of the peer are empty.
abbrev world : World
world ep a = 0

abbrev memory : Memory
memory a = a

laid_out : IsLaidOut remote.layout.geom
laid_out = slot_geometry-IsLaidOut 4 1 2

some_way : 0 < remote.layout.geom.ways
unfolding slot_geometry
some_way = omega arith

small : remote.page.size ≤ remote.layout.geom.max_payload
unfolding slot_geometry
small = omega arith

fetch_clean_example :
    ((way : ℕ) × (way < remote.layout.geom.ways)
      × (up ≡ up)
      × IsStamped digest16 "a" 3 (header_there digest16 digest8 world remote way)
      × (take_bucket digest16 digest8 remote (read_bucket digest8 up world remote) memory
          ≡ (true, store 8 (payload_there digest16 digest8 world remote way) memory)))
    ⊎ ((take_bucket digest16 digest8 remote (read_bucket digest8 up world remote) memory
          ≡ (false, memory))
        × (up ≡ up
            → (way : ℕ) → way < remote.layout.geom.ways
            → ¬ IsStamped digest16 "a" 3 (header_there digest16 digest8 world remote way)))
fetch_clean_example = fetch_clean digest16 digest8 up world remote memory laid_out small

first_seq : (picked digest16 digest8 remote world laid_out some_way).1 ≡ 2
unfolding program
first_seq = refl

made :
    (hdr : List ℕ) × (encode_header digest16 "a" 3
        (picked digest16 digest8 remote world laid_out some_way).1
      ≡ some hdr)
unfolding zeros
made =
    encode_header-total digest16 "a" 3 (picked digest16 digest8 remote world laid_out some_way).1
      (ground arith) (omega arith) (omega arith) (omega (arith, first_seq))

free :
    (u : ℕ)
    → u < remote.layout.geom.ways
    → holds digest16 "a" (
        decode_header (
          slot_header remote.layout.geom u
            (bucket_read digest16 digest8 remote world laid_out some_way)))
      ≡ false
unfolding program
free zero lt = refl
free (suc zero) lt = refl
free (suc (suc u)) lt = absurd (omega arith)

empty : OnePlace digest16 digest8 remote world laid_out some_way
empty u w lu lw hu hw = absurd (cc (free u lu, hu))

abbrev all_up : ℕ → Link
all_up j = up

abbrev written : List Bool × World
written =
    batch_write all_up 0
      (write_of digest16 digest8 remote (picked digest16 digest8 remote world laid_out some_way).0
          (made.0 ++ string_at 8 3 memory)
        ∷ [])
      world

publish-fetch_example :
    (written.0 ≡ true ∷ [])
    × (take_bucket digest16 digest8
          (record remote { page = record remote.page { ptr = 50 } })
          (read_bucket digest8 up written.1
            (record remote { page = record remote.page { ptr = 50 } }))
          memory
        ≡ (true, store 50 (string_at 8 3 memory) memory))
publish-fetch_example =
    publish-fetch digest16 digest8 remote world laid_out some_way all_up all_up memory memory 50
      written.0 written.1 refl refl small empty
      (publish_one digest16 digest8 remote world laid_out some_way all_up all_up memory
        (some made.0) refl made.1)

packed :
    pack_slot digest16 digest8 "a" 8 3
      (picked digest16 digest8 remote world laid_out some_way).1
      memory
    ≡ some (made.0 ++ string_at 8 3 memory)
unfolding pack_slot
packed = rw made.1 refl

half_landed_example :
    take_bucket digest16 digest8
      (record remote { page = record remote.page { ptr = 50 } })
      (read_bucket digest8 up
        (λ ep.
          if ep == remote.layout.endpoint
          then store
              (slot_addr digest16 digest8 remote world laid_out some_way)
              (take header_size (made.0 ++ string_at 8 3 memory))
              (world ep)
          else world ep)
        (record remote { page = record remote.page { ptr = 50 } }))
      memory
    ≡ (
      true,
      store 50
          (string_at
            (slot_addr digest16 digest8 remote world laid_out some_way + header_size)
            3
            (world remote.layout.endpoint))
          memory,
    )
half_landed_example =
    half_landed digest16 digest8 remote world laid_out some_way memory
      (made.0 ++ string_at 8 3 memory) packed small empty 50 memory
