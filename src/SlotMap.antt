-- ===== src/SlotMap.antt =====
-- python/peercache/slotmap.py: slot headers, the choice of a way and the geometry.
-- The BLAKE2b digests are parameters: `digest16` the 16 bytes of the key's identity, `digest8` the
-- 8 bytes of the bucket hash. `none` as the result of `encode_header` is `struct.error`.
pub mod Gate
pub mod Region
pub mod Layout
pub mod Choice
use peer_cache.Base.{
  ℕ, zero, suc, ◌+◌, ◌-◌, ◌*◌, ◌/◌, ◌%◌, String, Option, none, some, Bool, true, false, not, List,
  [], ◌∷◌, ◌++◌, length, take, drop, ltb, ◌==◌, eq_ℕ, ◌&&◌, if◌then◌else◌,
}
use peer_cache.Base.Bytes.{pack_le, unpack_le, values, zeros}

-- `_MAGIC`, "PCK1"
abbrev pub magic : ℕ
magic = 1346587441

abbrev pub version : ℕ
version = 1

abbrev pub header_size : ℕ
header_size = 64

-- What `decode_header` returns: `(valid_magic, key_hi, key_lo, payload_len, seq)`.
pub record Header : Type 0 where
  pub valid : Bool
  pub key_hi : ℕ
  pub key_lo : ℕ
  pub payload_len : ℕ
  pub seq : ℕ

-- `struct.pack` raises where a value does not fit in its field.
unfoldable pub fits : ℕ → ℕ → Bool
fits w n = ltb n (values w)

-- `_HDR_STRUCT.pack(_MAGIC, _HDR_VER, 0, hi, lo, payload_len, 0, seq)`, followed by `rest`
unfoldable pub header_body : ℕ → ℕ → ℕ → ℕ → List ℕ → List ℕ
header_body hi lo payload_len seq rest =
    pack_le 4 magic
    ++ (pack_le 2 version
        ++ (pack_le 2 0
            ++ (pack_le 8 hi
                ++ (pack_le 8 lo
                    ++ (pack_le 4 payload_len ++ (pack_le 4 0 ++ (pack_le 8 seq ++ rest)))))))

-- The test of the magic number and the version.
unfoldable pub checked : ℕ → ℕ → ℕ → ℕ → ℕ → ℕ → Header
checked m ver hi lo payload_len seq =
    if m == magic && ver == version
    then record { valid = true; key_hi = hi; key_lo = lo; payload_len = payload_len; seq = seq }
    else record { valid = false; key_hi = 0; key_lo = 0; payload_len = 0; seq = 0 }

-- `_HDR_STRUCT.unpack` of at least 40 bytes
unfoldable pub decode_fields : List ℕ → Header
decode_fields buf =
    let at_ver = drop 4 buf in
    let at_hi = drop 2 (drop 2 at_ver) in
    let at_lo = drop 8 at_hi in
    let at_len = drop 8 at_lo in
    let at_seq = drop 4 (drop 4 at_len) in
    checked (unpack_le (take 4 buf)) (unpack_le (take 2 at_ver)) (unpack_le (take 8 at_hi))
      (unpack_le (take 8 at_lo)) (unpack_le (take 4 at_len)) (unpack_le (take 8 at_seq))

unfoldable pub decode_header : List ℕ → Option Header
decode_header buf = if ltb (length buf) 40 then none else some (decode_fields buf)

pub record SlotGeometry : Type 0 where
  pub max_payload : ℕ
  pub num_buckets : ℕ
  pub ways : ℕ
  pub slot_stride : ℕ
  pub bucket_stride : ℕ

-- `_align(n)` to 64
unfoldable pub align : ℕ → ℕ
align n = (n + 63) / 64 * 64

unfoldable pub slot_geometry : ℕ → ℕ → ℕ → SlotGeometry
slot_geometry max_payload num_buckets ways = record {
  max_payload = max_payload;
  num_buckets = num_buckets;
  ways = ways;
  slot_stride = align (header_size + max_payload);
  bucket_stride = align (header_size + max_payload) * ways;
}

unfoldable pub capacity : SlotGeometry → ℕ
capacity g = g.bucket_stride * g.num_buckets

unfoldable pub slot_offset : SlotGeometry → ℕ → ℕ → ℕ
slot_offset g bucket way = bucket * g.bucket_stride + way * g.slot_stride

-- The variables of the loop of `pick_way_from_bucket`.
pub record Scan : Type 0 where
  pub chosen : Option ℕ
  pub empty_way : Option ℕ
  pub oldest_way : ℕ
  pub oldest_seq : Option ℕ

unfoldable pub first_empty : ℕ → Option ℕ → Option ℕ
first_empty way none = some way
first_empty way (some w) = some w

-- `if oldest_seq is None or seq < oldest_seq: oldest_seq, oldest_way = seq, way`
unfoldable pub older : ℕ → ℕ → Scan → Option ℕ → Scan
older way seq s none = record s { oldest_way = way; oldest_seq = some seq }
older way seq s (some q) =
    if ltb seq q then record s { oldest_way = way; oldest_seq = some seq } else s

unfoldable pub empty_here : ℕ → Scan → Scan
unfolding first_empty older
empty_here way s = older way 0 (record s { empty_way = first_empty way s.empty_way }) s.oldest_seq

unfoldable pub choose : Scan → Option ℕ → Option ℕ → ℕ
choose s (some way) _ = way
choose s none (some way) = way
choose s none none = s.oldest_way

-- `(base + 2) & ~1`, and 2 for 0
unfoldable pub next_seq : Option ℕ → ℕ
next_seq none = 2
next_seq (some base) =
    let new_seq = base + 2 - (base + 2) % 2 in if new_seq == 0 then 2 else new_seq

module _ (digest16 : String → List ℕ) where
  unfoldable pub key_hash128 : String → ℕ × ℕ
  key_hash128 key = let d = digest16 key in (unpack_le (take 8 d), unpack_le (drop 8 d))

  unfoldable pub encode_header : String → ℕ → ℕ → Option (List ℕ)
  encode_header key payload_len seq =
      let (hi, lo) = key_hash128 key in
      if fits 8 hi && fits 8 lo && fits 4 payload_len && fits 8 seq
      then some (header_body hi lo payload_len seq (zeros (header_size - 40)))
      else none

  -- The tests of `slot_matches` on the decoded header.
  unfoldable pub header_matches : String → ℕ → Option Header → Bool
  header_matches key expected_len none = false
  header_matches key expected_len (some h) =
      let (hi, lo) = key_hash128 key in
      if not h.valid
      then false
      else if h.seq % 2 == 1
      then false
      else if not (h.payload_len == expected_len)
      then false
      else h.key_hi == hi && h.key_lo == lo

  unfoldable pub slot_matches : List ℕ → String → ℕ → Bool
  slot_matches header key expected_len = header_matches key expected_len (decode_header header)

  unfoldable pub header_present : String → Option Header → Option ℕ
  header_present key none = none
  header_present key (some h) =
      let (hi, lo) = key_hash128 key in
      if not h.valid
      then none
      else if h.seq % 2 == 1
      then none
      else if h.key_hi == hi && h.key_lo == lo
      then some h.payload_len
      else none

  unfoldable pub slot_present : List ℕ → String → Option ℕ
  slot_present header key = header_present key (decode_header header)

  unfoldable pub held_here : String → ℕ → Header → Scan → Scan
  unfolding older
  held_here key way h s =
      let (hi, lo) = key_hash128 key in
      let chosen = if h.key_hi == hi && h.key_lo == lo then some way else s.chosen in
      older way h.seq (record s { chosen = chosen }) s.oldest_seq

  unfoldable pub scan_way : String → ℕ → Option Header → Scan → Scan
  unfolding empty_here held_here
  scan_way key way none s = empty_here way s
  scan_way key way (some h) s = if not h.valid then empty_here way s else held_here key way h s

  -- The rounds from `way` on, `n` of them.
  unfoldable pub scan_ways : List ℕ → SlotGeometry → String → ℕ → ℕ → Scan → Scan
  scan_ways bucket g key way zero s = s
  scan_ways bucket g key way (suc n) s =
      let header = take header_size (drop (way * g.slot_stride) bucket) in
      scan_ways bucket g key (way + 1) n (scan_way key way (decode_header header) s)

  unfoldable pub pick_way_from_bucket : List ℕ → SlotGeometry → String → ℕ × ℕ
  unfolding choose
  pick_way_from_bucket bucket g key =
      let s =
        scan_ways bucket g key 0 g.ways
          (record { chosen = none; empty_way = none; oldest_way = 0; oldest_seq = none }) in
      (choose s s.chosen s.empty_way, next_seq s.oldest_seq)

module _ (digest8 : String → List ℕ) where
  unfoldable pub bucket_hash : String → ℕ
  bucket_hash key = unpack_le (digest8 key)

  -- A geometry has at least one bucket.
  unfoldable pub bucket_index : SlotGeometry → String → ℕ
  bucket_index g key = bucket_hash key % g.num_buckets

  unfoldable pub bucket_offset : SlotGeometry → String → ℕ
  bucket_offset g key = bucket_index g key * g.bucket_stride
