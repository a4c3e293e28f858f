-- ===== src/SlotMap/Region/Write.antt =====
-- What `write_local` leaves in memory.
use peer_cache.Base.{
  ℕ, ◌+◌, ◌%◌, ◌<◌, ◌≤◌, ◌≡◌, ◌⊎◌, refl, ◌∙◌, inr, arith, String, some, List, length, eq_ℕ,
}
use peer_cache.Base.Memory.{
  Memory, memmove, store, memmove_at, memmove_outside, store_outside, string_at-store,
}
use peer_cache.SlotMap.{header_size, slot_offset, encode_header}
use peer_cache.SlotMap.Gate.{decode-encode}
use peer_cache.SlotMap.Region.{
  SlotRegion, odd_of, next_even, set_seq, header_at, mark_seq, write_slot,
}

pub next_even-even : (s : ℕ) → next_even s % 2 ≡ 0
unfolding next_even
next_even-even s = ground arith

module _ (digest16 digest8 : String → List ℕ) where
  -- The slot of a way after a complete write.
  pub record Wrote (r : SlotRegion) (key : String) (src len : ℕ) (m : Memory) (bucket way : ℕ)
      (m' : Memory) : Type 0 where
    pub header : List ℕ
    pub encoded : encode_header digest16 key len (next_even (r.seq bucket way)) ≡ some header
    pub stamped : header_at r bucket way m' ≡ header
    pub copied :
        (i : ℕ)
        → i < len
        → ((src + len ≤ r.base + slot_offset r.geom bucket way)
            ⊎ (r.base + slot_offset r.geom bucket way + header_size ≤ src))
        → m' (r.base + slot_offset r.geom bucket way + header_size + i) ≡ m (src + i)
    pub outside :
        (a : ℕ)
        → ((a < r.base + slot_offset r.geom bucket way)
            ⊎ (r.base + slot_offset r.geom bucket way + header_size + len ≤ a))
        → m' a ≡ m a

  -- The two marks and the copy between them.
  written_by :
      (at src len : ℕ) (m : Memory) (first last : List ℕ)
      → length first ≡ header_size
      → length last ≡ header_size
      → ((i : ℕ)
          → i < len
          → ((src + len ≤ at) ⊎ (at + header_size ≤ src))
          → store at last
              (memmove (at + header_size) src len (store at first m))
              (at + header_size + i)
            ≡ m (src + i))
        × ((a : ℕ)
            → ((a < at) ⊎ (at + header_size + len ≤ a))
            → store at last (memmove (at + header_size) src len (store at first m)) a ≡ m a)
  written_by at src len m first last f l = (
    (λ i lt apart.
        let m1 = store at first m in
        let m2 = memmove (at + header_size) src len m1 in
        store_outside at last (at + header_size + i) m2 (inr (omega (arith, l)))
        ∙ memmove_at (at + header_size) src len i m1 lt
        ∙ store_outside at first (src + i) m (ground (arith, f))),
    λ a apart.
        let m1 = store at first m in
        let m2 = memmove (at + header_size) src len m1 in
        store_outside at last a m2 (ground (arith, l))
        ∙ memmove_outside (at + header_size) src len a m1 (ground arith)
        ∙ store_outside at first a m (ground (arith, f)),
  )

  module _ (r : SlotRegion) (key : String) (src len : ℕ) (m : Memory) (bucket way : ℕ) where
    -- `write_slot` raises only where a field of a header does not fit.
    pub write_slot_lem :
        (first last : List ℕ)
        → encode_header digest16 key len (odd_of (next_even (r.seq bucket way))) ≡ some first
        → encode_header digest16 key len (next_even (r.seq bucket way)) ≡ some last
        → (m' : Memory) × (write_slot digest16 digest8 r key src len m bucket way
            ≡ some (
              some (slot_offset r.geom bucket way),
              set_seq bucket way (next_even (r.seq bucket way)) r,
              m',
            ))
          × Wrote r key src len m bucket way m'
    unfolding write_slot mark_seq header_at
    write_slot_lem first last f l =
        let at = r.base + slot_offset r.geom bucket way in
        let seq = next_even (r.seq bucket way) in
        let first_size = (decode-encode digest16 key len (odd_of seq) first f).0 in
        let last_size = (decode-encode digest16 key len seq last l).0 in
        let (in_slot, elsewhere) = written_by at src len m first last first_size last_size in
        (
          store at last (memmove (at + header_size) src len (store at first m)),
          rw (f, l) refl,
          record {
            header = last;
            encoded = l;
            stamped = string_at-store at header_size last _ last_size;
            copied = in_slot;
            outside = elsewhere;
          },
        )
