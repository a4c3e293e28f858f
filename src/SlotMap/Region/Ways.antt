-- ===== src/SlotMap/Region/Ways.antt =====
-- Which way of a bucket `pick_way` chooses, and which one `read_local` finds.
use peer_cache.Base.{
  ℕ, zero, suc, ◌+◌, ◌<◌, ◌≤◌, ◌≡◌, refl, sym, ap, ◌∙◌, inl, inr, arith, String, Option, none, some,
  Bool, true, false, List, ltb, ◌==◌, eq_ℕ, ==_iff, Bool-cases,
}
use peer_cache.Base.Memory.{Memory, memmove}
use peer_cache.SlotMap.{
  header_size, Header, decode_header, slot_offset, key_hash128, header_matches, slot_matches,
  first_empty,
}
use peer_cache.SlotMap.Region.{
  SlotRegion, Candidate, key_of, header_at, slot_key_hash, is_key, note_empty, note_oldest,
  fallback, pick_loop, read_ways,
}

module _ (bound : ℕ) where
  pub record Below (c : Candidate) : Type 0 where
    pub empty : (w : ℕ) → c.empty_way ≡ some w → w < bound
    pub oldest : c.oldest_way < bound

  first_empty-lt :
      (way : ℕ) (o : Option ℕ) (w : ℕ)
      → first_empty way o ≡ some w
      → way < bound
      → ((v : ℕ) → o ≡ some v → v < bound)
      → w < bound
  unfolding first_empty
  first_empty-lt way none w e lt b = ground arith
  first_empty-lt way (some v) w e lt b = b w e

  note_empty-Below :
      (way : ℕ) (kh : Option (ℕ × ℕ)) (c : Candidate)
      → way < bound
      → Below c
      → Below (note_empty way kh c)
  unfolding note_empty first_empty
  note_empty-Below way (some _) c lt b = b
  note_empty-Below way none c lt b = record {
    empty = λ w e. first_empty-lt way c.empty_way w e lt b.empty;
    oldest = b.oldest;
  }

  note_oldest-Below :
      (way s : ℕ) (c : Candidate) (o : Option ℕ)
      → way < bound
      → Below c
      → Below (note_oldest way s c o)
  unfolding note_oldest
  note_oldest-Below way s c none lt b = record { empty = b.empty; oldest = lt }
  note_oldest-Below way s c (some q) lt b = elim (Bool-cases (ltb s q)) [
    | inl less ↦ rw less (record { empty = b.empty; oldest = lt })
    | inr more ↦ rw more b
  ]

  fallback-Below : (c : Candidate) (o : Option ℕ) → o ≡ c.empty_way → Below c → fallback c o < bound
  unfolding fallback
  fallback-Below c none e b = b.oldest
  fallback-Below c (some w) e b = b.empty w (sym e)

module _ (digest16 digest8 : String → List ℕ) (r : SlotRegion) (key : String) (bucket : ℕ)
    (m : Memory) where
  -- The header of the way carries the 128-bit hash of the key.
  abbrev pub keyed : ℕ → Bool
  keyed w = is_key (key_hash128 digest16 key) (slot_key_hash r bucket w m)

  pub pick_loop-lt :
      (bound way n : ℕ) (c : Candidate)
      → way + n ≤ bound
      → Below bound c
      → pick_loop digest16 digest8 r key bucket m way n c < bound
  unfolding pick_loop
  pick_loop-lt bound way zero c le b = fallback-Below bound c c.empty_way refl b
  pick_loop-lt bound way (suc n) c le b = elim (Bool-cases (keyed way)) [
    | inl own ↦ rw own (omega arith)
    | inr other ↦
        let c' = note_empty way (slot_key_hash r bucket way m) c in
        let b' = note_empty-Below bound way (slot_key_hash r bucket way m) c (omega arith) b in
        rw other (
          pick_loop-lt bound (way + 1) n (note_oldest way (r.seq bucket way) c' c'.oldest_seq)
            (omega arith)
            (note_oldest-Below bound way (r.seq bucket way) c' c'.oldest_seq (omega arith) b'))
  ]

  -- No way before the chosen one holds the key.
  pub pick_loop-first :
      (way n : ℕ) (c : Candidate) (v : ℕ)
      → way ≤ v
      → v < way + n
      → v < pick_loop digest16 digest8 r key bucket m way n c
      → keyed v ≡ false
  unfolding pick_loop
  pick_loop-first way zero c v lo hi = λ lt. absurd (omega arith)
  pick_loop-first way (suc n) c v lo hi = elim (Bool-cases (keyed way)) [
    | inl own ↦ rw own (λ lt. absurd (omega arith))
    | inr other ↦
        let c' = note_empty way (slot_key_hash r bucket way m) c in
        rw other (λ lt. elim (Bool-cases (v == way)) [
          | inl here ↦ ap keyed ((==_iff v way).0 here) ∙ other
          | inr there ↦
              pick_loop-first (way + 1) n (note_oldest way (r.seq bucket way) c' c'.oldest_seq) v
                (ground arith) (omega arith) lt
        ])
  ]

  pub matches-keyed :
      (w n : ℕ) → slot_matches digest16 (header_at r bucket w m) key n ≡ true → keyed w ≡ true
  unfolding slot_matches slot_key_hash header_matches is_key key_of
  matches-keyed w n = on (decode_header (header_at r bucket w m))
    where
      on :
          (o : Option Header)
          → header_matches digest16 key n o ≡ true
          → is_key (key_hash128 digest16 key) (key_of o) ≡ true
      on none e = absurd (cc)
      on (some h) e = ground arith

  -- A read finds the first way that matches.
  pub read_ways_first :
      (meanwhile : Memory → Memory) (dst length way n w : ℕ)
      → way ≤ w
      → w < way + n
      → slot_matches digest16 (header_at r bucket w m) key length ≡ true
      → ((v : ℕ)
          → way ≤ v
          → v < w
          → slot_matches digest16 (header_at r bucket v m) key length ≡ false)
      → read_ways digest16 digest8 meanwhile r key bucket dst length m way n ≡ (
        true,
        memmove dst (r.base + slot_offset r.geom bucket w + header_size) length (meanwhile m),
      )
  unfolding read_ways
  read_ways_first meanwhile dst length way zero w lo hi hit before = absurd (omega arith)
  read_ways_first meanwhile dst length way (suc n) w lo hi hit before =
      elim (Bool-cases (way == w)) [
        | inl here ↦ let e = (==_iff way w).0 here in rw (e, hit) refl
        | inr there ↦ rw (before way (omega arith) (ground arith)) (
            read_ways_first meanwhile dst length (way + 1) n w (ground arith) (omega arith) hit
              (λ v le lt. before v (omega arith) lt))
      ]
