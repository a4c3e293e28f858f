-- ===== src/Store/Slots/RoundTrip.antt =====
-- A page that is written to a remote slot is read back from it, in python/peercache/store.py.
use native.Mathlib.Nat.{mul-le-mul_right, add-mul}
use peer_cache.Base.{
  ℕ, ◌+◌, ◌*◌, ◌%◌, ◌≤◌, ◌<◌, ◌≡◌, inl, inr, refl, sym, ap, ◌∙◌, of_some, arith, String, Option,
  none, some, Bool, true, false, List, [], ◌∷◌, ◌++◌, length, if◌then◌else◌, ◌>>=◌, ◌==◌, ==_refl,
  eq_string, eq_ℕ, Bool-cases, append-nil, take,
}
use peer_cache.Base.Memory.{
  Memory, store, string_at, string_at_same, string_at-store, store_outside,
}
use peer_cache.Base.Bytes.{take-append}
use peer_cache.Base.Ranges.{store-append, length-string_at}
use peer_cache.Directory.{Link, up}
use peer_cache.SlotMap.{
  header_size, Header, slot_offset, bucket_index, slot_matches, header_matches, decode_header,
  encode_header, pick_way_from_bucket,
}
use peer_cache.SlotMap.Choice.{holds, pick-MayTake, pick-seq}
use peer_cache.SlotMap.Gate.{decode-encode, matches-encode}
use peer_cache.SlotMap.Layout.{IsLaidOut}
use peer_cache.Store.Slots.Shared.{
  World, Remote, bucket_addr, read_bucket, read_buckets, slot_header,
}
use peer_cache.Store.Slots.Publish.{
  Write, land, batch_write, pick, pack_slot, write_of, plan_writes, publish_slotmap_remote,
  fold_claims, snapshot,
}
use peer_cache.Store.Slots.Fetch.{scan_bucket, take_bucket}
use peer_cache.Store.Slots.Fetch.Clean.{slot_header-read, slot_payload-read, scan_bucket-first}

not_raised : {A : Type 0} {x : A} → none ≡ some x → ⊥
not_raised h = cc

string_at-front :
    (a n : ℕ) (xs ys : List ℕ) (m : Memory)
    → length xs ≡ n
    → string_at a n (store a (xs ++ ys) m) ≡ xs
string_at-front a n xs ys m size =
    ap (string_at a n) (store-append a xs ys m)
    ∙ string_at_same a n (store (a + length xs) ys (store a xs m)) (store a xs m)
        (λ b lo hi. store_outside (a + length xs) ys b (store a xs m) (inl (omega (arith, size))))
    ∙ string_at-store a n xs m size

string_at-back :
    (a n k : ℕ) (xs ys : List ℕ) (m : Memory)
    → length xs ≡ n
    → length ys ≡ k
    → string_at (a + n) k (store a (xs ++ ys) m) ≡ ys
string_at-back a n k xs ys m front back =
    ap (string_at (a + n) k) (store-append a xs ys m)
    ∙ ap (λ t. string_at (a + n) k (store (a + t) ys (store a xs m))) front
    ∙ string_at-store (a + n) k ys (store a xs m) back

matches-holds :
    (digest16 : String → List ℕ) (key : String) (n : ℕ) (o : Option Header)
    → header_matches digest16 key n o ≡ true
    → holds digest16 key o ≡ true
unfolding header_matches
matches-holds digest16 key n none h = absurd (cc)
matches-holds digest16 key n (some hd) h = ground arith

earlier-way : (u way stride : ℕ) → u < way → u * stride + stride ≤ way * stride
earlier-way u way stride lt =
    let next : (u + 1) * stride ≤ way * stride = mul-le-mul_right stride (omega arith) in
    omega (arith, next, add-mul u 1 stride)

module _ (digest16 digest8 : String → List ℕ) (r : Remote) (world : World)
    (v : IsLaidOut r.layout.geom) (some_way : 0 < r.layout.geom.ways) where
  abbrev pub bucket_read : List ℕ
  bucket_read =
      string_at (bucket_addr digest8 r) r.layout.geom.bucket_stride (world r.layout.endpoint)

  abbrev pub picked : ℕ × ℕ
  picked = pick_way_from_bucket digest16 bucket_read r.layout.geom r.page.key

  abbrev pub slot_addr : ℕ
  slot_addr =
      r.layout.base_addr
      + slot_offset r.layout.geom (bucket_index digest8 r.layout.geom r.page.key) picked.0

  -- At most one way of the bucket holds the key.
  abbrev pub OnePlace : Type 0
  OnePlace =
      (u w : ℕ)
      → u < r.layout.geom.ways
      → w < r.layout.geom.ways
      → holds digest16 r.page.key (decode_header (slot_header r.layout.geom u bucket_read)) ≡ true
      → holds digest16 r.page.key (decode_header (slot_header r.layout.geom w bucket_read)) ≡ true
      → u ≡ w

  at-slot : bucket_addr digest8 r + picked.0 * r.layout.geom.slot_stride ≡ slot_addr
  unfolding bucket_addr slot_offset
  at-slot = omega arith

  picked-even : picked.1 % 2 ≡ 0
  picked-even =
      let (least, way, lt, at, all, e) =
        pick-seq digest16 r.page.key bucket_read r.layout.geom some_way in
      omega (arith, e)

  module _ (hdr : List ℕ) (made : encode_header digest16 r.page.key r.page.size picked.1 ≡ some hdr)
      (rest : List ℕ) (dst : ℕ) (m' : Memory) (small : r.page.size ≤ r.layout.geom.max_payload)
      (once : OnePlace) where
    -- The slot's owner after the header and the first bytes of the payload have landed.
    abbrev landed : World
    landed ep =
        if ep == r.layout.endpoint then store slot_addr (hdr ++ rest) (world ep) else world ep

    -- Another node's read of the page, into `dst`.
    abbrev reader : Remote
    reader = record {
      page = record { key = r.page.key; ptr = dst; size = r.page.size };
      owner = r.owner;
      layout = r.layout;
    }

    landed-there :
        landed r.layout.endpoint ≡ store slot_addr (hdr ++ rest) (world r.layout.endpoint)
    landed-there =
        ap
          (λ b.
            if b
            then store slot_addr (hdr ++ rest) (world r.layout.endpoint)
            else world r.layout.endpoint)
          (==_refl r.layout.endpoint)

    abbrev after : Memory
    after = store slot_addr (hdr ++ rest) (world r.layout.endpoint)

    abbrev bucket_after : List ℕ
    bucket_after = string_at (bucket_addr digest8 r) r.layout.geom.bucket_stride after

    picked-lt : picked.0 < r.layout.geom.ways
    picked-lt = (pick-MayTake digest16 r.page.key bucket_read r.layout.geom some_way).0

    stamped :
        slot_matches digest16
          (slot_header r.layout.geom picked.0 bucket_after)
          r.page.key
          r.page.size
        ≡ true
    stamped =
        let size = (decode-encode digest16 r.page.key r.page.size picked.1 hdr made).0 in
        ap (λ h. slot_matches digest16 h r.page.key r.page.size)
          (slot_header-read r.layout.geom (bucket_addr digest8 r) after v picked.0 picked-lt
            ∙ ap (λ a. string_at a header_size after) at-slot
            ∙ string_at-front slot_addr header_size hdr rest (world r.layout.endpoint) size)
        ∙ (matches-encode digest16 r.page.key r.page.key r.page.size picked.1 r.page.size hdr
              made).1
            (picked-even, refl, refl)

    -- The headers of the ways in front of the slot are as they were.
    header-kept :
        (u : ℕ)
        → u < picked.0
        → slot_header r.layout.geom u bucket_after ≡ slot_header r.layout.geom u bucket_read
    header-kept u lt =
        let g = r.layout.geom in
        let addr = bucket_addr digest8 r in
        let front = earlier-way u picked.0 g.slot_stride lt in
        let in_front : addr + u * g.slot_stride + header_size ≤ slot_addr =
          omega (arith, front, v.room, at-slot) in
        slot_header-read g addr after v u (omega (arith, picked-lt))
        ∙ string_at_same (addr + u * g.slot_stride) header_size after (world r.layout.endpoint)
            (λ a lo hi.
              store_outside slot_addr (hdr ++ rest) a (world r.layout.endpoint)
                (inl (omega (arith, in_front))))
        ∙ sym (slot_header-read g addr (world r.layout.endpoint) v u (omega (arith, picked-lt)))

    not_held :
        (u : ℕ)
        → u < picked.0
        → holds digest16 r.page.key (decode_header (slot_header r.layout.geom u bucket_read)) ≡ true
        → ⊥
    unfolding slot_header
    not_held u lt held =
        elim (pick-MayTake digest16 r.page.key bucket_read r.layout.geom some_way).1 [
          | inl own ↦
              omega (arith, once u picked.0 (omega (arith, lt, picked-lt)) picked-lt held own, lt)
          | inr (nowhere, _) ↦ held_nowhere (nowhere u (omega (arith, lt, picked-lt))) held
        ]
      where
        held_nowhere : {b : Bool} → b ≡ false → b ≡ true → ⊥
        held_nowhere none_there there = absurd (cc (none_there, there))

    none_before :
        (u : ℕ)
        → 0 ≤ u
        → u < picked.0
        → slot_matches digest16 (slot_header r.layout.geom u bucket_after) r.page.key r.page.size
          ≡ false
    unfolding slot_matches
    none_before u le lt =
        elim (Bool-cases (
          slot_matches digest16 (slot_header r.layout.geom u bucket_after) r.page.key
            r.page.size)) [
              | inr miss ↦ miss
              | inl dirty ↦
                  let old =
                    ap (λ h. slot_matches digest16 h r.page.key r.page.size)
                      (sym (header-kept u lt))
                    ∙ dirty in
                  absurd (
                    not_held u lt (
                      matches-holds digest16 r.page.key r.page.size
                        (decode_header (slot_header r.layout.geom u bucket_read)) old))
            ]

    fetch_landed :
        take_bucket digest16 digest8 reader (read_bucket digest8 up landed reader) m'
        ≡ (true, store dst (string_at (slot_addr + header_size) r.page.size after) m')
    unfolding take_bucket read_bucket bucket_addr
    fetch_landed =
        let g = r.layout.geom in
        let addr = bucket_addr digest8 r in
        ap
          (λ M.
            scan_bucket digest16 digest8 g reader.page (string_at addr g.bucket_stride M) 0 g.ways
              m')
          landed-there
        ∙ scan_bucket-first digest16 digest8 g reader.page bucket_after m' 0 g.ways picked.0
            (omega arith) (omega (arith, picked-lt)) stamped none_before
        ∙ ap (λ bytes. (true, store dst bytes m'))
            (slot_payload-read g addr after v picked.0 picked-lt r.page.size small
              ∙ ap (λ a. string_at a r.page.size after) (omega (arith, at-slot)))

  plan_one :
      (m : Memory)
      → plan_writes digest16 digest8 m [] (r ∷ []) (some bucket_read ∷ []) ≡ (
          encode_header digest16 r.page.key r.page.size picked.1 >>= λ hdr.
          (encode_header digest16 r.page.key r.page.size picked.1 >>= λ h.
          some (h ++ string_at r.page.ptr r.page.size m))
          >>= λ bytes. some (write_of digest16 digest8 r picked.0 bytes ∷ []))
  unfolding plan_writes pick fold_claims snapshot pack_slot
  plan_one m = refl

  -- One batch of one page, whose bucket is read.
  pub publish_one :
      (reads writes : ℕ → Link) (m : Memory) (o : Option (List ℕ))
      → reads 0 ≡ up
      → encode_header digest16 r.page.key r.page.size picked.1 ≡ o
      → publish_slotmap_remote digest16 digest8 reads writes m (r ∷ []) world ≡ (
          o >>= λ hdr. some (
            batch_write writes 0
              (write_of digest16 digest8 r picked.0 (hdr ++ string_at r.page.ptr r.page.size m)
                ∷ [])
              world))
  unfolding publish_slotmap_remote read_buckets read_bucket
  publish_one reads writes m o served made =
      let finish : Option (List Write) → Option (List Bool × World) =
        λ plan. plan >>= λ ws. some (batch_write writes 0 ws world) in
      let plan_of : Option (List ℕ) → Option (List Write) = λ o. o >>= λ hdr.
      (o >>= λ h. some (h ++ string_at r.page.ptr r.page.size m)) >>= λ bytes.
      some (write_of digest16 digest8 r picked.0 bytes ∷ []) in
      ap
        (λ l.
          finish (plan_writes digest16 digest8 m [] (r ∷ []) (read_bucket digest8 l world r ∷ [])))
        served
      ∙ ap finish (plan_one m)
      ∙ ap (λ o. finish (plan_of o)) made
      ∙ at_header o
    where
      at_header :
          (o : Option (List ℕ))
          → ((o >>= λ hdr. (o >>= λ h. some (h ++ string_at r.page.ptr r.page.size m)) >>= λ bytes.
                some (write_of digest16 digest8 r picked.0 bytes ∷ []))
              >>= λ ws. some (batch_write writes 0 ws world))
            ≡ (o >>= λ hdr. some (
                batch_write writes 0
                  (write_of digest16 digest8 r picked.0 (hdr ++ string_at r.page.ptr r.page.size m)
                    ∷ [])
                  world))
      at_header none = refl
      at_header (some hdr) = refl

  -- A page that fits is written to a bucket of another node and read by a third. Where the READ of
  -- the bucket and the WRITE are served, no other write comes between, and at most one way held the
  -- key, a batch of this page that raises no exception reports success, and a read of the page from
  -- the same bucket, of the same length and into any memory, then succeeds with the page's bytes.
  pub publish-fetch :
      (reads writes : ℕ → Link) (m m' : Memory) (dst : ℕ) (oks : List Bool) (world' : World)
      → reads 0 ≡ up
      → writes 0 ≡ up
      → r.page.size ≤ r.layout.geom.max_payload
      → OnePlace
      → publish_slotmap_remote digest16 digest8 reads writes m (r ∷ []) world ≡ some (oks, world')
      → (oks ≡ true ∷ [])
        × (take_bucket digest16 digest8
              (record r { page = record r.page { ptr = dst } })
              (read_bucket digest8 up world' (record r { page = record r.page { ptr = dst } }))
              m'
            ≡ (true, store dst (string_at r.page.ptr r.page.size m) m'))
  unfolding land write_of batch_write
  publish-fetch reads writes m m' dst oks world' read_up write_up small once done =
      by_header (encode_header digest16 r.page.key r.page.size picked.1) refl
    where
      by_header :
          (o : Option (List ℕ))
          → encode_header digest16 r.page.key r.page.size picked.1 ≡ o
          → (oks ≡ true ∷ [])
            × (take_bucket digest16 digest8
                  (record r { page = record r.page { ptr = dst } })
                  (read_bucket digest8 up world' (record r { page = record r.page { ptr = dst } }))
                  m'
                ≡ (true, store dst (string_at r.page.ptr r.page.size m) m'))
      by_header none made =
          absurd (not_raised (sym (publish_one reads writes m none read_up made) ∙ done))
      by_header (some hdr) made =
          let page = string_at r.page.ptr r.page.size m in
          let w = write_of digest16 digest8 r picked.0 (hdr ++ page) in
          let size = (decode-encode digest16 r.page.key r.page.size picked.1 hdr made).0 in
          let outcome : Link → Option (List Bool × World) =
            λ l. some ((land l w world).0 ∷ [], (land l w world).1) in
          let answer = of_some (
            ap outcome (sym write_up)
            ∙ sym (publish_one reads writes m (some hdr) read_up made)
            ∙ done) in
          (
            sym (ap (λ t. t.0) answer),
            ap
                  (λ after.
                    take_bucket digest16 digest8 (record r { page = record r.page { ptr = dst } })
                      (read_bucket digest8 up after
                        (record r { page = record r.page { ptr = dst } }))
                      m')
                  (sym (ap (λ t. t.1) answer))
                ∙ fetch_landed hdr made page dst m' small once
                ∙ ap (λ bytes. (true, store dst bytes m'))
                    (string_at-back slot_addr header_size r.page.size hdr page
                      (world r.layout.endpoint) size (length-string_at r.page.ptr r.page.size m)),
          )

  -- A header alone in the slot.
  header_landed :
      (hdr : List ℕ)
      → encode_header digest16 r.page.key r.page.size picked.1 ≡ some hdr
      → r.page.size ≤ r.layout.geom.max_payload
      → OnePlace
      → (dst : ℕ) (m' : Memory)
      → take_bucket digest16 digest8
          (record r { page = record r.page { ptr = dst } })
          (read_bucket digest8 up
            (λ ep. if ep == r.layout.endpoint then store slot_addr hdr (world ep) else world ep)
            (record r { page = record r.page { ptr = dst } }))
          m'
        ≡ (
          true,
          store dst (string_at (slot_addr + header_size) r.page.size (world r.layout.endpoint)) m',
        )
  header_landed hdr made small once dst m' =
      let there = world r.layout.endpoint in
      let size = (decode-encode digest16 r.page.key r.page.size picked.1 hdr made).0 in
      let half : List ℕ → Bool × Memory = λ bs.
        take_bucket digest16 digest8 (record r { page = record r.page { ptr = dst } })
          (read_bucket digest8 up
            (λ ep. if ep == r.layout.endpoint then store slot_addr bs (world ep) else world ep)
            (record r { page = record r.page { ptr = dst } }))
          m' in
      ap half (sym (append-nil hdr))
      ∙ fetch_landed hdr made [] dst m' small once
      ∙ ap
          (λ bs. (
            true,
            store dst (string_at (slot_addr + header_size) r.page.size (store slot_addr bs there))
                m',
          ))
          (append-nil hdr)
      ∙ ap (λ bytes. (true, store dst bytes m'))
          (string_at_same (slot_addr + header_size) r.page.size (store slot_addr hdr there) there
            (λ a lo hi. store_outside slot_addr hdr a there (inr (omega (arith, size)))))

  pack_slot-header :
      (m : Memory) (bs : List ℕ)
      → pack_slot digest16 digest8 r.page.key r.page.ptr r.page.size picked.1 m ≡ some bs
      → (hdr : List ℕ) × (encode_header digest16 r.page.key r.page.size picked.1 ≡ some hdr)
        × (take header_size bs ≡ hdr)
  unfolding pack_slot
  pack_slot-header m bs = on (encode_header digest16 r.page.key r.page.size picked.1) refl
    where
      page : List ℕ
      page = string_at r.page.ptr r.page.size m

      on :
          (o : Option (List ℕ))
          → encode_header digest16 r.page.key r.page.size picked.1 ≡ o
          → (o >>= λ hdr. some (hdr ++ page)) ≡ some bs
          → (hdr : List ℕ) × (encode_header digest16 r.page.key r.page.size picked.1 ≡ some hdr)
            × (take header_size bs ≡ hdr)
      on none made e = absurd (not_raised e)
      on (some hdr) made e =
          let size = (decode-encode digest16 r.page.key r.page.size picked.1 hdr made).0 in
          (
            hdr,
            made,
            ap (take header_size) (sym (of_some e)) ∙ take-append header_size hdr page size,
          )

  -- The bytes that `_pack_slot` returns for a page that fits are WRITten to the slot that is chosen
  -- in a bucket where at most one way holds the key. While as many of them have landed as a header
  -- has, and nothing else, a read of the page by another node succeeds, with the bytes that were
  -- behind the header of the slot before, whatever the page's own bytes are.
  pub half_landed :
      (m : Memory) (bs : List ℕ)
      → pack_slot digest16 digest8 r.page.key r.page.ptr r.page.size picked.1 m ≡ some bs
      → r.page.size ≤ r.layout.geom.max_payload
      → OnePlace
      → (dst : ℕ) (m' : Memory)
      → take_bucket digest16 digest8
          (record r { page = record r.page { ptr = dst } })
          (read_bucket digest8 up
            (λ ep.
              if ep == r.layout.endpoint
              then store slot_addr (take header_size bs) (world ep)
              else world ep)
            (record r { page = record r.page { ptr = dst } }))
          m'
        ≡ (
          true,
          store dst (string_at (slot_addr + header_size) r.page.size (world r.layout.endpoint)) m',
        )
  half_landed m bs packed small once dst m' =
      let (hdr, made, front) = pack_slot-header m bs packed in
      ap
        (λ part.
          take_bucket digest16 digest8 (record r { page = record r.page { ptr = dst } })
            (read_bucket digest8 up
              (λ ep. if ep == r.layout.endpoint then store slot_addr part (world ep) else world ep)
              (record r { page = record r.page { ptr = dst } }))
            m')
        front
      ∙ header_landed hdr made small once dst m'
