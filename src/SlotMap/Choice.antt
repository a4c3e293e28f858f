-- ===== src/SlotMap/Choice.antt =====
-- Which way and which seq `pick_way_from_bucket` gives a remote writer.
use peer_cache.Base.{
  ℕ, zero, suc, ◌+◌, ◌-◌, ◌*◌, ◌%◌, ◌<◌, ◌≤◌, ◌≡◌, ◌⊎◌, refl, sym, ap, subst, ◌∙◌, inl, inr, arith,
  String, Option, none, some, Bool, true, false, not, List, take, drop, ltb, ◌==◌, eq_ℕ, ==_iff,
  ◌&&◌, if◌then◌else◌, Bool-cases,
}
use peer_cache.SlotMap.{
  header_size, Header, SlotGeometry, decode_header, key_hash128, Scan, first_empty, older,
  empty_here, held_here, scan_way, scan_ways, choose, next_seq, pick_way_from_bucket,
}

-- The seq that the loop counts for a way: 0 where the header is not valid.
abbrev pub seq_of : Option Header → ℕ
seq_of none = 0
seq_of (some h) = if not h.valid then 0 else h.seq

abbrev pub is_empty : Option Header → Bool
is_empty none = true
is_empty (some h) = not h.valid

-- A way below `k` that satisfies the test, or none where no such way does.
abbrev pub Has : (ℕ → Bool) → ℕ → Option ℕ → Type 0
Has p k none = (u : ℕ) → u < k → p u ≡ false
Has p k (some w) = (w < k) × (p w ≡ true)

-- A way below `k` of the least seq, where there is one.
abbrev pub Least : (ℕ → ℕ) → ℕ → ℕ → Option ℕ → Type 0
Least f k way none = k ≡ 0
Least f k way (some q) = (way < k) × (f way ≡ q) × ((u : ℕ) → u < k → q ≤ f u)

Has-last :
    (p : ℕ → Bool) (k : ℕ) (c : Option ℕ) → Has p k c → Has p (k + 1) (if p k then some k else c)
Has-last p k c h = elim (Bool-cases (p k)) [
  | inl sat ↦ rw sat (omega arith, sat)
  | inr unsat ↦ rw unsat (kept c h unsat)
]
  where
    kept : (c : Option ℕ) → Has p k c → p k ≡ false → Has p (k + 1) c
    kept (some w) h unsat = (omega (arith, h.0), h.1)
    kept none h unsat = λ u lt. elim (Bool-cases (u == k)) [
      | inl here ↦ ap p ((==_iff u k).0 here) ∙ unsat
      | inr there ↦ h u (ground arith)
    ]

Has-first :
    (p : ℕ → Bool) (k : ℕ) (c : Option ℕ)
    → Has p k c
    → Has p (k + 1) (if p k then first_empty k c else c)
unfolding first_empty
Has-first p k (some w) h = elim (Bool-cases (p k)) [
  | inl sat ↦ rw sat (omega (arith, h.0), h.1)
  | inr unsat ↦ rw unsat (omega (arith, h.0), h.1)
]
Has-first p k none h = elim (Bool-cases (p k)) [
  | inl sat ↦ rw sat (omega arith, sat)
  | inr unsat ↦ rw unsat (λ u lt. elim (Bool-cases (u == k)) [
    | inl here ↦ ap p ((==_iff u k).0 here) ∙ unsat
    | inr there ↦ h u (ground arith)
  ])
]

older-chosen : (way q : ℕ) (s : Scan) (o : Option ℕ) → (older way q s o).chosen ≡ s.chosen
unfolding older
older-chosen way q s none = refl
older-chosen way q s (some x) = ground arith

older-empty_way : (way q : ℕ) (s : Scan) (o : Option ℕ) → (older way q s o).empty_way ≡ s.empty_way
unfolding older
older-empty_way way q s none = refl
older-empty_way way q s (some x) = ground arith

Least-older :
    (f : ℕ → ℕ) (k : ℕ) (s : Scan) (o : Option ℕ)
    → o ≡ s.oldest_seq
    → Least f k s.oldest_way o
    → Least f (k + 1) (older k (f k) s o).oldest_way (older k (f k) s o).oldest_seq
unfolding older
Least-older f k s none e h =
    (omega arith, refl, λ u lt. let same : u ≡ k = omega (arith, h) in omega (arith, ap f same))
Least-older f k s (some q) e h = elim (Bool-cases (ltb (f k) q)) [
  | inl less ↦ rw less (
    omega arith,
    refl,
    λ u lt. elim (Bool-cases (u == k)) [
      | inl here ↦ omega (arith, ap f ((==_iff u k).0 here))
      | inr there ↦ ground (arith, h.2 u)
    ],
  )
  | inr more ↦ rw more (
      subst (Least f (k + 1) s.oldest_way) e (
        omega (arith, h.0),
        h.1,
        λ u lt. elim (Bool-cases (u == k)) [
          | inl here ↦ ground (arith, ap f ((==_iff u k).0 here))
          | inr there ↦ ground (arith, h.2 u)
        ],
      ))
]

module _ (digest16 : String → List ℕ) (key : String) where
  abbrev pub holds : Option Header → Bool
  holds none = false
  holds (some h) =
      h.valid
      && (h.key_hi == (key_hash128 digest16 key).0 && h.key_lo == (key_hash128 digest16 key).1)

  scan-chosen :
      (k : ℕ) (o : Option Header) (s : Scan)
      → (scan_way digest16 key k o s).chosen ≡ (if holds o then some k else s.chosen)
  unfolding scan_way empty_here held_here
  scan-chosen k none s = older-chosen k 0 _ s.oldest_seq
  scan-chosen k (some h) s = elim (Bool-cases h.valid) [
    | inl valid ↦ rw valid (older-chosen k h.seq _ s.oldest_seq)
    | inr invalid ↦ rw invalid (older-chosen k 0 _ s.oldest_seq)
  ]

  scan-empty_way :
      (k : ℕ) (o : Option Header) (s : Scan)
      → (scan_way digest16 key k o s).empty_way
        ≡ (if is_empty o then first_empty k s.empty_way else s.empty_way)
  unfolding scan_way empty_here held_here
  scan-empty_way k none s = older-empty_way k 0 _ s.oldest_seq
  scan-empty_way k (some h) s = elim (Bool-cases h.valid) [
    | inl valid ↦ rw valid (older-empty_way k h.seq _ s.oldest_seq)
    | inr invalid ↦ rw invalid (older-empty_way k 0 _ s.oldest_seq)
  ]

  module _ (hdr : ℕ → Option Header) where
    abbrev holds_at : ℕ → Bool
    holds_at u = holds (hdr u)

    abbrev empty_at : ℕ → Bool
    empty_at u = is_empty (hdr u)

    abbrev seq_at : ℕ → ℕ
    seq_at u = seq_of (hdr u)

    -- What the loop knows after the ways below `k`.
    record Scanned (k : ℕ) (s : Scan) : Type 0 where
      own : Has holds_at k s.chosen
      empty : Has empty_at k s.empty_way
      least : Least seq_at k s.oldest_way s.oldest_seq

    Least-older_at :
        (k q : ℕ) (s : Scan)
        → seq_at k ≡ q
        → Least seq_at k s.oldest_way s.oldest_seq
        → Least seq_at
            (k + 1)
            (older k q s s.oldest_seq).oldest_way
            (older k q s s.oldest_seq).oldest_seq
    Least-older_at k q s e h =
        subst
          (λ t.
            Least seq_at (k + 1) (older k t s s.oldest_seq).oldest_way
              (older k t s s.oldest_seq).oldest_seq)
          e (Least-older seq_at k s s.oldest_seq refl h)

    scan-Least :
        (k : ℕ) (o : Option Header) (s : Scan)
        → hdr k ≡ o
        → Least seq_at k s.oldest_way s.oldest_seq
        → Least seq_at
            (k + 1)
            (scan_way digest16 key k o s).oldest_way
            (scan_way digest16 key k o s).oldest_seq
    unfolding scan_way empty_here held_here
    scan-Least k none s e h =
        Least-older_at k 0 (record s { empty_way = first_empty k s.empty_way }) (ap seq_of e) h
    scan-Least k (some x) s e h = elim (Bool-cases x.valid) [
      | inr invalid ↦ rw invalid (
          Least-older_at k 0 (record s { empty_way = first_empty k s.empty_way })
            (ap seq_of e ∙ rw invalid refl) h)
      | inl valid ↦
          rw valid
            (Least-older_at k x.seq (record s { chosen = _ }) (ap seq_of e ∙ rw valid refl) h)
    ]

    step-Scanned :
        (k : ℕ) (s : Scan) → Scanned k s → Scanned (k + 1) (scan_way digest16 key k (hdr k) s)
    step-Scanned k s v = record {
      own =
          subst (Has holds_at (k + 1)) (sym (scan-chosen k (hdr k) s))
            (Has-last holds_at k s.chosen v.own);
      empty =
          subst (Has empty_at (k + 1)) (sym (scan-empty_way k (hdr k) s))
            (Has-first empty_at k s.empty_way v.empty);
      least = scan-Least k (hdr k) s refl v.least;
    }

  module _ (bucket : List ℕ) (g : SlotGeometry) where
    -- The header of a way in a snapshot of the bucket.
    abbrev pub header_in : ℕ → Option Header
    header_in way = decode_header (take header_size (drop (way * g.slot_stride) bucket))

    scan_ways-Scanned :
        (k n : ℕ) (s : Scan)
        → Scanned header_in k s
        → Scanned header_in (k + n) (scan_ways digest16 bucket g key k n s)
    unfolding scan_ways
    scan_ways-Scanned k zero s v = subst (λ t. Scanned header_in t s) (omega arith) v
    scan_ways-Scanned k (suc n) s v =
        subst (λ t. Scanned header_in t (scan_ways digest16 bucket g key k (suc n) s)) (omega arith)
          (scan_ways-Scanned (k + 1) n (scan_way digest16 key k (header_in k) s)
            (step-Scanned header_in k s v))

    abbrev final : Scan
    final =
        scan_ways digest16 bucket g key 0 g.ways
          (record { chosen = none; empty_way = none; oldest_way = 0; oldest_seq = none })

    final-Scanned : Scanned header_in g.ways final
    final-Scanned =
        subst (λ t. Scanned header_in t final) (omega arith)
          (scan_ways-Scanned 0 g.ways
            (record { chosen = none; empty_way = none; oldest_way = 0; oldest_seq = none })
            (record {
              own = λ u lt. absurd (omega arith);
              empty = λ u lt. absurd (omega arith);
              least = refl;
            }))

    -- What a remote writer may do with a way of a bucket: refresh the page of the key; where no
    -- way holds the key, fill an empty way; where none is empty, displace one of the least seq.
    abbrev pub MayTake : ℕ → Type 0
    MayTake way =
        (holds (header_in way) ≡ true)
        ⊎ (((u : ℕ) → u < g.ways → holds (header_in u) ≡ false)
            × ((is_empty (header_in way) ≡ true)
                ⊎ (((u : ℕ) → u < g.ways → is_empty (header_in u) ≡ false)
                    × ((u : ℕ) → u < g.ways → seq_of (header_in way) ≤ seq_of (header_in u)))))

    pub pick-MayTake :
        0 < g.ways
        → ((pick_way_from_bucket digest16 bucket g key).0 < g.ways)
          × MayTake (pick_way_from_bucket digest16 bucket g key).0
    unfolding pick_way_from_bucket choose
    pick-MayTake pos = by_case final.chosen final.empty_way final.oldest_seq v.own v.empty v.least
      where
        v : Scanned header_in g.ways final
        v = final-Scanned

        by_case :
            (c e q : Option ℕ)
            → Has (holds_at header_in) g.ways c
            → Has (empty_at header_in) g.ways e
            → Least (seq_at header_in) g.ways final.oldest_way q
            → (choose final c e < g.ways) × MayTake (choose final c e)
        by_case (some w) e q own empty least = (own.0, inl own.1)
        by_case none (some w) q own empty least = (empty.0, inr (own, inl empty.1))
        by_case none none none own empty least = absurd (omega (arith, pos, least))
        by_case none none (some q) own empty least =
            (least.0, inr (own, inr (empty, λ u lt. omega (arith, least.1, least.2 u lt))))

    -- On a bucket of at least one way, the new seq is the least seq of the ways (0 for an empty
    -- one) plus two, less one where that is odd: the seq of the way that is chosen does not count.
    pub pick-seq :
        0 < g.ways
        → (least : ℕ) × (way : ℕ) × (way < g.ways)
          × (seq_of (header_in way) ≡ least)
          × ((u : ℕ) → u < g.ways → least ≤ seq_of (header_in u))
          × ((pick_way_from_bucket digest16 bucket g key).1 ≡ least + 2 - least % 2)
    unfolding pick_way_from_bucket next_seq
    pick-seq pos = by_case final.oldest_seq final-Scanned.least
      where
        by_case :
            (q : Option ℕ)
            → Least (seq_at header_in) g.ways final.oldest_way q
            → (least : ℕ) × (way : ℕ) × (way < g.ways)
              × (seq_of (header_in way) ≡ least)
              × ((u : ℕ) → u < g.ways → least ≤ seq_of (header_in u))
              × (next_seq q ≡ least + 2 - least % 2)
        by_case none least = absurd (omega (arith, pos, least))
        by_case (some q) least = (q, final.oldest_way, least.0, least.1, least.2, ground arith)

    -- A write to a bucket with an empty way stamps the seq 2, also where it refreshes a page.
    pick-seq_empty :
        (u : ℕ)
        → u < g.ways
        → is_empty (header_in u) ≡ true
        → (pick_way_from_bucket digest16 bucket g key).1 ≡ 2
    pick-seq_empty u lt void =
        let (least, w, below, at, all, e) = pick-seq (omega (arith, lt)) in
        let nothing : seq_of (header_in u) ≡ 0 = of_empty (header_in u) void in
        let zero_least : least ≡ 0 = omega (arith, all u lt, nothing) in
        e ∙ ap (λ q. q + 2 - q % 2) zero_least
      where
        of_empty : (o : Option Header) → is_empty o ≡ true → seq_of o ≡ 0
        of_empty none h = refl
        of_empty (some x) h = ground arith
