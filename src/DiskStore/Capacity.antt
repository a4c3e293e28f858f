-- ===== src/DiskStore/Capacity.antt =====
-- The index, its size in bytes and the bound on it, through a write.
use peer_cache.Base.{
  ℕ, ◌≤◌, ◌≡◌, refl, sym, ap, subst, ◌∙◌, inl, inr, arith, String, none, false, List, [], ◌∷◌, ◌++◌,
  length, ltb, leb, eq_string, Bool-cases, Option-cases,
}
use peer_cache.Base.Dict
use peer_cache.Base.Dict.{
  Dict, Unique, total, total-append_one, total-move_to_end, total-put_new, total-remove, Unique-put,
  Unique-move_to_end, Unique-remove, move_to_end-new, Unique-append_one, has-remove, get-append_one,
}
use peer_cache.DiskStore.{
  IndexFile, listing, DiskStore, Io, Written, drop_oldest, enforce, enter, flush_due, write_index,
  flush_index, safe_name,
}

abbrev pub bytes_of : Dict String (String × ℕ) → ℕ
bytes_of = total (λ k entry. entry.1)

pub record Accounted (d : DiskStore) : Type 0 where
  pub unique : Unique d.index
  pub accounted : d.used ≡ bytes_of d.index

-- The newest page is at most as large as the bound.
abbrev LastFits : ℕ → Dict String (String × ℕ) → Type 0
LastFits max [] = Unit
LastFits max (e ∷ []) = e.1.1 ≤ max
LastFits max (_ ∷ next ∷ rest) = LastFits max (next ∷ rest)

-- What the loop that enforces the bound does not change.
pub record Same (d r : DiskStore) : Type 0 where
  pub inflight : r.inflight ≡ d.inflight
  pub queue : r.queue ≡ d.queue
  pub bound : r.max_bytes ≡ d.max_bytes

pub record Enforced (d r : DiskStore) : Type 0 where
  pub counted : Accounted r
  pub bounded : r.used ≤ r.max_bytes
  pub same : Same d r
  pub fewer : (k : String) → Dict.has k d.index ≡ false → Dict.has k r.index ≡ false

has_tail :
    (k j : String) (v : String × ℕ) (rest : Dict String (String × ℕ))
    → Dict.has k ((j, v) ∷ rest) ≡ false
    → Dict.has k rest ≡ false
unfolding Dict.has Dict.get
has_tail k j v rest h = ground arith

enforce-Enforced :
    (io : Io) (es : Dict String (String × ℕ)) (d : DiskStore) (evicted : List String)
    → d.index ≡ es
    → Accounted d
    → LastFits d.max_bytes es
    → Enforced d (enforce io es d evicted).disk
unfolding enforce drop_oldest
enforce-Enforced io [] d evicted e c f = record {
  counted = c;
  bounded = omega (arith, c.accounted, ap bytes_of e);
  same = record { inflight = refl; queue = refl; bound = refl };
  fewer = λ k h. h;
}
enforce-Enforced io (x ∷ []) d evicted e c f = record {
  counted = c;
  bounded = omega (arith, c.accounted, ap bytes_of e);
  same = record { inflight = refl; queue = refl; bound = refl };
  fewer = λ k h. h;
}
enforce-Enforced io ((old_key, entry) ∷ next ∷ rest) d evicted e c f =
    elim (Bool-cases (ltb d.max_bytes d.used)) [
      | inr under ↦ rw under (record {
        counted = c;
        bounded = ground arith;
        same = record { inflight = refl; queue = refl; bound = refl };
        fewer = λ k h. h;
      })
      | inl over ↦
          let u : Unique ((old_key, entry) ∷ next ∷ rest) = subst Unique e c.unique in
          let d' = drop_oldest io entry (next ∷ rest) d in
          let less : d'.used ≡ bytes_of (next ∷ rest) = omega (arith, c.accounted, ap bytes_of e) in
          let r =
            enforce-Enforced io (next ∷ rest) d' (evicted ++ old_key ∷ []) refl
              (record { unique = u.1; accounted = less }) f in
          rw over (record {
            counted = r.counted;
            bounded = r.bounded;
            same = record {
              inflight = r.same.inflight;
              queue = r.same.queue;
              bound = r.same.bound;
            };
            fewer = λ k h.
                r.fewer k (has_tail k old_key entry (next ∷ rest) (ap (Dict.has k) (sym e) ∙ h));
          })
    ]

pub get_of_has :
    (k : String) (d : Dict String (String × ℕ)) → Dict.has k d ≡ false → Dict.get k d ≡ none
unfolding Dict.has
get_of_has k d h = elim (Option-cases (Dict.get k d)) [
  | inl missing ↦ missing
  | inr (v, found) ↦ absurd (ground (arith, found))
]

LastFits-append :
    (max : ℕ) (key name : String) (len : ℕ) (es : Dict String (String × ℕ))
    → len ≤ max
    → LastFits max (es ++ (key, (name, len)) ∷ [])
LastFits-append max key name len [] h = h
LastFits-append max key name len (e ∷ []) h = h
LastFits-append max key name len (e ∷ next ∷ rest) h =
    LastFits-append max key name len (next ∷ rest) h

flush_due-Enforced :
    (io : Io) (d : DiskStore) (w : Written) → Enforced d w.disk → Enforced d (flush_due io w).disk
unfolding flush_due flush_index
flush_due-Enforced io d w r = elim (Bool-cases (leb 256 w.disk.writes_since_flush)) [
  | inr early ↦ rw early r
  | inl due ↦ elim (Bool-cases io.flushes) [
    | inl flushed ↦ rw (due, flushed) (kept (listing w.disk.index) r)
    | inr failed ↦ rw (due, failed) (kept w.disk.index_file r)
  ]
]
  where
    kept :
        (f : IndexFile)
        → Enforced d w.disk
        → Enforced d (record w.disk { writes_since_flush = 0; index_file = f })
    kept f r = record {
      counted = record { unique = r.counted.unique; accounted = r.counted.accounted };
      bounded = r.bounded;
      same = record { inflight = r.same.inflight; queue = r.same.queue; bound = r.same.bound };
      fewer = r.fewer;
    }

-- A page that is not in the index and at most as large as the bound is entered within it.
pub write_index-Enforced :
    (sha1 : String → String) (utf8 : String → List ℕ) (io : Io) (key : String) (page : List ℕ)
    (d : DiskStore)
    → Accounted d
    → Dict.has key d.index ≡ false
    → length page ≤ d.max_bytes
    → Enforced
        (enter key (safe_name sha1 utf8 key) (length page) d)
        (write_index sha1 utf8 io key page d).disk
unfolding write_index enter
write_index-Enforced sha1 utf8 io key page d c new small =
    let name = safe_name sha1 utf8 key in
    let d' = enter key name (length page) d in
    let missing = get_of_has key d.index new in
    let e : d'.index ≡ d.index ++ (key, (name, length page)) ∷ [] =
      move_to_end-new key (name, length page) d.index missing in
    let counted : Accounted d' = record {
      unique =
          subst Unique (sym e) (Unique-append_one key (name, length page) d.index missing c.unique);
      accounted = rw new (
          omega (
            arith,
            c.accounted,
            ap bytes_of e,
            total-append_one (λ k entry. entry.1) key (name, length page) d.index,
          ));
    } in
    flush_due-Enforced io d' (enforce io d'.index d' []) (
      enforce-Enforced io d'.index d' [] refl counted (
        subst (LastFits d.max_bytes) (sym e)
          (LastFits-append d.max_bytes key name (length page) d.index small)))
