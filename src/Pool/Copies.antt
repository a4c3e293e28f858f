-- ===== src/Pool/Copies.antt =====
-- What a publication leaves in the pool and in the memory: no page comes in but the published one,
-- pages that stay keep their bytes, and nothing outside the pool is written.
use peer_cache.Base.{
  ℕ, ◌+◌, ◌-◌, ◌≤◌, ◌<◌, ◌⊎◌, ◌≢◌, String, none, some, false, ◌≡◌, refl, sym, ap, subst, ◌∙◌, inl,
  inr, arith, elem, [], ◌∷◌, ◌++◌, Option-cases, Bool-cases, eq_string, ◌==◌, ==_iff, of_some,
}
use peer_cache.Base.Memory.{Memory, memmove, memmove_outside, string_at, string_at_same}
use peer_cache.Base.Ranges.{Apart, string_at_moved}
use peer_cache.Base.Dict
use peer_cache.Base.Dict.{
  Dict, Unique, get-move_to_end, get-put, get-put_self, get-append, elem-keys, keys,
}
use peer_cache.Pool.{Pool, Allocation, allocate, publish, admit_copy, insert, touch}
use peer_cache.Pool.Eviction.{Evicts, allocate-Evicts, Evicts-missing}
use peer_cache.Pool.Free.{inside}
use peer_cache.Pool.Tiling.{IsValid, AllocatedAt, slot, allocate-Allocated}
use peer_cache.Pool.Keeps.{publish-held}
use peer_cache.Pool.Pages.{publish-address_of, publish-keeps}

-- What the back of a dict has, the front has not.
get-front :
    {V : Type 0} (k : String) (v : V) (xs ys : Dict String V)
    → Unique (xs ++ ys)
    → Dict.get k ys ≡ some v
    → Dict.get k xs ≡ none
unfolding Dict.get
get-front k v [] ys u found = refl
get-front k v ((j, w) ∷ xs) ys u found = elim (Bool-cases (j == k)) [
  | inr other ↦ rw other (get-front k v xs ys u.1 found)
  | inl same ↦
      let front = get-front k v xs ys u.1 found in
      let e : Dict.get k (xs ++ ys) ≡ none =
        ap (λ x. Dict.get x (xs ++ ys)) (sym ((==_iff j k).0 same)) ∙ u.0 in
      absurd (cc (e, get-append k xs ys, front, found))
]

Evicts-back :
    {p : Pool} {r : Allocation} (k : String) (page : ℕ × ℕ)
    → Evicts p r
    → Unique p.entries
    → Dict.get k r.pool.entries ≡ some page
    → (Dict.get k p.entries ≡ some page) × (elem k r.evicted ≡ false)
unfolding Dict.has
Evicts-back {p} {r} k page h u found =
    let front : Dict.get k h.gone ≡ none =
      get-front k page h.gone r.pool.entries (subst Unique h.split u) found in
    (
      ap (Dict.get k) h.split ∙ get-append k h.gone r.pool.entries ∙ rw front found,
      ap (elem k) h.reported ∙ elem-keys k h.gone ∙ rw (Dict.has, front) refl,
    )

get-put_other :
    (key k : String) (v : ℕ × ℕ) (d : Dict String (ℕ × ℕ))
    → key ≢ k
    → Dict.get k (Dict.put key v d) ≡ Dict.get k d
get-put_other key k v d ne = ground (arith, get-put key k v d, ==_iff key k)

out_of_slot :
    (a n base capacity off len base' x : ℕ)
    → Apart a n base capacity
    → base' ≡ base
    → (len ≡ 0) ⊎ (off + len ≤ capacity)
    → a ≤ x
    → x < a + n
    → (x < base' + off) ⊎ (base' + off + len ≤ x)
out_of_slot a n base capacity off len base' x apart same fits lo hi = ground arith

module _ (key : String) (src len : ℕ) (p : Pool) (m : Memory) where
  -- The page of another key was there before, and it was not evicted.
  pub publish-back :
      (k : String) (page : ℕ × ℕ)
      → Unique p.entries
      → key ≢ k
      → Dict.get k (publish key src len p m).pool.entries ≡ some page
      → (Dict.get k p.entries ≡ some page) × (elem k (publish key src len p m).evicted ≡ false)
  unfolding publish admit_copy touch insert
  publish-back k page u ne = elim (Option-cases (Dict.get key p.entries)) [
    | inr (own, hit) ↦ rw (hit, publish) (λ h. (sym (get-move_to_end key k p.entries) ∙ h, refl))
    | inl missing ↦ elim (Option-cases (allocate len p).offset) [
      | inl full ↦
          rw (missing, publish, full, admit_copy)
            (λ h. Evicts-back k page (allocate-Evicts len p) u h)
      | inr (off, got) ↦
          let r = allocate len p in
          rw (missing, publish, got, admit_copy)
            (λ h. Evicts-back k page (allocate-Evicts len p) u (
              sym (get-put_other key k (off, len) r.pool.entries ne)
              ∙ sym (get-move_to_end key k (Dict.put key (off, len) r.pool.entries))
              ∙ h))
    ]
  ]

  publish-lost :
      Dict.get key p.entries ≡ none
      → (publish key src len p m).addr ≡ none
      → Dict.get key (publish key src len p m).pool.entries ≡ none
  unfolding publish admit_copy
  publish-lost missing = elim (Option-cases (allocate len p).offset) [
    | inl full ↦
        rw (missing, publish, full, admit_copy)
          (λ h. Evicts-missing key (allocate-Evicts len p) missing)
    | inr (off, got) ↦ rw (missing, publish, got, admit_copy) (λ h. absurd (cc))
  ]

  -- The bytes of the page that was published: a key that was not in the pool, and is now.
  pub publish-copied :
      (page : ℕ × ℕ)
      → Dict.get key p.entries ≡ none
      → Dict.get key (publish key src len p m).pool.entries ≡ some page
      → string_at
          ((publish key src len p m).pool.base + page.0)
          len
          (publish key src len p m).memory
        ≡ string_at src len m
  publish-copied page new here = elim (Option-cases (publish key src len p m).addr) [
    | inr (x, got) ↦
        let (own, held, at) = publish-held key src len p m x got in
        let same : own ≡ page = of_some (sym held ∙ here) in
        ap (λ a. string_at a len (publish key src len p m).memory)
          (ap (λ q. (publish key src len p m).pool.base + q.0) (sym same) ∙ sym at)
        ∙ string_at_moved x src len m (publish key src len p m).memory
            (publish-address_of key src len p m x new got).1
    | inl lost ↦ absurd (cc (publish-lost new lost, here))
  ]

  pub publish-length :
      (page : ℕ × ℕ)
      → Dict.get key p.entries ≡ none
      → Dict.get key (publish key src len p m).pool.entries ≡ some page
      → page.1 ≡ len
  unfolding publish admit_copy insert
  publish-length page missing = elim (Option-cases (allocate len p).offset) [
    | inl full ↦
        rw (missing, publish, full, admit_copy)
          (λ h. absurd (cc (h, Evicts-missing key (allocate-Evicts len p) missing)))
    | inr (off, got) ↦
        let q = (allocate len p).pool in
        rw (missing, publish, got, admit_copy)
          (λ h.
            ap (λ e. e.1)
              (of_some (
                sym h
                ∙ get-move_to_end key key (Dict.put key (off, len) q.entries)
                ∙ get-put_self key (off, len) q.entries)))
  ]

  -- A page that stays keeps its bytes.
  pub publish-unmoved :
      (k : String) (page : ℕ × ℕ)
      → IsValid p
      → key ≢ k
      → Dict.get k (publish key src len p m).pool.entries ≡ some page
      → string_at
          ((publish key src len p m).pool.base + page.0)
          page.1
          (publish key src len p m).memory
        ≡ string_at (p.base + page.0) page.1 m
  publish-unmoved k page v ne here =
      let (before, stays) = publish-back k page v.unique ne here in
      let (held, base, bytes) =
        publish-keeps key src len p m k page v (λ e. ne (sym e)) before stays in
      ap (λ b. string_at (b + page.0) page.1 (publish key src len p m).memory) base
      ∙ string_at_same (p.base + page.0) page.1 (publish key src len p m).memory m (λ a lo hi.
        let e : p.base + (a - p.base) ≡ a = omega arith in
        subst (λ x. (publish key src len p m).memory x ≡ m x) e
          (bytes (a - p.base) (omega arith) (omega arith)))

  allocated-within :
      (off : ℕ)
      → IsValid p
      → (allocate len p).offset ≡ some off
      → (len ≡ 0) ⊎ (off + len ≤ p.capacity)
  unfolding slot inside
  allocated-within off v got =
      let r = allocate len p in
      let tiles = subst (AllocatedAt len r.pool) got (allocate-Allocated len p v) in
      ground (arith, tiles.tiled (off + len - 1), tiles.bounded, (allocate-Evicts len p).capacity)

  -- Nothing is written outside the pool.
  pub publish-outside :
      (a n : ℕ)
      → IsValid p
      → Apart a n p.base p.capacity
      → string_at a n (publish key src len p m).memory ≡ string_at a n m
  unfolding publish admit_copy
  publish-outside a n v apart = elim (Option-cases (Dict.get key p.entries)) [
    | inr (own, hit) ↦ rw (hit, publish) refl
    | inl missing ↦ elim (Option-cases (allocate len p).offset) [
      | inl full ↦ rw (missing, publish, full, admit_copy) refl
      | inr (off, got) ↦
          let r = allocate len p in
          let base = (allocate-Evicts len p).base in
          rw (missing, publish, got, admit_copy)
            (string_at_same a n (memmove (r.pool.base + off) src len m) m (λ x lo hi.
              memmove_outside (r.pool.base + off) src len x m (
                out_of_slot a n p.base p.capacity off len r.pool.base x apart base
                  (allocated-within off v got) lo hi)))
    ]
  ]
