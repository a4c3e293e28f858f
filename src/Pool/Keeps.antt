-- ===== src/Pool/Keeps.antt =====
-- What the operations of the pool leave of the other pages, and where a published page is.
use peer_cache.Base.{
  ℕ, ◌+◌, String, none, some, ◌≡◌, refl, sym, inl, inr, arith, elem, false, List, [], Option-cases,
  eq_string, ==_iff, ==_refl, of_some,
}
use peer_cache.Base.Memory.{Memory}
use peer_cache.Base.Dict
use peer_cache.Base.Dict.{get-move_to_end, get-put}
use peer_cache.Pool.{Pool, allocate, publish, reserve, address_of, admit, admit_copy, insert, touch}
use peer_cache.Pool.Eviction.{allocate-Evicts, Evicts-kept}

-- The pages that are not in the list are at the same place.
pub record Keeps (p q : Pool) (evicted : List String) : Type 0 where
  pub base : q.base ≡ p.base
  pub capacity : q.capacity ≡ p.capacity
  pub kept :
      (k : String) (page : ℕ × ℕ)
      → Dict.get k p.entries ≡ some page
      → elem k evicted ≡ false
      → Dict.get k q.entries ≡ some page

touch-Keeps : (key : String) (p : Pool) → Keeps p (touch key p) []
unfolding touch
touch-Keeps key p = record {
  base = refl;
  capacity = refl;
  kept = λ k page found out. rw (get-move_to_end key k p.entries) found;
}

allocate-Keeps : (len : ℕ) (p : Pool) → Keeps p (allocate len p).pool (allocate len p).evicted
allocate-Keeps len p = record {
  base = (allocate-Evicts len p).base;
  capacity = (allocate-Evicts len p).capacity;
  kept = λ k page found out. Evicts-kept k (allocate-Evicts len p) found out;
}

-- A new key takes no other key's place.
insert-Keeps :
    (key : String) (off len : ℕ) (p q : Pool) (evicted : List String)
    → Dict.get key p.entries ≡ none
    → Keeps p q evicted
    → Keeps p (insert key off len q) evicted
unfolding insert
insert-Keeps key off len p q evicted new h = record {
  base = h.base;
  capacity = h.capacity;
  kept = λ k page found out.
      let stays = h.kept k page found out in
      rw (get-move_to_end key k (Dict.put key (off, len) q.entries), get-put)
        (ground (arith, ==_iff key k));
}

pub address_of-Keeps : (key : String) (p : Pool) → Keeps p (address_of key p).1 []
unfolding address_of
address_of-Keeps key p = elim (Option-cases (Dict.get key p.entries)) [
  | inl missing ↦
      rw (missing, address_of)
        (record { base = refl; capacity = refl; kept = λ k page found out. found })
  | inr (page, found) ↦ rw (found, address_of) (touch-Keeps key p)
]

-- Looking a page up moves it to the end, and changes nothing that a lookup shows.
pub get-address_of :
    (k key : String) (p : Pool) → Dict.get k (address_of key p).1.entries ≡ Dict.get k p.entries
unfolding address_of touch
get-address_of k key p = elim (Option-cases (Dict.get key p.entries)) [
  | inl missing ↦ rw (missing, address_of) refl
  | inr (page, found) ↦ rw (found, address_of) (get-move_to_end key k p.entries)
]

pub reserve-Keeps :
    (key : String) (len : ℕ) (p : Pool)
    → Keeps p (reserve key len p).pool (reserve key len p).evicted
unfolding reserve admit
reserve-Keeps key len p = elim (Option-cases (Dict.get key p.entries)) [
  | inr (page, found) ↦ rw (found, reserve) (touch-Keeps key p)
  | inl missing ↦ elim (Option-cases (allocate len p).offset) [
    | inl full ↦ rw (missing, reserve, full, admit) (allocate-Keeps len p)
    | inr (off, got) ↦
        let r = allocate len p in
        rw (missing, reserve, got, admit)
          (insert-Keeps key off len p r.pool r.evicted missing (allocate-Keeps len p))
  ]
]

module _ (key : String) (src len : ℕ) (p : Pool) (m : Memory) where
  pub publish-Keeps : Keeps p (publish key src len p m).pool (publish key src len p m).evicted
  unfolding publish admit_copy
  publish-Keeps = elim (Option-cases (Dict.get key p.entries)) [
    | inr (page, found) ↦ rw (found, publish) (touch-Keeps key p)
    | inl missing ↦ elim (Option-cases (allocate len p).offset) [
      | inl full ↦ rw (missing, publish, full, admit_copy) (allocate-Keeps len p)
      | inr (off, got) ↦
          let r = allocate len p in
          rw (missing, publish, got, admit_copy)
            (insert-Keeps key off len p r.pool r.evicted missing (allocate-Keeps len p))
    ]
  ]

  -- The address that is returned is that of the key's page in the pool.
  pub publish-held :
      (x : ℕ)
      → (publish key src len p m).addr ≡ some x
      → (page : ℕ × ℕ) × (Dict.get key (publish key src len p m).pool.entries ≡ some page)
        × (x ≡ (publish key src len p m).pool.base + page.0)
  unfolding publish admit_copy touch insert
  publish-held x = elim (Option-cases (Dict.get key p.entries)) [
    | inr (page, found) ↦
        rw (found, publish)
          (λ h. (page, rw (get-move_to_end key key p.entries) found, sym (of_some h)))
    | inl missing ↦ elim (Option-cases (allocate len p).offset) [
      | inl full ↦ rw (missing, publish, full, admit_copy) (λ h. absurd (cc))
      | inr (off, got) ↦
          let r = allocate len p in
          rw (missing, publish, got, admit_copy)
            (λ h. (
              (off, len),
              rw
                  (
                    get-move_to_end key key (Dict.put key (off, len) r.pool.entries),
                    get-put key key (off, len) r.pool.entries,
                    ==_refl key,
                  )
                  refl,
              sym (of_some h),
            ))
    ]
  ]
