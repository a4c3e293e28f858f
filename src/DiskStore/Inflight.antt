-- ===== src/DiskStore/Inflight.antt =====
-- What holds whatever the threads do: the bound on the disk, and that a key is written once.
use peer_cache.Base.{
  ℕ, ◌≤◌, ◌≡◌, refl, sym, ap, subst, of_some, ◌∙◌, inl, inr, arith, String, Option, none, some,
  Bool, true, false, not, List, [], ◌∷◌, ◌++◌, length, ltb, ◌==◌, eq_string, ==_iff, ==_refl,
  if◌then◌else◌, Bool-cases, Option-cases, ◌||◌, ◌&&◌, elem, Distinct, All, All-append,
}
use peer_cache.Base.Sets.{discard, elem-discard}
use peer_cache.Base.Bytes.{values}
use peer_cache.Base.Dict
use peer_cache.Base.Dict.{
  Dict, Unique, keys, total-move_to_end, total-remove, Unique-move_to_end, Unique-remove,
  has-remove, get-move_to_end, get-put,
}
use peer_cache.DiskStore.{
  IndexFile, absent, listing, DiskStore, Io, init, load_index, rebuild_from_scan, put, get, remove,
  forget, close, flush_index, store_file, enter, write_index, safe_name, file_bytes,
}
use peer_cache.DiskStore.Steps.{
  Worker, waiting, storing, entering, ending, Step, Run, call_put, call_get, call_remove,
  call_close, take_item, file_stored, file_failed, entered, ended, start, after,
}
use peer_cache.DiskStore.Capacity.{Accounted, write_index-Enforced}

-- The key that the writer thread has in hand.
abbrev pub owns : Worker → String → Bool
owns waiting k = false
owns (storing key page) k = key == k
owns (entering key page) k = key == k
owns (ending key) k = key == k

-- The same, before its index entry is made.
abbrev pub pending : Worker → String → Bool
pending waiting k = false
pending (storing key page) k = key == k
pending (entering key page) k = key == k
pending (ending key) k = false

abbrev pub InHandFits : ℕ → Worker → Type 0
InHandFits max waiting = Unit
InHandFits max (storing key page) = length page ≤ max
InHandFits max (entering key page) = length page ≤ max
InHandFits max (ending key) = Unit

pub record IsValid (d : DiskStore) (w : Worker) : Type 0 where
  pub counted : Accounted d
  pub bounded : d.used ≤ d.max_bytes
  -- `_inflight` is the keys in the queue and the one in hand, each once,
  pub claimed : (k : String) → elem k d.inflight ≡ (elem k (keys d.queue) || owns w k)
  pub single : Distinct (keys d.queue)
  pub apart : (k : String) → owns w k ≡ true → elem k (keys d.queue) ≡ false
  -- none of which is in the index before it is written,
  pub fresh : (k : String) → elem k (keys d.queue) ≡ true → Dict.has k d.index ≡ false
  pub fresh_in_hand : (k : String) → pending w k ≡ true → Dict.has k d.index ≡ false
  -- and the pages are at most as large as the bound.
  pub small : All (λ item. length item.1 ≤ d.max_bytes) d.queue
  pub small_in_hand : InHandFits d.max_bytes w

relabel :
    (d : DiskStore) (w : Worker) (files : Dict String (List ℕ)) (f : IndexFile) (running : Bool)
    → IsValid d w
    → IsValid (record d { files = files; index_file = f; running = running }) w
relabel d w files f running v = record {
  counted = record { unique = v.counted.unique; accounted = v.counted.accounted };
  bounded = v.bounded;
  claimed = v.claimed;
  single = v.single;
  apart = v.apart;
  fresh = v.fresh;
  fresh_in_hand = v.fresh_in_hand;
  small = v.small;
  small_in_hand = v.small_in_hand;
}

elem-queue_append :
    (k key : String) (page : List ℕ) (q : List (String × List ℕ))
    → elem k (keys (q ++ (key, page) ∷ [])) ≡ (elem k (keys q) || key == k)
elem-queue_append k key page [] = ground arith
elem-queue_append k key page (x ∷ q) = ground (arith, elem-queue_append k key page q)

queue_append-Distinct :
    (key : String) (page : List ℕ) (q : List (String × List ℕ))
    → elem key (keys q) ≡ false
    → Distinct (keys q)
    → Distinct (keys (q ++ (key, page) ∷ []))
queue_append-Distinct key page [] h d = (refl, tt)
queue_append-Distinct key page ((j, p) ∷ q) h d = (
  ground (arith, elem-queue_append j key page q, ==_iff j key, ==_iff key j, d.0),
  queue_append-Distinct key page q (ground arith) d.1,
)

put-IsValid :
    (key : String) (page : List ℕ) (d : DiskStore) (w : Worker)
    → IsValid d w
    → IsValid (put key page d) w
unfolding put
put-IsValid key page d w v = elim (Bool-cases (not d.running || ltb d.max_bytes (length page))) [
  | inl refused ↦ rw refused v
  | inr allowed ↦ elim (Bool-cases (Dict.has key d.index || elem key d.inflight)) [
    | inl there ↦ rw (allowed, there) v
    | inr new ↦
        let c = v.claimed key in
        let absent : elem key (keys d.queue) ≡ false = ground arith in
        let not_owned : owns w key ≡ false = ground arith in
        rw (allowed, new)
          (record {
            counted = record { unique = v.counted.unique; accounted = v.counted.accounted };
            bounded = v.bounded;
            claimed = λ k. ground (arith, v.claimed k, elem-queue_append k key page d.queue);
            single = queue_append-Distinct key page d.queue absent v.single;
            apart = λ k o. elim (Bool-cases (key == k)) [
              | inl same ↦ absurd (cc (ap (owns w) ((==_iff key k).0 same), not_owned, o))
              | inr other ↦
                  elem-queue_append k key page d.queue ∙ ground (arith, v.apart k o, other)
            ];
            fresh = λ k m. elim (Bool-cases (key == k)) [
              | inl same ↦ ap (λ t. Dict.has t d.index) (sym ((==_iff key k).0 same)) ∙ ground arith
              | inr other ↦ v.fresh k (ground (arith, elem-queue_append k key page d.queue, m))
            ];
            fresh_in_hand = v.fresh_in_hand;
            small =
                All-append (λ item. length item.1 ≤ d.max_bytes) d.queue ((key, page) ∷ []) v.small
                  (ground arith, tt);
            small_in_hand = v.small_in_hand;
          })
  ]
]

get-IsValid : (key : String) (d : DiskStore) (w : Worker) → IsValid d w → IsValid (get key d).1 w
unfolding get Dict.has
get-IsValid key d w v =
    let same = λ (k : String).
      ap (λ o. elim o [ none ↦ false | some _ ↦ true ]) (get-move_to_end key k d.index) in
    record {
      counted = record {
        unique = Unique-move_to_end key d.index v.counted.unique;
        accounted =
            v.counted.accounted
            ∙ sym (total-move_to_end (λ k entry. entry.1) key d.index v.counted.unique);
      };
      bounded = v.bounded;
      claimed = v.claimed;
      single = v.single;
      apart = v.apart;
      fresh = λ k m. same k ∙ v.fresh k m;
      fresh_in_hand = λ k m. same k ∙ v.fresh_in_hand k m;
      small = v.small;
      small_in_hand = v.small_in_hand;
    }

remove-IsValid :
    (io : Io) (key : String) (d : DiskStore) (w : Worker)
    → IsValid d w
    → IsValid (remove io key d) w
unfolding remove forget
remove-IsValid io key d w v = elim (Option-cases (Dict.get key d.index)) [
  | inl missing ↦ rw (missing, forget) v
  | inr (entry, found) ↦
      let less = total-remove (λ k entry. entry.1) key entry d.index v.counted.unique found in
      rw (found, forget)
        (record {
          counted = record {
            unique = Unique-remove key d.index v.counted.unique;
            accounted = omega (arith, less, v.counted.accounted);
          };
          bounded = omega (arith, v.bounded);
          claimed = v.claimed;
          single = v.single;
          apart = v.apart;
          fresh = λ k m. has-remove key k d.index ∙ ground (arith, v.fresh k m);
          fresh_in_hand = λ k m. has-remove key k d.index ∙ ground (arith, v.fresh_in_hand k m);
          small = v.small;
          small_in_hand = v.small_in_hand;
        })
]

close-IsValid : (io : Io) (d : DiskStore) (w : Worker) → IsValid d w → IsValid (close io d) w
unfolding close flush_index
close-IsValid io d w v = elim (Bool-cases io.flushes) [
  | inl flushed ↦ rw flushed (relabel d w d.files (listing d.index) false v)
  | inr failed ↦ rw failed (relabel d w d.files d.index_file false v)
]

take-IsValid :
    (key : String) (page : List ℕ) (rest : List (String × List ℕ)) (d : DiskStore)
    → d.queue ≡ (key, page) ∷ rest
    → IsValid d waiting
    → IsValid (record d { queue = rest }) (storing key page)
take-IsValid key page rest d e v =
    let single = subst (λ q. Distinct (keys q)) e v.single in
    let at = λ (k : String). ap (λ q. elem k (keys q)) e in
    let fits = subst (All (λ item. length item.1 ≤ d.max_bytes)) e v.small in
    record {
      counted = record { unique = v.counted.unique; accounted = v.counted.accounted };
      bounded = v.bounded;
      claimed = λ k. ground (arith, v.claimed k, at k);
      single = single.1;
      apart = λ k o. ap (λ t. elem t (keys rest)) (sym ((==_iff key k).0 o)) ∙ single.0;
      fresh = λ k m. v.fresh k (ground (arith, at k, m));
      fresh_in_hand = λ k m. v.fresh k (ground (arith, at k, m));
      small = fits.1;
      small_in_hand = fits.0;
    }

end-IsValid :
    (key : String) (d : DiskStore)
    → IsValid d (ending key)
    → IsValid (record d { inflight = discard key d.inflight }) waiting
end-IsValid key d v = record {
  counted = record { unique = v.counted.unique; accounted = v.counted.accounted };
  bounded = v.bounded;
  claimed = λ k. elem-discard k key d.inflight ∙ ground (arith, v.claimed k, v.apart k);
  single = v.single;
  apart = λ k o. absurd (cc);
  fresh = v.fresh;
  fresh_in_hand = λ k m. absurd (cc);
  small = v.small;
  small_in_hand = tt;
}

fail-IsValid :
    (key : String) (page : List ℕ) (d : DiskStore)
    → IsValid d (storing key page)
    → IsValid d (ending key)
fail-IsValid key page d v = record {
  counted = v.counted;
  bounded = v.bounded;
  claimed = v.claimed;
  single = v.single;
  apart = v.apart;
  fresh = v.fresh;
  fresh_in_hand = λ k m. absurd (cc);
  small = v.small;
  small_in_hand = tt;
}

module _ (sha1 : String → String) (utf8 : String → List ℕ) where
  store-IsValid :
      (io : Io) (key : String) (page : List ℕ) (d d' : DiskStore)
      → store_file sha1 utf8 io key page d ≡ some d'
      → IsValid d (storing key page)
      → IsValid d' (entering key page)
  unfolding store_file
  store-IsValid io key page d d' e v =
      elim (Bool-cases (io.writes && ltb (length (utf8 key)) (values 4))) [
        | inr failed ↦ absurd (raised _ failed e)
        | inl stored ↦
            subst (λ t. IsValid t (entering key page))
              (of_some (
                sym (
                  ap
                    (λ b.
                      if b
                      then some (record d {
                        files =
                            Dict.put (safe_name sha1 utf8 key) (file_bytes sha1 utf8 key page)
                              d.files;
                      })
                      else none)
                    stored)
                ∙ e))
              (moved (
                relabel d (storing key page)
                  (Dict.put (safe_name sha1 utf8 key) (file_bytes sha1 utf8 key page) d.files)
                  d.index_file d.running v))
      ]
    where
      raised :
          (t : DiskStore)
          → (io.writes && ltb (length (utf8 key)) (values 4)) ≡ false
          → (if io.writes && ltb (length (utf8 key)) (values 4) then some t else none) ≡ some d'
          → ⊥
      raised t h k = ground arith

      moved : {t : DiskStore} → IsValid t (storing key page) → IsValid t (entering key page)
      moved x = record {
        counted = x.counted;
        bounded = x.bounded;
        claimed = x.claimed;
        single = x.single;
        apart = x.apart;
        fresh = x.fresh;
        fresh_in_hand = x.fresh_in_hand;
        small = x.small;
        small_in_hand = x.small_in_hand;
      }

  has-enter :
      (key name k : String) (len : ℕ) (d : DiskStore)
      → Dict.has k (enter key name len d).index ≡ (key == k || Dict.has k d.index)
  unfolding enter Dict.has
  has-enter key name k len d = ground (
    arith,
    get-move_to_end key k (Dict.put key (name, len) d.index),
    get-put key k (name, len) d.index,
  )

  enter-IsValid :
      (io : Io) (key : String) (page : List ℕ) (d : DiskStore)
      → IsValid d (entering key page)
      → IsValid (write_index sha1 utf8 io key page d).disk (ending key)
  unfolding enter
  enter-IsValid io key page d v =
      let r =
        write_index-Enforced sha1 utf8 io key page d v.counted (v.fresh_in_hand key (==_refl key))
          v.small_in_hand in
      let queue = λ (k : String). ap (λ q. elem k (keys q)) r.same.queue in
      record {
        counted = r.counted;
        bounded = r.bounded;
        claimed = λ k.
            ap (elem k) r.same.inflight ∙ v.claimed k ∙ ap (λ b. b || key == k) (sym (queue k));
        single = subst (λ q. Distinct (keys q)) (sym r.same.queue) v.single;
        apart = λ k o. queue k ∙ v.apart k o;
        fresh = λ k m. r.fewer k (
            has-enter key (safe_name sha1 utf8 key) k (length page) d
            ∙ ground (arith, v.fresh k, queue k, m, v.apart k));
        fresh_in_hand = λ k m. absurd (cc);
        small =
            subst
              (λ b.
                All (λ item. length item.1 ≤ b) (write_index sha1 utf8 io key page d).disk.queue)
              (sym r.same.bound)
              (subst (All (λ item. length item.1 ≤ d.max_bytes)) (sym r.same.queue) v.small);
        small_in_hand = tt;
      }

  step-IsValid : {s t : DiskStore × Worker} → Step sha1 utf8 s t → IsValid s.0 s.1 → IsValid t.0 t.1
  step-IsValid (call_put key page d w) v = put-IsValid key page d w v
  step-IsValid (call_get key d w) v = get-IsValid key d w v
  step-IsValid (call_remove io key d w) v = remove-IsValid io key d w v
  step-IsValid (call_close io d w) v = close-IsValid io d w v
  step-IsValid (take_item key page rest d e) v = take-IsValid key page rest d e v
  step-IsValid (file_stored io key page d d' e) v = store-IsValid io key page d d' e v
  step-IsValid (file_failed io key page d e) v = fail-IsValid key page d v
  step-IsValid (entered io key page d) v = enter-IsValid io key page d v
  step-IsValid (ended key d) v = end-IsValid key d v

  pub run-IsValid :
      {s t : DiskStore × Worker} → Run sha1 utf8 s t → IsValid s.0 s.1 → IsValid t.0 t.1
  run-IsValid (start s) v = v
  run-IsValid (after s t u before step) v = step-IsValid step (run-IsValid before v)

  -- From an empty directory, whatever calls and steps of the writer thread follow, in whatever
  -- order: no key is in the index twice, `used` is the bytes of the indexed pages and at most
  -- `max_bytes`, and `_inflight` is the keys that are in the queue or in the thread's hands, each
  -- once, none of which is in the index before it is entered.
  pub reachable-IsValid :
      (decode : List ℕ → Option String) (max_bytes : ℕ) {t : DiskStore × Worker}
      → Run sha1 utf8 (init decode max_bytes [] [] absent, waiting) t
      → IsValid t.0 t.1
  unfolding init load_index rebuild_from_scan Dict.has Dict.get
  reachable-IsValid decode max_bytes r = run-IsValid r (record {
    counted = record { unique = tt; accounted = refl };
    bounded = omega arith;
    claimed = λ k. refl;
    single = tt;
    apart = λ k o. absurd (cc);
    fresh = λ k m. absurd (cc);
    fresh_in_hand = λ k m. absurd (cc);
    small = tt;
    small_in_hand = tt;
  })
