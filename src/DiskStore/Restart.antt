-- ===== src/DiskStore/Restart.antt =====
-- What a new process finds of the index that the last one flushed.
use peer_cache.Base.{
  ℕ, ◌+◌, ◌≡◌, refl, sym, ap, ◌∙◌, inl, inr, arith, String, Option, none, some, true, false, List,
  [], ◌∷◌, ◌++◌, append_assoc, append-nil, ◌==◌, eq_string, ==_iff, ==_refl, if◌then◌else◌,
  Bool-cases, All, ◌>>=◌,
}
use peer_cache.Base.Dict
use peer_cache.Base.Dict.{Dict, Unique, put-new, get-append_one, has-put}
use peer_cache.DiskStore.{
  IndexFile, listing, DiskStore, Io, close, flush_index, load_entry, load_entries, page_of,
  load_index, init, get, entry_file,
}
use peer_cache.DiskStore.Capacity.{bytes_of, Accounted, get_of_has}

abbrev Present : Dict String (List ℕ) → Dict String (String × ℕ) → Type 0
Present files es = All (λ e. Dict.has e.1.0 files ≡ true) es

load_entries-all :
    (es : Dict String (String × ℕ)) (d : DiskStore)
    → Unique es
    → ((k : String) → Dict.has k es ≡ true → Dict.get k d.index ≡ none)
    → Present d.files es
    → ((load_entries es d).index ≡ d.index ++ es)
      × ((load_entries es d).used ≡ d.used + bytes_of es)
unfolding load_entries load_entry
load_entries-all [] d u new p = (sym (append-nil d.index), omega arith)
load_entries-all ((k, e) ∷ es) d u new p =
    let at = put-new k e d.index (new k (unfold Dict.has Dict.get in ground (arith, ==_refl k))) in
    let d' = record d { index = Dict.put k e d.index; used = d.used + e.1 } in
    let fresh = λ (j : String) (h : Dict.has j es ≡ true).
      ap (Dict.get j) at
      ∙ get-append_one j k e d.index (new k (unfold Dict.has Dict.get in ground (arith, ==_refl k)))
      ∙ other k j e es d u.0 h (new j (later k j e es h)) in
    let (i, s) = load_entries-all es d' u.1 fresh p.1 in
    let taken = ap (λ b. load_entries es (load_entry k e b d)) p.0 in
    (
      ap (λ (t : DiskStore). t.index) taken
          ∙ i
          ∙ ap (λ t. t ++ es) at
          ∙ append_assoc d.index ((k, e) ∷ []) es,
      ap (λ (t : DiskStore). t.used) taken ∙ omega (arith, s),
    )
  where
    later :
        (k j : String) (e : String × ℕ) (es : Dict String (String × ℕ))
        → Dict.has j es ≡ true
        → Dict.has j ((k, e) ∷ es) ≡ true
    later k j e es h = unfold Dict.has Dict.get in ground arith

    other :
        (k j : String) (e : String × ℕ) (es : Dict String (String × ℕ)) (d : DiskStore)
        → Dict.get k es ≡ none
        → Dict.has j es ≡ true
        → Dict.get j d.index ≡ none
        → (if k == j then some e else Dict.get j d.index) ≡ none
    other k j e es d u h n = unfold Dict.has in ground (arith, ==_iff k j)

not_first :
    (key k : String) (e : String × ℕ) (es : Dict String (String × ℕ))
    → Dict.has key ((k, e) ∷ es) ≡ false
    → ((k == key) ≡ false) × (Dict.has key es ≡ false)
unfolding Dict.has Dict.get
not_first key k e es h = (ground arith, ground arith)

load_entries-unlisted :
    (key : String) (es : Dict String (String × ℕ)) (d : DiskStore)
    → Dict.has key es ≡ false
    → Dict.has key d.index ≡ false
    → Dict.has key (load_entries es d).index ≡ false
unfolding load_entries load_entry
load_entries-unlisted key [] d h a = a
load_entries-unlisted key ((k, e) ∷ es) d h a =
    let (unlike, rest) = not_first key k e es h in
    elim (Bool-cases (Dict.has e.0 d.files)) [
      | inr gone ↦
          ap (λ b. Dict.has key (load_entries es (load_entry k e b d)).index) gone
          ∙ load_entries-unlisted key es d rest a
      | inl there ↦
          ap (λ b. Dict.has key (load_entries es (load_entry k e b d)).index) there
          ∙ load_entries-unlisted key es (load_entry k e true d) rest
              (has-put k key e d.index ∙ ground (arith, unlike, a))
    ]

abbrev opened : ℕ → Dict String (List ℕ) → IndexFile → DiskStore
opened max_bytes files f = record {
  max_bytes = max_bytes;
  index = [];
  used = 0;
  inflight = [];
  writes_since_flush = 0;
  queue = [];
  running = true;
  files = files;
  index_file = f;
}

module _ (decode : List ℕ → Option String) where
  -- After `close` on a disk whose size is accounted for and whose indexed files are all there,
  -- where the operating system serves the flush, a new process has the same index, in the same
  -- order, and the same size.
  pub init-close :
      (io : Io) (d : DiskStore) (max_bytes : ℕ) (names : List String)
      → io.flushes ≡ true
      → Accounted d
      → All (λ e. Dict.has e.1.0 d.files ≡ true) d.index
      → ((init decode max_bytes names (close io d).files (close io d).index_file).index ≡ d.index)
        × ((init decode max_bytes names (close io d).files (close io d).index_file).used ≡ d.used)
  unfolding init load_index close flush_index Dict.get
  init-close io d max_bytes names served c present = rw served (
      let start = opened max_bytes d.files (listing d.index) in
      let (i, s) = load_entries-all d.index start c.unique (λ k h. refl) present in
      (i, omega (arith, s, c.accounted)))

  -- A page that an index.json on disk does not list is not found by a new process, whatever
  -- files the directory has.
  pub init-unlisted :
      (max_bytes : ℕ) (names : List String) (files : Dict String (List ℕ))
      (es : Dict String (String × ℕ)) (key : String)
      → Dict.has key es ≡ false
      → (get key (init decode max_bytes names files (listing es))).0 ≡ none
  unfolding init load_index get entry_file
  init-unlisted max_bytes names files es key unlisted =
      let d = load_entries es (opened max_bytes files (listing es)) in
      let missing = get_of_has key d.index (
        load_entries-unlisted key es (opened max_bytes files (listing es)) unlisted
          (unfold Dict.has Dict.get in refl)) in
      ap (λ o. entry_file d o >>= page_of) missing
