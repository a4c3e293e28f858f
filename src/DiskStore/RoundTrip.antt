-- ===== src/DiskStore/RoundTrip.antt =====
-- A page that `_write` stored is what `get` returns.
use peer_cache.Base.{
  ℕ, ◌+◌, ◌<◌, ◌^◌, ◌≡◌, ◌≢◌, refl, sym, ap, subst, ◌∙◌, inl, inr, arith, String, none, some, true,
  false, List, [], ◌∷◌, ◌++◌, length, length-append, append_assoc, take, drop, ltb, leb, eq_string,
  ==_iff, Bool-cases, ◌&&◌, All,
}
use peer_cache.Base.Bytes.{
  pack_be, unpack_be, values, length-pack_be, unpack-pack_be, take-append, drop-append,
}
use peer_cache.Base.Dict
use peer_cache.Base.Dict.{Dict, get-remove, get-put_self, move_to_end-new}
use peer_cache.DiskStore.{
  DiskStore, Io, Written, unlink, drop_oldest, enforce, enter, flush_index, flush_due, entry_file,
  page_of, get, safe_name, file_bytes, store_file, write_index, write,
}
use peer_cache.DiskStore.Capacity.{get_of_has}

-- The entry of the key is the last one, and no other has its file name.
abbrev Newest : String → String → ℕ → Dict String (String × ℕ) → Type 0
Newest key name len [] = ⊥
Newest key name len ((k, e) ∷ []) = (k ≡ key) × (e ≡ (name, len))
Newest key name len ((k, e) ∷ next ∷ rest) =
    (e.0 ≢ name) × (k ≢ key) × Newest key name len (next ∷ rest)

Newest-append :
    (key name : String) (len : ℕ) (es : Dict String (String × ℕ))
    → Dict.get key es ≡ none
    → All (λ e. e.1.0 ≢ name) es
    → Newest key name len (es ++ (key, (name, len)) ∷ [])
unfolding Dict.get
Newest-append key name len [] h a = (refl, refl)
Newest-append key name len ((k, e) ∷ []) h a =
    (a.0, (λ p. absurd (ground (arith, ==_iff k key))), (refl, refl))
Newest-append key name len ((k, e) ∷ next ∷ rest) h a = (
  a.0,
  (λ p. absurd (ground (arith, ==_iff k key))),
  Newest-append key name len (next ∷ rest) (ground arith) a.1,
)

get-Newest :
    (key name : String) (len : ℕ) (es : Dict String (String × ℕ))
    → Newest key name len es
    → Dict.get key es ≡ some (name, len)
unfolding Dict.get
get-Newest key name len [] h = absurd h
get-Newest key name len ((k, e) ∷ []) h = ground (arith, ==_iff k key, h.0, ap some h.1)
get-Newest key name len ((k, e) ∷ next ∷ rest) h =
    ground (arith, ==_iff k key, h.1, get-Newest key name len (next ∷ rest) h.2)

record Holds (key name : String) (len : ℕ) (content : List ℕ) (d : DiskStore) : Type 0 where
  entry : Dict.get key d.index ≡ some (name, len)
  file : Dict.get name d.files ≡ some content

unlink-other :
    (io : Io) (x name : String) (content : List ℕ) (files : Dict String (List ℕ))
    → x ≢ name
    → Dict.get name files ≡ some content
    → Dict.get name (unlink io x files) ≡ some content
unfolding unlink
unlink-other io x name content files ne f =
    ground (arith, f, get-remove x name files, ==_iff x name)

enforce-Holds :
    (io : Io) (key name : String) (len : ℕ) (content : List ℕ) (es : Dict String (String × ℕ))
    (d : DiskStore) (evicted : List String)
    → d.index ≡ es
    → Newest key name len es
    → Dict.get name d.files ≡ some content
    → Holds key name len content (enforce io es d evicted).disk
unfolding enforce drop_oldest unlink
enforce-Holds io key name len content [] d evicted e n f = absurd n
enforce-Holds io key name len content (x ∷ []) d evicted e n f = record {
  entry = ap (Dict.get key) e ∙ get-Newest key name len (x ∷ []) n;
  file = f;
}
enforce-Holds io key name len content ((old_key, old) ∷ next ∷ rest) d evicted e n f =
    elim (Bool-cases (ltb d.max_bytes d.used)) [
      | inr under ↦ rw under (record {
        entry = ap (Dict.get key) e ∙ get-Newest key name len ((old_key, old) ∷ next ∷ rest) n;
        file = f;
      })
      | inl over ↦ rw over (
          enforce-Holds io key name len content (next ∷ rest) (drop_oldest io old (next ∷ rest) d)
            (evicted ++ old_key ∷ []) refl n.2 (unlink-other io old.0 name content d.files n.0 f))
    ]

flush_due-Holds :
    (io : Io) (key name : String) (len : ℕ) (content : List ℕ) (w : Written)
    → Holds key name len content w.disk
    → Holds key name len content (flush_due io w).disk
unfolding flush_due flush_index
flush_due-Holds io key name len content w h =
    elim (Bool-cases (leb 256 w.disk.writes_since_flush)) [
      | inr early ↦ rw early h
      | inl due ↦ elim (Bool-cases io.flushes) [
        | inl flushed ↦ rw (due, flushed) (record { entry = h.entry; file = h.file })
        | inr failed ↦ rw (due, failed) (record { entry = h.entry; file = h.file })
      ]
    ]

take_all : (xs : List ℕ) → take (length xs) xs ≡ xs
take_all [] = refl
take_all (x ∷ xs) = ap (λ t. x ∷ t) (take_all xs)

module _ (sha1 : String → String) (utf8 : String → List ℕ) where
  -- The page is what follows the header of the file.
  page_of-file_bytes :
      (key : String) (page : List ℕ)
      → length (utf8 key) < values 4
      → page_of (file_bytes sha1 utf8 key page, length page) ≡ some page
  unfolding page_of file_bytes
  page_of-file_bytes key page small =
      let n = length (utf8 key) in
      let header = pack_be 4 n in
      let content = header ++ (utf8 key ++ page) in
      let size = length-pack_be 4 n in
      let enough : ltb (length content) 4 ≡ false =
        ground (arith, length-append header (utf8 key ++ page), size) in
      let read : unpack_be 0 (take 4 content) ≡ n =
        ap (unpack_be 0) (take-append 4 header (utf8 key ++ page) size)
        ∙ unpack-pack_be 4 n small in
      let rest : drop (4 + n) content ≡ page =
        ap (drop (4 + n)) (sym (append_assoc header (utf8 key) page))
        ∙ drop-append (4 + n) (header ++ utf8 key) page
            (length-append header (utf8 key) ∙ ap (λ t. t + n) size) in
      rw enough (
        ap some (
          ap (λ k. take (length page) (drop (4 + k) content)) read
          ∙ ap (take (length page)) rest
          ∙ take_all page))

  get-Holds :
      (key name : String) (len : ℕ) (content : List ℕ) (d : DiskStore)
      → Holds key name len content d
      → (get key d).0 ≡ page_of (content, len)
  unfolding get entry_file
  get-Holds key name len content d h = rw (h.entry, entry_file, h.file) refl

  -- A page that is not in the index and whose file name no other page has, of a key whose
  -- encoding is below 2 ^ 32 bytes, is written where the operating system serves the write, and
  -- `get` then returns it, whatever the write displaced.
  pub write-get :
      (io : Io) (key : String) (page : List ℕ) (d : DiskStore)
      → io.writes ≡ true
      → length (utf8 key) < 2 ^ 32
      → Dict.has key d.index ≡ false
      → All (λ e. e.1.0 ≢ safe_name sha1 utf8 key) d.index
      → (r : Written) × (write sha1 utf8 io key page d ≡ some r) × ((get key r.disk).0 ≡ some page)
  unfolding write store_file write_index enter
  write-get io key page d served small new apart =
      let name = safe_name sha1 utf8 key in
      let content = file_bytes sha1 utf8 key page in
      let stored = record d { files = Dict.put name content d.files } in
      let d' = enter key name (length page) stored in
      let missing = get_of_has key d.index new in
      let e : d'.index ≡ d.index ++ (key, (name, length page)) ∷ [] =
        move_to_end-new key (name, length page) d.index missing in
      let newest =
        subst (Newest key name (length page)) (sym e)
          (Newest-append key name (length page) d.index missing apart) in
      let holds = flush_due-Holds io key name (length page) content (enforce io d'.index d' []) (
        enforce-Holds io key name (length page) content d'.index d' [] refl newest
          (get-put_self name content d.files)) in
      let four : values 4 ≡ 2 ^ 32 = unfold values in refl in
      let narrow : length (utf8 key) < values 4 = omega (arith, four) in
      let r = write_index sha1 utf8 io key page stored in
      let fits : (io.writes && ltb (length (utf8 key)) (values 4)) ≡ true =
        ground (arith, narrow) in
      (
        r,
        rw fits refl,
        get-Holds key name (length page) content r.disk holds ∙ page_of-file_bytes key page narrow,
      )
