-- ===== src/Tests/DiskStore.antt =====
-- Runs of `DiskStore`: a disk of ten bytes and pages of six.
use peer_cache.Base.{
  ℕ, ◌≡◌, ◌≢◌, refl, arith, String, Option, none, some, true, false, List, [], ◌∷◌, ◌==◌, eq_string,
  ==_iff, All,
}
use peer_cache.Base.Bytes.{pack_be, unpack_be, values}
use peer_cache.Base.Dict
use peer_cache.Base.Dict.{Dict, Unique}
use peer_cache.Base.Sets.{discard}
use peer_cache.Base.Text.{join}
use peer_cache.DiskStore.{
  absent, listing, DiskStore, Io, Written, put, unlink, flush_index, drop_oldest, enforce, enter,
  flush_due, entry_file, page_of, get, forget, remove, close, load_entry, load_entries, safe_name,
  file_bytes, store_file, write_index, write, scan_file, rebuild_from_scan, load_index, init,
}
use peer_cache.DiskStore.Steps.{
  waiting, storing, entering, ending, Run, start, after, call_put, take_item, file_stored, entered,
}
use peer_cache.DiskStore.Capacity.{Accounted}
use peer_cache.DiskStore.Inflight.{IsValid, reachable-IsValid}
use peer_cache.DiskStore.RoundTrip.{write-get}
use peer_cache.DiskStore.Restart.{init-close, init-unlisted}

program : Unit {0}
unfolding pack_be unpack_be values discard join put unlink flush_index drop_oldest enforce enter
    flush_due entry_file page_of get forget remove close load_entry load_entries safe_name
    file_bytes store_file write_index write scan_file rebuild_from_scan load_index init Dict.get
    Dict.put Dict.has Dict.remove Dict.get_or Dict.move_to_end
program = tt

abbrev sha1 : String → String
sha1 key = key

abbrev utf8 : String → List ℕ
utf8 key = 65 ∷ []

abbrev decode : List ℕ → Option String
decode bs = none

abbrev io : Io
io = record { writes = true; removes = true; flushes = true }

abbrev page : List ℕ
page = 1 ∷ 2 ∷ 3 ∷ 4 ∷ 5 ∷ 6 ∷ []

abbrev empty : DiskStore
empty = init decode 10 [] [] absent

abbrev queued : DiskStore
queued = put "a" page empty

abbrev taken : DiskStore
taken = record queued { queue = [] }

abbrev stored : DiskStore
stored = record taken {
  files = Dict.put (safe_name sha1 utf8 "a") (file_bytes sha1 utf8 "a" page) taken.files;
}

abbrev one : DiskStore
one = (write_index sha1 utf8 io "a" page stored).disk

in_queue : queued.queue ≡ ("a", page) ∷ []
unfolding program
in_queue = refl

a_stored : store_file sha1 utf8 io "a" page taken ≡ some stored
unfolding program
a_stored = refl

steps : Run sha1 utf8 (empty, waiting) (one, ending "a")
steps =
    after (empty, waiting) (stored, entering "a" page) (one, ending "a")
      (after (empty, waiting) (taken, storing "a" page) (stored, entering "a" page)
        (after (empty, waiting) (queued, waiting) (taken, storing "a" page)
          (after (empty, waiting) (empty, waiting) (queued, waiting) (start (empty, waiting))
            (call_put "a" page empty waiting))
          (take_item "a" page [] queued in_queue))
        (file_stored io "a" page taken stored a_stored))
      (entered io "a" page stored)

reachable-IsValid_example : IsValid one (ending "a")
reachable-IsValid_example = reachable-IsValid sha1 utf8 decode 10 steps

b_new : Dict.has "b" one.index ≡ false
unfolding program
b_new = refl

apart : (x y : String) → (x == y) ≡ false → x ≢ y
apart x y h e = ground (arith, ==_iff x y)

no_clash : All (λ e. e.1.0 ≢ safe_name sha1 utf8 "b") one.index
unfolding program
no_clash = ((λ p. apart "a.bin" "b.bin" refl p), tt)

-- "a" is displaced, "b" is found.
write-get_example :
    (r : Written) × (write sha1 utf8 io "b" page one ≡ some r) × ((get "b" r.disk).0 ≡ some page)
write-get_example = write-get sha1 utf8 io "b" page one refl (omega arith) b_new no_clash

one_counted : Accounted one
unfolding program
one_counted = record { unique = (refl, tt); accounted = refl }

one_there : All (λ e. Dict.has e.1.0 one.files ≡ true) one.index
unfolding program
one_there = (refl, tt)

init-close_example :
    ((init decode 10 [] (close io one).files (close io one).index_file).index ≡ one.index)
    × ((init decode 10 [] (close io one).files (close io one).index_file).used ≡ one.used)
init-close_example = init-close decode io one 10 [] refl one_counted one_there

-- The index on disk is from before "a" was written, whose file is there.
init-unlisted_example : (get "a" (init decode 10 ("a.bin" ∷ []) one.files (listing []))).0 ≡ none
unfolding program
init-unlisted_example = init-unlisted decode 10 ("a.bin" ∷ []) one.files [] "a" refl
