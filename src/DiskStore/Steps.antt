-- ===== src/DiskStore/Steps.antt =====
-- The calls of other threads and the steps of the writer thread (`_run`), in any order.
use peer_cache.Base.{ℕ, ◌≡◌, String, none, some, List, ◌∷◌, eq_string}
use peer_cache.Base.Sets.{discard}
use peer_cache.DiskStore.{DiskStore, Io, put, get, remove, close, store_file, write_index}

-- What the writer thread is at: waiting for the queue, before the file of a page is in place,
-- before its index entry is, or before the key leaves `_inflight`.
pub data Worker : Type 0 where
  waiting : Worker
  storing entering : String → List ℕ → Worker
  ending : String → Worker

pub data Step (sha1 : String → String) (utf8 : String → List ℕ)
    : DiskStore × Worker → DiskStore × Worker → Type 0 where
  call_put :
      (key : String) (page : List ℕ) (d : DiskStore) (w : Worker)
      → Step sha1 utf8 (d, w) (put key page d, w)
  call_get : (key : String) (d : DiskStore) (w : Worker) → Step sha1 utf8 (d, w) ((get key d).1, w)
  call_remove :
      (io : Io) (key : String) (d : DiskStore) (w : Worker)
      → Step sha1 utf8 (d, w) (remove io key d, w)
  call_close : (io : Io) (d : DiskStore) (w : Worker) → Step sha1 utf8 (d, w) (close io d, w)
  take_item :
      (key : String) (page : List ℕ) (rest : List (String × List ℕ)) (d : DiskStore)
      → d.queue ≡ (key, page) ∷ rest
      → Step sha1 utf8 (d, waiting) (record d { queue = rest }, storing key page)
  file_stored :
      (io : Io) (key : String) (page : List ℕ) (d d' : DiskStore)
      → store_file sha1 utf8 io key page d ≡ some d'
      → Step sha1 utf8 (d, storing key page) (d', entering key page)
  file_failed :
      (io : Io) (key : String) (page : List ℕ) (d : DiskStore)
      → store_file sha1 utf8 io key page d ≡ none
      → Step sha1 utf8 (d, storing key page) (d, ending key)
  entered :
      (io : Io) (key : String) (page : List ℕ) (d : DiskStore)
      → Step sha1 utf8
          (d, entering key page)
          ((write_index sha1 utf8 io key page d).disk, ending key)
  ended :
      (key : String) (d : DiskStore)
      → Step sha1 utf8 (d, ending key) (record d { inflight = discard key d.inflight }, waiting)

pub data Run (sha1 : String → String) (utf8 : String → List ℕ)
    : DiskStore × Worker → DiskStore × Worker → Type 0 where
  start : (s : DiskStore × Worker) → Run sha1 utf8 s s
  after : (s t u : DiskStore × Worker) → Run sha1 utf8 s t → Step sha1 utf8 t u → Run sha1 utf8 s u
